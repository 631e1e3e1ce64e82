-- ===== src/Broker/TopicManager/Subscribers.antt =====
-- Whom a message for a topic goes to.
use aqua.Base.{
  ◌≡◌, ◌↔◌, ◌⊎◌, inl, inr, refl, sym, ap, ◌∙◌, true, false, some, is_some, List, [], ◌∷◌, ◌++◌,
  unwrap_or, arith, Bool-cases, Option-cases, subst,
}
use aqua.Bytes.{Bytes}
use aqua.Topic.{bytes_eq, is_match}
use aqua.Topic.Matching.{bytes_eq_iff, bytes_eq_refl}
use aqua.DashMap.{DashMap, has}
use aqua.Packet.Subscribe.{SubscribeOption}
use aqua.Broker.TopicManager.{Subscription, without, register, unregister, subed_loop, subed_id}
use aqua.Broker.TopicManager.Listed.{
  Listed, here, Listed-nonempty, Listed-left, Listed-right, Listed-cases, without_sound,
  without_complete,
}

some_injective : {v w : List Subscription} → some v ≡ some w → v ≡ w
some_injective h = cc

module _ (topic_map : DashMap bytes_eq (List Subscription)) where
  -- `x` is a subscription to `topic_filter`.
  abbrev pub HasSubscription : topic_map.Map → Bytes → Subscription → Type 0
  HasSubscription m topic_filter x =
      (v : List Subscription) × (topic_map.get m topic_filter ≡ some v) × Listed x v

  -- `x` is a subscription to a filter that matches `topic`.
  abbrev pub IsSubscribed : topic_map.Map → Bytes → Subscription → Type 0
  IsSubscribed m topic x =
      (topic_filter : Bytes) × (is_match topic_filter topic ≡ true)
      × HasSubscription m topic_filter x

  loop_sound :
      (m : topic_map.Map) (topic : Bytes) (filters : List Bytes) (x : Subscription)
      → Listed x (subed_loop topic_map m topic filters)
      → IsSubscribed m topic x
  unfolding subed_loop
  loop_sound m topic [] x h = absurd (Listed-nonempty h refl)
  loop_sound m topic (f ∷ fs) x h = elim (Bool-cases (is_match f topic)) [
    | inr other ↦ loop_sound m topic fs x (rw other at h)
    | inl fits ↦ elim (Option-cases (topic_map.get m f)) [
      | inl gone ↦ loop_sound m topic fs x (rw (fits, gone) at h)
      | inr (v, found) ↦
          elim (Listed-cases v (subed_loop topic_map m topic fs) (rw (fits, found) at h)) [
            | inl there ↦ (f, fits, (v, found, there))
            | inr later ↦ loop_sound m topic fs x later
          ]
    ]
  ]

  loop_complete :
      (m : topic_map.Map) (topic : Bytes) (filters : List Bytes) (x : Subscription)
      (topic_filter : Bytes)
      → is_match topic_filter topic ≡ true
      → HasSubscription m topic_filter x
      → has bytes_eq topic_filter filters ≡ true
      → Listed x (subed_loop topic_map m topic filters)
  unfolding subed_loop
  loop_complete m topic [] x f fits h e = cc
  loop_complete m topic (g ∷ gs) x f fits (v, found, there) e = elim (Bool-cases (bytes_eq g f)) [
    | inl same ↦
        let p : g ≡ f = (bytes_eq_iff g f).0 same in
        rw (p, fits, found) (Listed-left (subed_loop topic_map m topic gs) there)
    | inr other ↦ later (loop_complete m topic gs x f fits (v, found, there) (ground arith))
  ]
    where
      later :
          Listed x (subed_loop topic_map m topic gs)
          → Listed x (subed_loop topic_map m topic (g ∷ gs))
      later l = elim (Bool-cases (is_match g topic)) [
        | inr no_fit ↦ rw no_fit l
        | inl fit ↦ elim (Option-cases (topic_map.get m g)) [
          | inl gone ↦ rw (fit, gone) l
          | inr (w, got) ↦ rw (fit, got) (Listed-right w l)
        ]
      ]

  -- `subed_id` returns exactly the subscriptions to filters that match the topic.
  pub subed_id-IsSubscribed :
      (m : topic_map.Map) (topic : Bytes) (x : Subscription)
      → Listed x (subed_id topic_map m topic) ↔ IsSubscribed m topic x
  unfolding subed_id
  subed_id-IsSubscribed m topic x = (
    λ h. loop_sound m topic (topic_map.keys m) x h,
    λ s.
        loop_complete m topic (topic_map.keys m) x s.0 s.1 s.2
          (topic_map.has-keys m s.0 ∙ ap is_some s.2.1),
  )

  -- After `register`, `subed_id` finds the new subscription for each topic that its filter matches.
  pub subed_id-register :
      (m : topic_map.Map) (topic_filter topic client_id : Bytes) (option : SubscribeOption)
      → is_match topic_filter topic ≡ true
      → Listed
          (client_id, option)
          (subed_id topic_map (register topic_map m topic_filter client_id option) topic)
  unfolding register
  subed_id-register m f topic client_id option fits =
      let old = unwrap_or (topic_map.get m f) [] in
      (subed_id-IsSubscribed (register topic_map m f client_id option) topic (client_id, option)).1
        (
          f,
          fits,
          (
            old ++ ((client_id, option) ∷ []),
            ground (
              arith,
              topic_map.get-insert m f (old ++ ((client_id, option) ∷ [])) f,
              bytes_eq_refl f,
            ),
            Listed-right old here,
          ),
        )

  -- The subscriptions of one filter after those of a client were taken out of `w`
  same_filter :
      (m : topic_map.Map) (f g c : Bytes) (w : List Subscription) (x : Subscription)
      → topic_map.get m f ≡ some w
      → bytes_eq f g ≡ true
      → HasSubscription (topic_map.insert m f (without c w)) g x
        ↔ (HasSubscription m g x × (bytes_eq x.0 c ≡ false))
  same_filter m f g c w x found same =
      let p : f ≡ g = (bytes_eq_iff f g).0 same in
      let set : topic_map.get (topic_map.insert m f (without c w)) g ≡ some (without c w) =
        ground (arith, topic_map.get-insert m f (without c w) g, same) in
      let was : topic_map.get m g ≡ some w = rw p at found in
      (
        λ h.
            let (l, other) =
              without_sound c x w
                (subst (λ v. Listed x v) (sym (some_injective (sym set ∙ h.1))) h.2) in
            ((w, was, l), other),
        λ h. (
          without c w,
          set,
          without_complete c x w h.1
              (subst (λ v. Listed x v) (some_injective (sym h.0.1 ∙ was)) h.0.2),
        ),
      )

  other_filter :
      (m : topic_map.Map) (f g : Bytes) (w : List Subscription) (x : Subscription)
      → bytes_eq f g ≡ false
      → HasSubscription (topic_map.insert m f w) g x ↔ HasSubscription m g x
  other_filter m f g w x other =
      let kept : topic_map.get (topic_map.insert m f w) g ≡ topic_map.get m g =
        ground (arith, topic_map.get-insert m f w g, other) in
      (λ h. (h.0, sym kept ∙ h.1, h.2), λ h. (h.0, kept ∙ h.1, h.2))

  -- After `unregister` of a filter and a client, a filter has exactly the subscriptions that it had before,
  -- but for those of this client to this filter.
  pub HasSubscription-unregister :
      (m : topic_map.Map) (topic_filter other client_id : Bytes) (x : Subscription)
      → HasSubscription (unregister topic_map m topic_filter client_id) other x ↔ (
          HasSubscription m other x
          × ((bytes_eq topic_filter other ≡ false) ⊎ (bytes_eq x.0 client_id ≡ false)))
  unfolding unregister
  HasSubscription-unregister m f g c x = elim (Option-cases (topic_map.get m f)) [
    | inl gone ↦
        rw (gone, unregister)
          (λ h. (h, inl (ground (arith, gone, h.1, bytes_eq_iff f g))), λ h. h.0)
    | inr (w, found) ↦ elim (Bool-cases (bytes_eq f g)) [
      | inl same ↦
          let changed = same_filter m f g c w x found same in
          rw (found, unregister)
            (
              λ h. let (l, other) = changed.0 h in (l, inr other),
              λ h.
                  changed.1
                    (h.0, elim h.1 [ inl e ↦ absurd (ground (arith, e, same)) | inr e ↦ e ]),
            )
      | inr other ↦
          let kept = other_filter m f g (without c w) x other in
          rw (found, unregister) (λ h. (kept.0 h, inl other), λ h. kept.1 h.0)
    ]
  ]
