-- ===== src/Broker/Service/Registering.antt =====
-- examples/broker.rs: which subscriptions a SUBSCRIBE registers.
use aqua.Base.{
  ℕ, zero, suc, ◌≡◌, ◌≢◌, refl, sym, ap, ◌∙◌, true, false, some, is_empty, List, [], ◌∷◌, ◌++◌,
  get_elem?, unwrap_or, arith, Bool-cases, Option-cases, ◌⊎◌, ◌↔◌, inl, inr, subst,
}
use aqua.Bytes.{Bytes}
use aqua.Topic.{bytes_eq, is_match}
use aqua.Topic.Matching.{bytes_eq_iff, bytes_eq_refl}
use aqua.Packet.Subscribe.{Subscribe, SubscribeOption}
use aqua.Coder.ControlPacket.{subscribe}
use aqua.Broker.TopicManager.{Subscription, register, subed_id}
use aqua.Broker.TopicManager.Listed.{
  Listed, here, further, Listed-nonempty, Listed-cases, Listed-left, Listed-right,
}
use aqua.Broker.TopicManager.Subscribers.{HasSubscription, subed_id-IsSubscribed}
use aqua.Broker.State.{Outside, Broker}
use aqua.Broker.Service.{register_loop, serve_subscribe, serve}

module _ (x : Outside) where
  register-new :
      (m : x.topics.Map) (f name : Bytes) (option : SubscribeOption)
      → HasSubscription x.topics (register x.topics m f name option) f (name, option)
  unfolding register
  register-new m f name option =
      let old = unwrap_or (x.topics.get m f) [] in
      (
        old ++ ((name, option) ∷ []),
        ground (arith, x.topics.get-insert m f (old ++ ((name, option) ∷ [])) f, bytes_eq_refl f),
        Listed-right old here,
      )

  register-keeps :
      (m : x.topics.Map) (f name g : Bytes) (option : SubscribeOption) (s : Subscription)
      → HasSubscription x.topics m g s
      → HasSubscription x.topics (register x.topics m f name option) g s
  unfolding register
  register-keeps m f name g option s (v, found, l) =
      let old = unwrap_or (x.topics.get m f) [] in
      let set = x.topics.get-insert m f (old ++ ((name, option) ∷ [])) g in
      elim (Bool-cases (bytes_eq f g)) [
        | inr other ↦ (v, ground (arith, set, other, found), l)
        | inl same ↦
            let p : f ≡ g = (bytes_eq_iff f g).0 same in
            let was : old ≡ v = ap (λ o. unwrap_or o []) (ap (λ k. x.topics.get m k) p ∙ found) in
            (
              old ++ ((name, option) ∷ []),
              ground (arith, set, same),
              Listed-left ((name, option) ∷ []) (subst (λ w. Listed s w) (sym was) l),
            )
      ]

  register_loop-keeps :
      (m : x.topics.Map) (name g : Bytes) (filters : List (Bytes × SubscribeOption))
      (s : Subscription)
      → HasSubscription x.topics m g s
      → HasSubscription x.topics (register_loop x m name filters) g s
  unfolding register_loop
  register_loop-keeps m name g [] s h = h
  register_loop-keeps m name g ((f, option) ∷ filters) s h =
      register_loop-keeps (register x.topics m f name option) name g filters s
        (register-keeps m f name g option s h)

  register_loop-new :
      (m : x.topics.Map) (name : Bytes) (filters : List (Bytes × SubscribeOption)) (i : ℕ)
      (f : Bytes × SubscribeOption)
      → get_elem? filters i ≡ some f
      → HasSubscription x.topics (register_loop x m name filters) f.0 (name, f.1)
  unfolding register_loop
  register_loop-new m name [] i f e = cc
  register_loop-new m name ((g, option) ∷ filters) zero f e =
      let same : (g, option) ≡ f = cc in
      register_loop-keeps (register x.topics m g name option) name f.0 filters (name, f.1)
        (subst (λ h. HasSubscription x.topics (register x.topics m g name option) h.0 (name, h.1))
          same (register-new m g name option))
  register_loop-new m name ((g, option) ∷ filters) (suc i) f e =
      register_loop-new (register x.topics m g name option) name filters i f e

  some_injective : {v w : List Subscription} → some v ≡ some w → v ≡ w
  some_injective h = cc

  alone : {s y : Subscription} → Listed s (y ∷ []) → s ≡ y
  alone here = refl
  alone (further l) = absurd (Listed-nonempty l refl)

  -- What a filter had, where what stands for a missing list does not count
  was_there :
      (m : x.topics.Map) (f : Bytes) (s : Subscription)
      → Listed s (unwrap_or (x.topics.get m f) [])
      → HasSubscription x.topics m f s
  was_there m f s l = elim (Option-cases (x.topics.get m f)) [
    | inl gone ↦ absurd (Listed-nonempty (subst (λ o. Listed s (unwrap_or o [])) gone l) refl)
    | inr (w, found) ↦ (w, found, subst (λ o. Listed s (unwrap_or o [])) found l)
  ]

  register-only :
      (m : x.topics.Map) (f name g : Bytes) (option : SubscribeOption) (s : Subscription)
      → HasSubscription x.topics (register x.topics m f name option) g s
      → HasSubscription x.topics m g s ⊎ ((f ≡ g) × (s ≡ (name, option)))
  unfolding register
  register-only m f name g option s (v, found, l) =
      let new = unwrap_or (x.topics.get m f) [] ++ ((name, option) ∷ []) in
      let set = x.topics.get-insert m f new g in
      elim (Bool-cases (bytes_eq f g)) [
        | inr other ↦ inl (v, ground (arith, set, other, found), l)
        | inl same ↦
            let p : f ≡ g = (bytes_eq_iff f g).0 same in
            let is_new : v ≡ new = some_injective (ground (arith, set, same, found)) in
            elim (Listed-cases _ _ (subst (λ w. Listed s w) is_new l)) [
              | inl old ↦ inl (subst (λ g. HasSubscription x.topics m g s) p (was_there m f s old))
              | inr last ↦ inr (p, alone last)
            ]
      ]

  -- `s` is what the filters of a SUBSCRIBE ask for, for messages that go to `topic`.
  abbrev pub IsRequested : Bytes → List (Bytes × SubscribeOption) → Bytes → Subscription → Type 0
  IsRequested name filters topic s =
      (i : ℕ) × (f : Bytes × SubscribeOption) × (get_elem? filters i ≡ some f)
      × (is_match f.0 topic ≡ true)
      × (s ≡ (name, f.1))

  register_loop-only :
      (m : x.topics.Map) (name g topic : Bytes) (filters : List (Bytes × SubscribeOption))
      (s : Subscription)
      → is_match g topic ≡ true
      → HasSubscription x.topics (register_loop x m name filters) g s
      → HasSubscription x.topics m g s ⊎ IsRequested name filters topic s
  unfolding register_loop
  register_loop-only m name g topic [] s fits h = inl h
  register_loop-only m name g topic ((f, option) ∷ filters) s fits h =
      elim (register_loop-only (register x.topics m f name option) name g topic filters s fits h) [
        | inr (i, asked, at, fits, new) ↦ inr (suc i, asked, at, fits, new)
        | inl there ↦ elim (register-only m f name g option s there) [
          | inl old ↦ inl old
          | inr (same, new) ↦ inr (0, (f, option), refl, rw same fits, new)
        ]
      ]

  named : (name : Bytes) → name ≢ [] → is_empty name ≡ false
  named [] h = absurd (h refl)
  named (c ∷ cs) h = refl

  registered :
      (m : x.topics.Map) (name topic : Bytes) (filters : List (Bytes × SubscribeOption))
      (s : Subscription)
      → Listed s (subed_id x.topics (register_loop x m name filters) topic)
        ↔ (Listed s (subed_id x.topics m topic) ⊎ IsRequested name filters topic s)
  registered m name topic filters s =
      let before = subed_id-IsSubscribed x.topics m topic s in
      let after = subed_id-IsSubscribed x.topics (register_loop x m name filters) topic s in
      (
        λ l.
            let (g, fits, there) = after.0 l in
            elim (register_loop-only m name g topic filters s fits there) [
              | inl old ↦ inl (before.1 (g, fits, old))
              | inr new ↦ inr new
            ],
        λ e. elim e [
          | inl l ↦
              let (g, fits, there) = before.0 l in
              after.1 (g, fits, register_loop-keeps m name g filters s there)
          | inr (i, f, at, fits, new) ↦
              after.1 (f.0, fits, rw new (register_loop-new m name filters i f at))
        ],
      )

  -- After a SUBSCRIBE of a client that has a name, the subscribers to a topic are those that were before
  -- and, for each filter of the packet that matches the topic, the client with the options of that
  -- filter, and no others.
  pub serve_subscribe-registers :
      (b : Broker x) (name : Bytes) (p : Subscribe) (topic : Bytes) (s : Subscription)
      → name ≢ []
      → Listed s (subed_id x.topics (serve x b name (subscribe p)).0.topic_map topic) ↔ (
          Listed s (subed_id x.topics b.topic_map topic) ⊎ IsRequested name p.topic_filters topic s)
  unfolding serve serve_subscribe
  serve_subscribe-registers b name p topic s has =
      rw (named name has) (registered b.topic_map name topic p.topic_filters s)
