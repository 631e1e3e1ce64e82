-- ===== src/Retain/Laws.antt =====
-- What a subscriber is sent of the retained messages.
use aqua.Base.{
  ℕ, zero, suc, ◌≡◌, ◌≢◌, ◌↔◌, true, some, is_some, List, [], ◌∷◌, get_elem?, Bool-cases,
  Option-cases, inl, inr, arith, ◌∙◌, ap,
}
use aqua.Bytes.{Bytes}
use aqua.Topic.{bytes_eq, is_match}
use aqua.Topic.Matching.{bytes_eq_iff, bytes_eq_refl}
use aqua.DashMap.{DashMap, has}
use aqua.Packet.Publish.{Publish}
use aqua.Retain.{RetainStore, update_retain, remove_retain, check_loop, check_retain}

abbrev pub IsIn {ℓ} : {A : Type ℓ} → A → List A → Type ℓ
IsIn x xs = (i : ℕ) × (get_elem? xs i ≡ some x)

module _ (kvs : DashMap bytes_eq Publish) where
  -- A message is retained under `topic`, and the filter matches that.
  abbrev pub IsRetained : RetainStore kvs → Bytes → Publish → Bytes → Type 0
  IsRetained store topic_filter pkt topic =
      (kvs.get store topic ≡ some pkt) × (is_match topic_filter topic ≡ true)

  loop_sound :
      (store : RetainStore kvs) (topic_filter : Bytes) (topics : List Bytes) (pkt : Publish) (i : ℕ)
      → get_elem? (check_loop kvs store topic_filter topics) i ≡ some pkt
      → (topic : Bytes) × IsRetained store topic_filter pkt topic
  unfolding check_loop
  loop_sound store f [] pkt i h = cc
  loop_sound store f (t ∷ ts) pkt i h = elim (Bool-cases (is_match f t)) [
    | inr other ↦ loop_sound store f ts pkt i (rw other at h)
    | inl fits ↦ elim (Option-cases (kvs.get store t)) [
      | inl gone ↦ loop_sound store f ts pkt i (rw (fits, gone) at h)
      | inr (p, found) ↦ first p found fits i (rw (fits, found) at h) (loop_sound store f ts pkt)
    ]
  ]
    where
      first :
          (p : Publish)
          → kvs.get store t ≡ some p
          → is_match f t ≡ true
          → (j : ℕ) → get_elem? (p ∷ check_loop kvs store f ts) j ≡ some pkt
          → ((k : ℕ)
              → get_elem? (check_loop kvs store f ts) k ≡ some pkt
              → (topic : Bytes) × IsRetained store f pkt topic)
          → (topic : Bytes) × IsRetained store f pkt topic
      first p found fits zero e rec = (t, (cc, fits))
      first p found fits (suc k) e rec = rec k e

  loop_complete :
      (store : RetainStore kvs) (topic_filter : Bytes) (topics : List Bytes) (pkt : Publish)
      (topic : Bytes)
      → IsRetained store topic_filter pkt topic
      → has bytes_eq topic topics ≡ true
      → IsIn pkt (check_loop kvs store topic_filter topics)
  unfolding check_loop
  loop_complete store f [] pkt topic r h = cc
  loop_complete store f (t ∷ ts) pkt topic (found, fits) h = elim (Bool-cases (bytes_eq t topic)) [
    | inl same ↦ let e : t ≡ topic = (bytes_eq_iff t topic).0 same in (0, rw e (rw (fits, found)))
    | inr other ↦ later (loop_complete store f ts pkt topic (found, fits) (ground arith))
  ]
    where
      later : IsIn pkt (check_loop kvs store f ts) → IsIn pkt (check_loop kvs store f (t ∷ ts))
      later (i, e) = elim (Bool-cases (is_match f t)) [
        | inr no_fit ↦ (i, rw no_fit e)
        | inl fit ↦ elim (Option-cases (kvs.get store t)) [
          | inl gone ↦ (i, rw (fit, gone) e)
          | inr (p, there) ↦ (suc i, rw (fit, there) e)
        ]
      ]

  -- `check_retain` returns exactly the messages that are retained under a topic which the filter matches.
  pub check_retain-IsRetained :
      (store : RetainStore kvs) (topic_filter : Bytes) (pkt : Publish)
      → IsIn pkt (check_retain kvs store topic_filter)
        ↔ ((topic : Bytes) × IsRetained store topic_filter pkt topic)
  unfolding check_retain
  check_retain-IsRetained store f pkt = (
    λ h. loop_sound store f (kvs.keys store) pkt h.0 h.1,
    λ r.
        loop_complete store f (kvs.keys store) pkt r.0 r.1
          (kvs.has-keys store r.0 ∙ ap is_some r.1.0),
  )

  -- After `update_retain`, `check_retain` returns the message for each filter that matches its topic.
  pub check_retain-update :
      (store : RetainStore kvs) (topic topic_filter : Bytes) (pkt : Publish)
      → is_match topic_filter topic ≡ true
      → IsIn pkt (check_retain kvs (update_retain kvs store topic pkt) topic_filter)
  unfolding update_retain
  check_retain-update store topic f pkt fits =
      (check_retain-IsRetained (kvs.insert store topic pkt) f pkt).1
        (topic, (rw (kvs.get-insert, bytes_eq_refl topic), fits))

  -- After `remove_retain` for a topic, `check_retain` returns exactly the messages that were retained under
  -- another topic which the filter matches.
  pub check_retain-remove :
      (store : RetainStore kvs) (topic topic_filter : Bytes) (pkt : Publish)
      → IsIn pkt (check_retain kvs (remove_retain kvs store topic) topic_filter)
        ↔ ((other : Bytes) × (other ≢ topic) × IsRetained store topic_filter pkt other)
  unfolding remove_retain
  check_retain-remove store topic f pkt = (
    λ h. forth ((check_retain-IsRetained (kvs.remove store topic) f pkt).0 h),
    λ r. (check_retain-IsRetained (kvs.remove store topic) f pkt).1 (
      r.0,
      (ground (arith, r.1, r.2.0, bytes_eq_iff topic r.0, kvs.get-remove store topic r.0), r.2.1),
    ),
  )
    where
      forth :
          ((o : Bytes) × IsRetained (kvs.remove store topic) f pkt o)
          → (other : Bytes) × (other ≢ topic) × IsRetained store f pkt other
      forth (o, (e, m)) = (
        o,
        λ p. ground (arith, e, p, kvs.get-remove store topic o, bytes_eq_iff topic o),
        (ground (arith, e, kvs.get-remove store topic o), m),
      )
