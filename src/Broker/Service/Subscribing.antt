-- ===== src/Broker/Service/Subscribing.antt =====
-- examples/broker.rs: the answer to a SUBSCRIBE.
use aqua.Base.{
  ℕ, zero, suc, ◌≡◌, ◌↔◌, refl, sym, true, some, List, [], ◌∷◌, map, get_elem?, All, All-get_elem?,
  arith, Bool-cases, inl, inr, subst,
}
use aqua.Outcome.{ok}
use aqua.Bytes.{Bytes}
use aqua.Topic.{bytes_eq, is_match}
use aqua.Topic.Matching.{bytes_eq_iff}
use aqua.DashMap.{has}
use aqua.Packet.Publish.{Publish}
use aqua.Packet.Subscribe.{Subscribe, SubscribeOption}
use aqua.Coder.ControlPacket.{publish, subscribe}
use aqua.Session.{get_protocol_version}
use aqua.Retain.{check_retain}
use aqua.Retain.Laws.{IsIn, check_retain-IsRetained}
use aqua.Connection.Responses.{new_packets}
use aqua.Broker.State.{Outside, Broker}
use aqua.Broker.Service.{Gathered, gather, gather_loop, suback_for, serve_subscribe, serve}
use aqua.Broker.Service.Keeps.{All-of_get_elem?}
use aqua.Broker.Service.Selection.{
  NoRepeats, IsGathered, Sees, gather-IsGathered, gather-own, gather_loop-Sees,
}
use aqua.Broker.System.Messages.{RetainedFull}

module _ (x : Outside) where
  -- A message that is retained under its own topic, which one of the filters matches
  abbrev pub IsWanted : x.retained.Map → List (Bytes × SubscribeOption) → Publish → Type 0
  IsWanted store filters p =
      (x.retained.get store p.topic_name ≡ some p)
      × (i : ℕ) × (f : Bytes × SubscribeOption) × (get_elem? filters i ≡ some f)
      × (is_match f.0 p.topic_name ≡ true)

  -- What `check_retain` gives for one of the filters is wanted.
  checked-IsWanted :
      (store : x.retained.Map) (all : List (Bytes × SubscribeOption)) (i : ℕ)
      (f : Bytes × SubscribeOption)
      → RetainedFull x store
      → get_elem? all i ≡ some f
      → All (IsWanted store all) (check_retain x.retained store f.0)
  checked-IsWanted store all i f full at =
      All-of_get_elem? (IsWanted store all) (check_retain x.retained store f.0) (λ j p e.
        let (topic, (found, fits)) = (check_retain-IsRetained x.retained store f.0 p).0 (j, e) in
        let own : topic ≡ p.topic_name = sym (full topic p found).2 in
        (
          subst (λ t. x.retained.get store t ≡ some p) own found,
          i,
          f,
          at,
          subst (λ t. is_match f.0 t ≡ true) own fits,
        ))

  gather_loop-IsGathered :
      (store : x.retained.Map) (all filters : List (Bytes × SubscribeOption)) (g : Gathered x)
      → RetainedFull x store
      → ((i : ℕ) (f : Bytes × SubscribeOption)
          → get_elem? filters i ≡ some f
          → (j : ℕ) × (get_elem? all j ≡ some f))
      → IsGathered x (IsWanted store all) g
      → IsGathered x (IsWanted store all) (gather_loop x store filters g)
  unfolding gather_loop
  gather_loop-IsGathered store all [] g full among h = h
  gather_loop-IsGathered store all (f ∷ filters) g full among h =
      let (j, at) = among zero f refl in
      gather_loop-IsGathered store all filters (gather x (check_retain x.retained store f.0) g) full
        (λ i. among (suc i))
        (gather-IsGathered x (IsWanted store all) (check_retain x.retained store f.0) g
          (checked-IsWanted store all j f full at) h)

  gather_loop-own :
      (store : x.retained.Map) (filters : List (Bytes × SubscribeOption)) (g : Gathered x) (i : ℕ)
      (f : Bytes × SubscribeOption) (p : Publish)
      → get_elem? filters i ≡ some f
      → x.retained.get store p.topic_name ≡ some p
      → is_match f.0 p.topic_name ≡ true
      → Sees x p.topic_name (gather_loop x store filters g)
  unfolding gather_loop
  gather_loop-own store [] g i f p at found fits = cc
  gather_loop-own store (h ∷ filters) g zero f p at found fits =
      let same : f ≡ h = cc in
      let (k, e) =
        (check_retain-IsRetained x.retained store h.0 p).1
          (p.topic_name, (found, subst (λ l. is_match l.0 p.topic_name ≡ true) same fits)) in
      gather_loop-Sees x store p.topic_name filters (gather x (check_retain x.retained store h.0) g)
        (gather-own x (check_retain x.retained store h.0) g k p e)
  gather_loop-own store (h ∷ filters) g (suc i) f p at found fits =
      gather_loop-own store filters (gather x (check_retain x.retained store h.0) g) i f p at found
        fits

  -- A topic that was seen is that of a message that was gathered.
  seen-packet :
      (ps : List Publish) (t : Bytes)
      → has bytes_eq t (map (λ q. q.topic_name) ps) ≡ true
      → (q : Publish) × IsIn q ps × (q.topic_name ≡ t)
  seen-packet [] t h = cc
  seen-packet (q ∷ ps) t h = elim (Bool-cases (bytes_eq q.topic_name t)) [
    | inl same ↦ (q, (0, refl), (bytes_eq_iff q.topic_name t).0 same)
    | inr other ↦
        let (r, (i, e), topic) = seen-packet ps t (ground (arith, other, h)) in
        (r, (suc i, e), topic)
  ]

  one_message :
      (store : x.retained.Map) (r q : Publish)
      → r.topic_name ≡ q.topic_name
      → x.retained.get store r.topic_name ≡ some r
      → x.retained.get store q.topic_name ≡ some q
      → r ≡ q
  one_message store r q same found wanted = cc

  -- The messages that answer a SUBSCRIBE
  abbrev pub selected : Broker x → Subscribe → List Publish
  selected b p =
      (gather_loop x b.store p.topic_filters
        (record { packets = []; seen = []; staging = b.manager })).packets

  selected-IsGathered :
      (b : Broker x) (p : Subscribe)
      → RetainedFull x b.store
      → IsGathered x (IsWanted b.store p.topic_filters) (
          gather_loop x b.store p.topic_filters
            (record { packets = []; seen = []; staging = b.manager }))
  selected-IsGathered b p full =
      gather_loop-IsGathered b.store p.topic_filters p.topic_filters _ full (λ i f e. (i, e))
        (record { topics = refl; once = tt; fitting = tt })

  -- A SUBSCRIBE of a client with a version is answered by a SUBACK and then the retained messages whose
  -- topic one of its filters matches: all of them, no others, and none twice, where each retained
  -- message stands under its own topic.
  pub serve_subscribe-selected :
      (b : Broker x) (name : Bytes) (p : Subscribe) (version : ℕ) (q : Publish)
      → RetainedFull x b.store
      → get_protocol_version x.session b.manager name ≡ some version
      → ((serve x b name (subscribe p)).1
          ≡ ok (new_packets (suback_for x p name version ∷ map publish (selected b p))))
        × NoRepeats (map (λ m. m.topic_name) (selected b p))
        × (IsIn q (selected b p) ↔ IsWanted b.store p.topic_filters q)
  unfolding serve serve_subscribe
  serve_subscribe-selected b name p version q full has_version =
      let g =
        gather_loop x b.store p.topic_filters
          (record { packets = []; seen = []; staging = b.manager }) in
      let h = selected-IsGathered b p full in
      (
        rw has_version,
        rw h.topics h.once,
        (
          λ there.
              All-get_elem? (IsWanted b.store p.topic_filters) g.packets there.0 q h.fitting
                there.1,
          λ wanted.
              let seen =
                gather_loop-own b.store p.topic_filters
                  (record { packets = []; seen = []; staging = b.manager }) wanted.1 wanted.2 q
                  wanted.3 wanted.0 wanted.4 in
              let found =
                seen-packet g.packets q.topic_name
                  (subst (λ ts. has bytes_eq q.topic_name ts ≡ true) (sym h.topics) seen) in
              subst (λ m. IsIn m g.packets)
                (one_message b.store found.0 q found.2
                  (All-get_elem? (IsWanted b.store p.topic_filters) g.packets found.1.0 found.0
                    h.fitting found.1.1).0
                  wanted.0)
                found.1,
        ),
      )
