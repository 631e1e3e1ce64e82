-- ===== src/Broker/Service/Selection.antt =====
-- examples/broker.rs: which retained messages answer a SUBSCRIBE.
use aqua.Base.{
  ℕ, zero, suc, ◌≡◌, refl, ap, ◌∙◌, true, false, ◌||◌, some, List, [], ◌∷◌, ◌++◌, map, get_elem?,
  All, All-append, arith, if_cases, subst,
}
use aqua.Bytes.{Bytes}
use aqua.Topic.{bytes_eq}
use aqua.Topic.Matching.{bytes_eq_iff, bytes_eq_refl}
use aqua.DashMap.{has}
use aqua.Packet.Publish.{Publish}
use aqua.Packet.Subscribe.{SubscribeOption}
use aqua.Retain.{check_retain}
use aqua.Broker.State.{Outside}
use aqua.Broker.Service.{Gathered, gather_one, gather, gather_loop}

-- No topic stands twice in a list.
abbrev pub NoRepeats : List Bytes → Type 0
NoRepeats [] = Unit
NoRepeats (t ∷ ts) = (has bytes_eq t ts ≡ false) × NoRepeats ts

has-append :
    (t : Bytes) (xs ys : List Bytes)
    → has bytes_eq t (xs ++ ys) ≡ (has bytes_eq t xs || has bytes_eq t ys)
has-append t [] ys = refl
has-append t (x ∷ xs) ys = ground (arith, has-append t xs ys)

NoRepeats-append :
    (ts : List Bytes) (t : Bytes)
    → has bytes_eq t ts ≡ false
    → NoRepeats ts
    → NoRepeats (ts ++ (t ∷ []))
NoRepeats-append [] t h n = (refl, tt)
NoRepeats-append (s ∷ ts) t h n = (
  ground (arith, n.0, has-append s ts (t ∷ []), h, bytes_eq_iff s t, bytes_eq_iff t s),
  NoRepeats-append ts t (ground arith) n.1,
)

map-snoc :
    (ps : List Publish) (p : Publish)
    → map (λ q. q.topic_name) (ps ++ (p ∷ [])) ≡ map (λ q. q.topic_name) ps ++ (p.topic_name ∷ [])
map-snoc [] p = refl
map-snoc (q ∷ ps) p = ap (λ l. q.topic_name ∷ l) (map-snoc ps p)

module _ (x : Outside) (Fits : Publish → Type 0) where
  -- Each topic was seen with the message that has it, and none twice.
  pub record IsGathered (g : Gathered x) : Type 0 where
    pub topics : map (λ q. q.topic_name) g.packets ≡ g.seen
    pub once : NoRepeats g.seen
    pub fitting : All Fits g.packets

  gather_one-IsGathered :
      (p : Publish) (g : Gathered x) → Fits p → IsGathered g → IsGathered (gather_one x p g)
  unfolding gather_one
  gather_one-IsGathered p g fits i =
      if_cases IsGathered (has bytes_eq p.topic_name g.seen) g _ (λ seen. i)
        (λ fresh. record {
          topics = map-snoc g.packets p ∙ ap (λ l. l ++ (p.topic_name ∷ [])) i.topics;
          once = NoRepeats-append g.seen p.topic_name fresh i.once;
          fitting = All-append Fits g.packets (p ∷ []) i.fitting (fits, tt);
        })

  pub gather-IsGathered :
      (ps : List Publish) (g : Gathered x) → All Fits ps → IsGathered g → IsGathered (gather x ps g)
  unfolding gather
  gather-IsGathered [] g all i = i
  gather-IsGathered (p ∷ ps) g all i =
      gather-IsGathered ps (gather_one x p g) all.1 (gather_one-IsGathered p g all.0 i)

module _ (x : Outside) where
  abbrev pub Sees : Bytes → Gathered x → Type 0
  Sees t g = has bytes_eq t g.seen ≡ true

  gather_one-own : (p : Publish) (g : Gathered x) → Sees p.topic_name (gather_one x p g)
  unfolding gather_one
  gather_one-own p g =
      if_cases (Sees p.topic_name) (has bytes_eq p.topic_name g.seen) g _ (λ seen. seen)
        (λ fresh.
          ground
            (arith, has-append p.topic_name g.seen (p.topic_name ∷ []), bytes_eq_refl p.topic_name))

  gather_one-Sees :
      (t : Bytes) (p : Publish) (g : Gathered x) → Sees t g → Sees t (gather_one x p g)
  unfolding gather_one
  gather_one-Sees t p g h =
      if_cases (Sees t) (has bytes_eq p.topic_name g.seen) g _ (λ seen. h)
        (λ fresh. ground (arith, has-append t g.seen (p.topic_name ∷ []), h))

  gather-Sees : (t : Bytes) (ps : List Publish) (g : Gathered x) → Sees t g → Sees t (gather x ps g)
  unfolding gather
  gather-Sees t [] g h = h
  gather-Sees t (p ∷ ps) g h = gather-Sees t ps (gather_one x p g) (gather_one-Sees t p g h)

  pub gather-own :
      (ps : List Publish) (g : Gathered x) (i : ℕ) (p : Publish)
      → get_elem? ps i ≡ some p
      → Sees p.topic_name (gather x ps g)
  unfolding gather
  gather-own [] g i p e = cc
  gather-own (q ∷ ps) g zero p e =
      let same : q ≡ p = cc in
      subst (λ r. Sees r.topic_name (gather x ps (gather_one x q g))) same
        (gather-Sees q.topic_name ps (gather_one x q g) (gather_one-own q g))
  gather-own (q ∷ ps) g (suc i) p e = gather-own ps (gather_one x q g) i p e

  pub gather_loop-Sees :
      (store : x.retained.Map) (t : Bytes) (filters : List (Bytes × SubscribeOption))
      (g : Gathered x)
      → Sees t g
      → Sees t (gather_loop x store filters g)
  unfolding gather_loop
  gather_loop-Sees store t [] g h = h
  gather_loop-Sees store t (f ∷ filters) g h =
      gather_loop-Sees store t filters (gather x (check_retain x.retained store f.0) g)
        (gather-Sees t (check_retain x.retained store f.0) g h)
