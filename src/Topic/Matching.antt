-- ===== src/Topic/Matching.antt =====
-- `is_match` decides the matching of MQTT filters.
use aqua.Base.{
  ℕ, zero, suc, ◌+◌, ◌≡◌, ◌≢◌, refl, sym, ap, ◌∙◌, ◌↔◌, Bool, true, false, ◌&&◌, List, [], ◌∷◌,
  some, ◌==◌, if◌then◌else◌, length, get_elem?, drop, arith, inl, inr, Bool-cases,
}
use aqua.Bytes.{Bytes}
use aqua.Topic.{bytes_eq, hash, plus, split, match_loop, is_match}

pub bytes_eq_sound : (a b : Bytes) → bytes_eq a b ≡ true → a ≡ b
unfolding bytes_eq
bytes_eq_sound [] [] h = refl
bytes_eq_sound [] (y ∷ ys) h = cc
bytes_eq_sound (x ∷ xs) [] h = cc
bytes_eq_sound (x ∷ xs) (y ∷ ys) h = ground (arith, bytes_eq_sound xs ys)

pub bytes_eq_refl : (a : Bytes) → bytes_eq a a ≡ true
unfolding bytes_eq
bytes_eq_refl [] = refl
bytes_eq_refl (x ∷ xs) = ground (arith, bytes_eq_refl xs)

pub bytes_eq_iff : (a b : Bytes) → (bytes_eq a b ≡ true) ↔ (a ≡ b)
bytes_eq_iff a b = (bytes_eq_sound a b, λ e. rw e (bytes_eq_refl b))

-- A filter's segments match a topic's: `#` ends a filter and takes all that is left, also nothing; `+`
-- takes one segment; any other segment takes its equal.
pub data Matches : List Bytes → List Bytes → Type 0 where
  both_end : Matches [] []
  all_levels : (ts : List Bytes) → Matches (hash ∷ []) ts
  one_level : (t : Bytes) {fs ts : List Bytes} → Matches fs ts → Matches (plus ∷ fs) (t ∷ ts)
  same_level :
      (f : Bytes) {fs ts : List Bytes} → f ≢ hash → Matches fs ts → Matches (f ∷ fs) (f ∷ ts)

-- The loop, over the segments that are left.
matches : List Bytes → List Bytes → Bool
matches [] [] = true
matches [] (t ∷ ts) = false
matches (f ∷ fs) [] = bytes_eq f hash && length fs == 0
matches (f ∷ fs) (t ∷ ts) =
    let more = matches fs ts in
    if bytes_eq f hash
    then length fs == 0
    else if bytes_eq f plus
    then more
    else if bytes_eq f t
    then more
    else false

get_elem?-drop-cons :
    (xs : List Bytes) (i : ℕ) (y : Bytes) (ys : List Bytes)
    → drop i xs ≡ y ∷ ys
    → (get_elem? xs i ≡ some y) × (drop (i + 1) xs ≡ ys) × (length xs ≡ i + suc (length ys))
get_elem?-drop-cons [] zero y ys h = cc
get_elem?-drop-cons [] (suc i) y ys h = cc
get_elem?-drop-cons (x ∷ xs) zero y ys h =
    (cc, cc, ground (arith, ap (λ (l : List Bytes). length l) h))
get_elem?-drop-cons (x ∷ xs) (suc i) y ys h =
    let (a, b, c) = get_elem?-drop-cons xs i y ys h in
    let e : suc i + 1 ≡ suc (i + 1) = omega arith in (a, rw e b, omega arith)

match_loop-matches :
    (fs' ts' fs ts : List Bytes) (i j : ℕ)
    → drop i fs ≡ fs'
    → drop j ts ≡ ts'
    → length fs ≡ i + length fs'
    → length ts ≡ j + length ts'
    → match_loop (length fs') fs ts i j ≡ matches fs' ts'
unfolding match_loop matches
match_loop-matches [] [] fs ts i j hf ht lf lt = ground arith
match_loop-matches [] (t ∷ ts') fs ts i j hf ht lf lt = ground arith
match_loop-matches (f ∷ fs') [] fs ts i j hf ht lf lt =
    let (a, b, c) = get_elem?-drop-cons fs i f fs' hf in ground (arith, a)
match_loop-matches (f ∷ fs') (t ∷ ts') fs ts i j hf ht lf lt =
    let (a, b, c) = get_elem?-drop-cons fs i f fs' hf in
    let (a', b', c') = get_elem?-drop-cons ts j t ts' ht in
    ground (arith, a, a', match_loop-matches fs' ts' fs ts (i + 1) (j + 1) b b')

matches_sound : (fs ts : List Bytes) → matches fs ts ≡ true → Matches fs ts
unfolding matches
matches_sound [] [] h = both_end
matches_sound [] (t ∷ ts) h = cc
matches_sound (f ∷ []) [] h =
    let e : f ≡ hash = bytes_eq_sound f hash (ground arith) in rw e (all_levels [])
matches_sound (f ∷ g ∷ fs) [] h = absurd (ground arith)
matches_sound (f ∷ fs) (t ∷ ts) h = elim (Bool-cases (bytes_eq f hash)) [
  | inl all ↦ ends (bytes_eq_sound f hash all) fs (ground arith)
  | inr more ↦ elim (Bool-cases (bytes_eq f plus)) [
    | inl one ↦ rw (bytes_eq_sound f plus one) (one_level t (matches_sound fs ts (ground arith)))
    | inr other ↦
        let same : f ≡ t = bytes_eq_sound f t (ground arith) in
        let not_hash : t ≢ hash = λ e. cc (more, (bytes_eq_iff f hash).1 (same ∙ e)) in
        rw same (same_level t not_hash (matches_sound fs ts (ground arith)))
  ]
]
  where
    ends : f ≡ hash → (gs : List Bytes) → length gs ≡ 0 → Matches (f ∷ gs) (t ∷ ts)
    ends e [] l = rw e (all_levels (t ∷ ts))
    ends e (g ∷ gs) l = absurd (omega arith)

not_hash : (f : Bytes) → f ≢ hash → bytes_eq f hash ≡ false
not_hash f h = elim (Bool-cases (bytes_eq f hash)) [
  | inl e ↦ absurd (h (bytes_eq_sound f hash e))
  | inr e ↦ e
]

plus_not_hash : bytes_eq plus hash ≡ false
unfolding bytes_eq
plus_not_hash = refl

matches_complete : {fs ts : List Bytes} → Matches fs ts → matches fs ts ≡ true
unfolding matches
matches_complete both_end = refl
matches_complete (all_levels []) = rw (bytes_eq_refl hash)
matches_complete (all_levels (t ∷ ts)) = rw (bytes_eq_refl hash)
matches_complete (one_level t {fs} {ts} m) =
    rw (plus_not_hash, bytes_eq_refl plus) (matches_complete m)
matches_complete (same_level f {fs} {ts} h m) =
    ground (arith, not_hash f h, bytes_eq_refl f, matches_complete m)

-- `is_match` answers true exactly when the segments of the filter match those of the topic.
pub is_match-Matches :
    (topic_filter topic : Bytes)
    → (is_match topic_filter topic ≡ true) ↔ Matches (split topic_filter) (split topic)
unfolding is_match
is_match-Matches topic_filter topic =
    (λ h. matches_sound _ _ (sym loop ∙ h), λ m. loop ∙ matches_complete m)
  where
    loop : is_match topic_filter topic ≡ matches (split topic_filter) (split topic)
    loop =
        match_loop-matches (split topic_filter) (split topic) (split topic_filter) (split topic) 0 0
          refl refl (omega arith) (omega arith)
