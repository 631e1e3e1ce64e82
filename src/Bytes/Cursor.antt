-- ===== src/Bytes/Cursor.antt =====
-- A position in a buffer and what stands from there on: the facts that reading needs.
use aqua.Base.{
  ℕ, zero, suc, ◌+◌, ◌-◌, ◌/◌, ◌%◌, ◌≤◌, ◌<◌, ◌≡◌, refl, sym, ap, ◌∙◌, [], ◌∷◌, ◌++◌, some, length,
  get_elem?, drop, take, length-append, length-drop, drop-drop, drop-length_append, length-take,
  All, ◌⊎◌, inl, inr, take-length_append, le→leb, arith,
}
use aqua.Outcome.{ok, panic}
use aqua.Bytes.{
  Bytes, IsByte, advance, index, get_or_invalid, slice, u16_bytes, u32_bytes, u16_from_slice,
  u32_from_slice, byte_pair_at,
}

-- `pos` lies in `buf`, and `rest` stands there.
pub record At (buf : Bytes) (pos : ℕ) (rest : Bytes) : Type 0 where
  pub within : pos ≤ length buf
  pub here : drop pos buf ≡ rest

pub At-start : (buf : Bytes) → At buf 0 buf
At-start buf = record { within = omega arith; here = refl }

pub At-length : {buf rest : Bytes} {pos : ℕ} → At buf pos rest → length buf ≡ pos + length rest
At-length {buf} {rest} {pos} h =
    omega (arith, length-drop pos buf, ap (λ (l : Bytes). length l) h.here, h.within)

get_elem?-drop :
    (buf : Bytes) (pos x : ℕ) (rest : Bytes) → drop pos buf ≡ x ∷ rest → get_elem? buf pos ≡ some x
get_elem?-drop [] zero x rest h = cc
get_elem?-drop [] (suc p) x rest h = cc
get_elem?-drop (y ∷ ys) zero x rest h = cc
get_elem?-drop (y ∷ ys) (suc p) x rest h = get_elem?-drop ys p x rest h

pub At-append :
    {buf : Bytes} {pos : ℕ} (xs rest : Bytes)
    → At buf pos (xs ++ rest)
    → At buf (pos + length xs) rest
At-append {buf} {pos} xs rest h = record {
  within = omega (arith, At-length h, length-append xs rest);
  here =
      sym (drop-drop (length xs) pos buf)
      ∙ ap (drop (length xs)) h.here
      ∙ drop-length_append xs rest;
}

pub At-suc :
    {buf : Bytes} {pos : ℕ} (x : ℕ) (rest : Bytes) → At buf pos (x ∷ rest) → At buf (pos + 1) rest
At-suc x rest h = At-append (x ∷ []) rest h

pub At-index :
    {buf : Bytes} {pos : ℕ} (x : ℕ) (rest : Bytes) → At buf pos (x ∷ rest) → index buf pos ≡ ok x
unfolding index
At-index {buf} {pos} x rest h = rw (get_elem?-drop buf pos x rest h.here)

pub At-get_or_invalid :
    {buf : Bytes} {pos : ℕ} (x : ℕ) (rest : Bytes)
    → At buf pos (x ∷ rest)
    → get_or_invalid buf pos ≡ ok x
unfolding get_or_invalid
At-get_or_invalid {buf} {pos} x rest h = rw (get_elem?-drop buf pos x rest h.here)

pub At-slice :
    {buf : Bytes} {pos : ℕ} (xs rest : Bytes)
    → At buf pos (xs ++ rest)
    → slice buf pos (pos + length xs) ≡ ok xs
unfolding slice
At-slice {buf} {pos} xs rest h =
    rw (le→leb pos (pos + length xs) (omega arith), le→leb (pos + length xs) (length buf) fits)
      (rw (width, h.here, take-length_append xs rest))
  where
    fits : pos + length xs ≤ length buf
    fits = omega (arith, At-length h, length-append xs rest)

    width : pos + length xs - pos ≡ length xs
    width = omega arith

pub At-byte_pair :
    {buf : Bytes} {pos : ℕ} (n : ℕ) (rest : Bytes)
    → At buf pos (u16_bytes n ++ rest)
    → byte_pair_at buf pos ≡ ok n
unfolding byte_pair_at u16_bytes
At-byte_pair n rest h =
    rw (At-index (n / 256) _ h, At-index (n % 256) rest (At-suc _ _ h)) (ap ok (omega arith))

pub u16_round_trip : (n : ℕ) → u16_from_slice (u16_bytes n) ≡ ok n
unfolding u16_from_slice u16_bytes
u16_round_trip n = ap ok (omega arith)

pub u32_round_trip : (n : ℕ) → u32_from_slice (u32_bytes n) ≡ ok n
unfolding u32_from_slice u32_bytes
u32_round_trip n = ap ok (omega arith)

pub index-lt : (buf : Bytes) (pos x : ℕ) → index buf pos ≡ ok x → pos < length buf
unfolding index
index-lt [] pos x h = cc
index-lt (y ∷ ys) zero x h = omega arith
index-lt (y ∷ ys) (suc p) x h = omega (arith, index-lt ys p x h)

pub slice_bounds :
    (buf : Bytes) (from to : ℕ) (s : Bytes)
    → slice buf from to ≡ ok s
    → (from + length s ≡ to) × (to ≤ length buf)
unfolding slice
slice_bounds buf from to s h =
    ground (arith, length-take (to - from) (drop from buf), length-drop from buf)

pub slice_taken :
    (buf : Bytes) (from to : ℕ) (s : Bytes)
    → slice buf from to ≡ ok s
    → s ≡ take (length s) (drop from buf)
unfolding slice
slice_taken buf from to s h =
    let same : take (to - from) (drop from buf) ≡ s = ground (arith, h) in
    let size : length s ≡ to - from = omega (arith, (slice_bounds buf from to s h).0) in
    sym same ∙ ap (λ n. take n (drop from buf)) (sym size)

-- An index either gives a byte of the buffer or panics.
pub index-IsByte :
    (buf : Bytes) (pos : ℕ)
    → All IsByte buf
    → ((b : ℕ) × (index buf pos ≡ ok b) × IsByte b) ⊎ (index buf pos ≡ panic)
unfolding index
index-IsByte [] pos h = inr refl
index-IsByte (x ∷ xs) zero h = inl (x, refl, h.0)
index-IsByte (x ∷ xs) (suc p) h = index-IsByte xs p h.1

pub advance-length : (xs rest : Bytes) → advance (xs ++ rest) (length xs) ≡ ok rest
unfolding advance
advance-length xs rest =
    rw (le→leb (length xs) (length (xs ++ rest)) (omega (arith, length-append xs rest)))
      (ap ok (drop-length_append xs rest))
