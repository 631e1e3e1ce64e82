-- ===== src/Utf8.antt =====
-- `std::str::from_utf8`, as far as the coder uses it: whether a byte string is valid UTF-8. A Rust
-- string is modelled by its bytes.
use aqua.Base.{ℕ, zero, suc, ◌≡◌, refl, Bool, true, false, ◌&&◌, [], ◌∷◌, leb, ltb, if◌then◌else◌}
use aqua.Outcome.{Outcome, ok, err, invalid_format}
use aqua.Bytes.{Bytes}

-- What the bytes of the character read so far ask for: nothing more, or `more` bytes after one that
-- lies between `low` and `high`.
data Expect : Type 0 where
  boundary : Expect
  continuation : (low high more : ℕ) → Expect

-- The well-formed byte sequences of the Unicode standard, table 3-7.
lead : ℕ → Bool × Expect
lead b =
    if ltb b 0x80
    then (true, boundary)
    else if ltb b 0xc2
    then (false, boundary)
    else if ltb b 0xe0
    then (true, continuation 0x80 0xbf 0)
    else if leb b 0xe0
    then (true, continuation 0xa0 0xbf 1)
    else if leb b 0xec
    then (true, continuation 0x80 0xbf 1)
    else if leb b 0xed
    then (true, continuation 0x80 0x9f 1)
    else if leb b 0xef
    then (true, continuation 0x80 0xbf 1)
    else if leb b 0xf0
    then (true, continuation 0x90 0xbf 2)
    else if leb b 0xf3
    then (true, continuation 0x80 0xbf 2)
    else if leb b 0xf4
    then (true, continuation 0x80 0x8f 2)
    else (false, boundary)

after : ℕ → Expect
after more = elim more [ zero ↦ boundary | suc k ↦ continuation 0x80 0xbf k ]

read : Expect → ℕ → Bool × Expect
read boundary b = lead b
read (continuation low high more) b = (leb low b && leb b high, after more)

valid_from : Expect → Bytes → Bool
valid_from boundary [] = true
valid_from (continuation low high more) [] = false
valid_from e (b ∷ bs) = (read e b).0 && valid_from (read e b).1 bs

pub is_utf8 : Bytes → Bool
unfolding lead after read valid_from
is_utf8 bytes = valid_from boundary bytes

-- Both `from_utf8` calls of the source map a failure to `InvalidFormat`.
unfoldable pub from_utf8 : Bytes → Outcome Bytes
from_utf8 bytes = if is_utf8 bytes then ok bytes else err invalid_format

ascii : is_utf8 (0x4d ∷ 0x51 ∷ 0x54 ∷ 0x54 ∷ []) ≡ true
unfolding is_utf8
ascii = refl

overlong : is_utf8 (0xc0 ∷ 0xaf ∷ []) ≡ false
unfolding is_utf8
overlong = refl

surrogate : is_utf8 (0xed ∷ 0xa0 ∷ 0x80 ∷ []) ≡ false
unfolding is_utf8
surrogate = refl

hiragana : is_utf8 (0xe3 ∷ 0x81 ∷ 0x82 ∷ []) ≡ true
unfolding is_utf8
hiragana = refl

pub letter : is_utf8 (0x61 ∷ []) ≡ true
unfolding is_utf8
letter = refl
