-- ===== src/Base/Bits.antt =====
-- Masks on one byte as arithmetic; each is a table of at most 256 entries, checked by evaluation.
use Prim.Native.Nat.{ℕ, zero, suc, ◌+◌, ◌*◌, ◌/◌, ◌%◌, ◌<◌, bit_and, bit_or}
use mathlib.Core.Path.{◌≡◌, refl}
use mathlib.Core.Bool.{Bool, true, false}
use mathlib.Core.Logic.{ite}
use native.Mathlib.Decide.{ℕ_discrete}
use native.Mathlib.Omega.{arith}

module _ (f g : ℕ → ℕ) where
  agree_below : ℕ → Bool
  unfolding ℕ_discrete
  agree_below zero = true
  agree_below (suc n) = ite (ℕ_discrete (f n) (g n)) (agree_below n) false

  agree_below→eq : (n : ℕ) → agree_below n ≡ true → (i : ℕ) → i < n → f i ≡ g i
  unfolding agree_below
  agree_below→eq zero e i h = absurd (omega arith)
  agree_below→eq (suc n) e i h = ground (arith, agree_below→eq n (ground arith) i)

pub low_bits : (b : ℕ) → b < 256 → bit_and b 0x7f ≡ b % 128
unfolding agree_below
low_bits = agree_below→eq _ _ 256 refl

pub top_bit : (b : ℕ) → b < 256 → bit_and b 0x80 ≡ b / 128 * 128
unfolding agree_below
top_bit = agree_below→eq _ _ 256 refl

pub set_top_bit : (b : ℕ) → b < 128 → bit_or b 0x80 ≡ b + 128
unfolding agree_below
set_top_bit = agree_below→eq _ _ 128 refl

pub low_2_bits : (b : ℕ) → b < 256 → bit_and b 0x03 ≡ b % 4
unfolding agree_below
low_2_bits = agree_below→eq _ _ 256 refl

pub bit_2 : (b : ℕ) → b < 256 → bit_and b 0x04 ≡ b / 4 % 2 * 4
unfolding agree_below
bit_2 = agree_below→eq _ _ 256 refl

pub bit_3 : (b : ℕ) → b < 256 → bit_and b 0x08 ≡ b / 8 % 2 * 8
unfolding agree_below
bit_3 = agree_below→eq _ _ 256 refl
