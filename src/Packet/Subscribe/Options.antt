-- ===== src/Packet/Subscribe/Options.antt =====
-- mqtt_coder/src/mqtt.rs: the options of a subscription, as the byte that MQTT gives them.
use aqua.Base.{ℕ, ◌+◌, ◌*◌, ◌/◌, ◌%◌, ◌<◌, ◌≡◌, refl, Bool, true, false, not, ◌∷◌, ◌==◌, arith}
use aqua.Base.Bits.{low_2_bits, bit_2, bit_3}
use aqua.Outcome.{ok}
use aqua.Bytes.{Bytes}
use aqua.Bytes.Cursor.{At, At-index}
use aqua.Property.{QoS, qos0, qos1, qos2, qos_try_from}
use aqua.Packet.Subscribe.{
  RetainHandling, receive_all, ignore_retained_initial, ignore_retained_always,
  retain_handling_try_from, SubscribeOption, subscribe_option_try_from,
}

abbrev qos_code : QoS → ℕ
qos_code qos0 = 0
qos_code qos1 = 1
qos_code qos2 = 2

abbrev handling_code : RetainHandling → ℕ
handling_code receive_all = 0
handling_code ignore_retained_initial = 1
handling_code ignore_retained_always = 2

abbrev flag : Bool → ℕ
flag false = 0
flag true = 1

-- The byte of the options, from its lowest bit: QoS, no local, retain as published, retain handling.
unfoldable pub option_byte : SubscribeOption → ℕ
option_byte o =
    qos_code o.qos
    + 4 * flag o.no_local
    + 8 * flag o.retain_as_published
    + 16 * handling_code o.retain_handling

qos_code-small : (q : QoS) → qos_code q < 3
qos_code-small qos0 = omega arith
qos_code-small qos1 = omega arith
qos_code-small qos2 = omega arith

handling_code-small : (h : RetainHandling) → handling_code h < 3
handling_code-small receive_all = omega arith
handling_code-small ignore_retained_initial = omega arith
handling_code-small ignore_retained_always = omega arith

flag-small : (b : Bool) → flag b < 2
flag-small false = omega arith
flag-small true = omega arith

qos_code-read : (q : QoS) → qos_try_from (qos_code q) ≡ ok q
unfolding qos_try_from
qos_code-read qos0 = refl
qos_code-read qos1 = refl
qos_code-read qos2 = refl

handling_code-read : (h : RetainHandling) → retain_handling_try_from (handling_code h) ≡ ok h
unfolding retain_handling_try_from
handling_code-read receive_all = refl
handling_code-read ignore_retained_initial = refl
handling_code-read ignore_retained_always = refl

flag_4 : (b : Bool) → not (flag b * 4 == 0) ≡ b
flag_4 false = refl
flag_4 true = refl

flag_8 : (b : Bool) → not (flag b * 8 == 0) ≡ b
flag_8 false = refl
flag_8 true = refl

-- The options that a byte encodes are read back.
pub subscribe_option_try_from_lem :
    {buf : Bytes} {pos : ℕ} (o : SubscribeOption) (rest : Bytes)
    → At buf pos (option_byte o ∷ rest)
    → subscribe_option_try_from buf pos ≡ ok (o, pos + 1)
unfolding subscribe_option_try_from option_byte
subscribe_option_try_from_lem {buf} {pos} o rest h =
    rw
      (
        At-index _ rest h,
        low_2_bits b small,
        bit_2 b small,
        bit_3 b small,
        low,
        second,
        third,
        high,
      )
      (rw
        (
          qos_code-read o.qos,
          flag_4 o.no_local,
          flag_8 o.retain_as_published,
          handling_code-read o.retain_handling,
        )
        refl)
  where
    b : ℕ
    b = option_byte o

    small : b < 256
    small = omega (
      arith,
      qos_code-small o.qos,
      handling_code-small o.retain_handling,
      flag-small o.no_local,
      flag-small o.retain_as_published,
    )

    low : b % 4 ≡ qos_code o.qos
    low = omega (arith, qos_code-small o.qos)

    second : b / 4 % 2 ≡ flag o.no_local
    second = omega (arith, qos_code-small o.qos, flag-small o.no_local)

    third : b / 8 % 2 ≡ flag o.retain_as_published
    third =
        omega (arith, qos_code-small o.qos, flag-small o.no_local, flag-small o.retain_as_published)

    high : b / 16 ≡ handling_code o.retain_handling
    high = omega (
      arith,
      qos_code-small o.qos,
      handling_code-small o.retain_handling,
      flag-small o.no_local,
      flag-small o.retain_as_published,
    )
