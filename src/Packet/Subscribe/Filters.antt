-- ===== src/Packet/Subscribe/Filters.antt =====
-- mqtt_coder/src/mqtt.rs: the filters of a SUBSCRIBE, as MQTT writes them, are the filters that are read.
use aqua.Base.{
  ℕ, zero, suc, ◌+◌, ◌<◌, ◌≤◌, ◌^◌, ◌≡◌, refl, List, [], ◌∷◌, ◌++◌, length, Option, All, arith,
  append_assoc, length-append, true, false, ◌==◌, ltb, ap, sym, ◌∙◌,
}
use aqua.Outcome.{ok}
use aqua.Bytes.{Bytes}
use aqua.Bytes.Cursor.{At, At-start, At-append, At-suc, advance-length}
use aqua.Wire.Text.{text_bytes, length-text_bytes, decode_utf8_string_lem}
use aqua.Utf8.{is_utf8}
use aqua.Property.{topic_filter_try_from}
use aqua.Packet.Subscribe.{Subscribe, SubscribeOption, topic_filters_loop, decode_payload}
use aqua.Packet.Subscribe.Options.{option_byte, subscribe_option_try_from_lem}

abbrev pub Filter : Type 0
Filter = Bytes × SubscribeOption

-- A filter is UTF-8, and its length fits the two bytes in front of it.
abbrev pub IsFilter : Filter → Type 0
IsFilter f = (is_utf8 f.0 ≡ true) × (length f.0 < 2 ^ 16)

unfoldable pub filters_bytes : List Filter → Bytes
filters_bytes [] = []
filters_bytes (f ∷ fs) = text_bytes f.0 ++ (option_byte f.1 ∷ filters_bytes fs)

pub length-filters_bytes :
    (f : Filter) (fs : List Filter)
    → length (filters_bytes (f ∷ fs)) ≡ 3 + length f.0 + length (filters_bytes fs)
unfolding filters_bytes
length-filters_bytes f fs = omega (
  arith,
  length-append (text_bytes f.0) (option_byte f.1 ∷ filters_bytes fs),
  length-text_bytes f.0,
)

filters_bytes-none : length (filters_bytes []) ≡ 0
unfolding filters_bytes
filters_bytes-none = refl

-- Each filter takes three bytes or more.
filters_bytes-enough : (fs : List Filter) → length fs ≤ length (filters_bytes fs)
filters_bytes-enough [] = omega arith
filters_bytes-enough (f ∷ fs) = omega (arith, length-filters_bytes f fs, filters_bytes-enough fs)

topic_filter_try_from_lem :
    {buf : Bytes} {pos : ℕ} (s rest : Bytes)
    → is_utf8 s ≡ true
    → At buf pos (text_bytes s ++ rest)
    → topic_filter_try_from buf pos ≡ ok (s, pos + 2 + length s)
unfolding topic_filter_try_from
topic_filter_try_from_lem s rest valid h = rw (decode_utf8_string_lem s rest valid h) refl

abbrev with_filters : Subscribe → List Filter → Subscribe
with_filters p fs = record p { topic_filters = p.topic_filters ++ fs }

-- Where a first filter stands, and where the filters behind it
first_stands :
    {buf : Bytes} {pos : ℕ} (f : Filter) (fs : List Filter) (rest : Bytes)
    → At buf pos (filters_bytes (f ∷ fs) ++ rest)
    → At buf pos (text_bytes f.0 ++ (option_byte f.1 ∷ (filters_bytes fs ++ rest)))
unfolding filters_bytes
first_stands f fs rest h = rw append_assoc at h

options_stand :
    {buf : Bytes} {pos : ℕ} (f : Filter) (fs : List Filter) (rest : Bytes)
    → At buf pos (filters_bytes (f ∷ fs) ++ rest)
    → At buf (pos + 2 + length f.0) (option_byte f.1 ∷ (filters_bytes fs ++ rest))
options_stand {buf} {pos} f fs rest h =
    let at = At-append (text_bytes f.0) _ (first_stands f fs rest h) in
    let e : pos + length (text_bytes f.0) ≡ pos + 2 + length f.0 =
      omega (arith, length-text_bytes f.0) in
    rw e at at

topic_filters_loop-filters_bytes :
    (f : Filter) (fs : List Filter) (fuel : ℕ) (p : Subscribe) (buf : Bytes) (pos : ℕ)
    (rest : Bytes)
    → All IsFilter (f ∷ fs)
    → length fs < fuel
    → p.payload_length ≡ pos + length (filters_bytes (f ∷ fs))
    → At buf pos (filters_bytes (f ∷ fs) ++ rest)
    → topic_filters_loop fuel p buf pos ≡ ok (with_filters p (f ∷ fs), p.payload_length)
unfolding topic_filters_loop
topic_filters_loop-filters_bytes f fs zero p buf pos rest good enough total h = absurd (omega arith)
topic_filters_loop-filters_bytes f [] (suc fuel) p buf pos rest good enough total h =
    let size : p.payload_length ≡ pos + 2 + length f.0 + 1 =
      omega (arith, total, length-filters_bytes f [], filters_bytes-none) in
    let test : p.payload_length == pos + 2 + length f.0 + 1 ≡ true = ground (arith, size) in
    rw
      (
        topic_filter_try_from_lem f.0 _ good.0.0 (first_stands f [] rest h),
        subscribe_option_try_from_lem f.1 _ (options_stand f [] rest h),
        test,
      )
      (ap (λ n. ok (with_filters p (f ∷ []), n)) (sym size))
topic_filters_loop-filters_bytes f (g ∷ fs) (suc fuel) p buf pos rest good enough total h =
    let size : p.payload_length ≡ pos + 2 + length f.0 + 1 + length (filters_bytes (g ∷ fs)) =
      omega (arith, total, length-filters_bytes f (g ∷ fs)) in
    let test : p.payload_length == pos + 2 + length f.0 + 1 ≡ false =
      ground (arith, size, length-filters_bytes g fs) in
    let below : ltb p.payload_length (pos + 2 + length f.0 + 1) ≡ false = ground (arith, size) in
    rw
      (
        topic_filter_try_from_lem f.0 _ good.0.0 (first_stands f (g ∷ fs) rest h),
        subscribe_option_try_from_lem f.1 _ (options_stand f (g ∷ fs) rest h),
        test,
        below,
      )
      (topic_filters_loop-filters_bytes g fs fuel (with_filters p (f ∷ [])) buf
          (pos + 2 + length f.0 + 1) rest good.1 (omega arith) size
          (At-suc _ _ (options_stand f (g ∷ fs) rest h))
        ∙ ap (λ ts. ok (record p { topic_filters = ts }, p.payload_length))
            (append_assoc p.topic_filters (f ∷ []) (g ∷ fs)))

-- The payload of a SUBSCRIBE that lists filters, one or more, as MQTT writes them, is read as those filters
-- with their options, in their order, and what follows the payload is left in the buffer.
pub decode_payload-filters_bytes :
    (f : Filter) (fs : List Filter) (p : Subscribe) (rest : Bytes) (v : Option ℕ)
    → All IsFilter (f ∷ fs)
    → p.payload_length ≡ length (filters_bytes (f ∷ fs))
    → decode_payload p (filters_bytes (f ∷ fs) ++ rest) v
      ≡ ok (record p { topic_filters = p.topic_filters ++ (f ∷ fs) }, rest)
unfolding decode_payload
decode_payload-filters_bytes f fs p rest v good total =
    let buf = filters_bytes (f ∷ fs) ++ rest in
    let test : p.payload_length == 0 ≡ false = ground (arith, total, length-filters_bytes f fs) in
    let enough : length fs < p.payload_length =
      omega (arith, total, length-filters_bytes f fs, filters_bytes-enough fs) in
    rw
      (
        test,
        topic_filters_loop-filters_bytes f fs p.payload_length p buf 0 rest good enough
            (omega (arith, total)) (At-start buf),
        total,
        advance-length (filters_bytes (f ∷ fs)) rest,
      )
      refl
