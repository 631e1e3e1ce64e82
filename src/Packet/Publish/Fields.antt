-- ===== src/Packet/Publish/Fields.antt =====
-- How each property of a `Publish` is read back from what is written for it.
use aqua.Base.{
  ℕ, suc, ◌+◌, ◌^◌, ◌≤◌, ◌<◌, ◌≡◌, ◌≢◌, refl, sym, ap, ◌∙◌, true, false, ◌==◌, List, [], ◌∷◌, ◌++◌,
  length, length-append, append_assoc, append-nil, Option, none, some, All, arith, subst,
}
use aqua.Outcome.{Outcome, ok, >>=-ok}
use aqua.Bytes.{Bytes, slice, u16_bytes, u32_bytes}
use aqua.Bytes.Cursor.{At, At-append, At-index, At-suc, At-byte_pair, At-slice, u32_round_trip}
use aqua.Utf8.{is_utf8}
use aqua.Wire.{encode_variable_bytes, decode_utf8_string}
use aqua.Wire.Text.{text_bytes, length-text_bytes, decode_utf8_string_lem}
use aqua.Wire.VarInt.{decode-encode_variable_bytes}
use aqua.Property.{
  UserProperty, PayloadFormatIndicator, unspecified_bytes, utf8, indicator_code,
  payload_format_indicator_try_from, user_property_try_from, message_expiry_interval_try_from,
  topic_alias_try_from, response_topic_try_from, content_type_try_from, correlation_data_try_from,
  subscription_identifier_try_from, push,
}
use aqua.Property.Writers.{cast_text, cast_text_lem}
use aqua.Property.Reads.{Gives, Gives-next}
use aqua.Packet.Publish.Properties.{
  PublishProperties, optional, user_properties_part, identifiers_part, property_arm,
}

-- `push` for each element of a list
abbrev pub pushes {ℓ} : {A : Type ℓ} → Option (List A) → List A → Option (List A)
pushes old [] = old
pushes old (x ∷ xs) = pushes (push old x) xs

pub pushes-some {ℓ} : {A : Type ℓ} (xs ys : List A) → pushes (some xs) ys ≡ some (xs ++ ys)
pushes-some xs [] = ap some (sym (append-nil xs))
pushes-some xs (y ∷ ys) = pushes-some (xs ++ (y ∷ [])) ys ∙ ap some (append_assoc xs (y ∷ []) ys)

-- A string that can be written and read
abbrev pub IsText : Bytes → Type 0
IsText s = (is_utf8 s ≡ true) × (length s < 2 ^ 16)

module _ {buf : Bytes} {pos : ℕ} where
  text_read :
      (s rest : Bytes)
      → IsText s
      → At buf pos (cast_text s ++ rest)
      → decode_utf8_string buf pos ≡ ok (s, pos + length (cast_text s))
  text_read s rest (valid, fits) h =
      let e = cast_text_lem s fits in
      rw e (
        decode_utf8_string_lem s rest valid (rw e at h)
        ∙ ap (λ n. ok (s, n)) (omega (arith, length-text_bytes s)))

  indicator_read :
      (c : PayloadFormatIndicator) (rest : Bytes)
      → At buf pos (indicator_code c ∷ rest)
      → payload_format_indicator_try_from buf pos ≡ ok (c, pos + 1)
  unfolding payload_format_indicator_try_from
  indicator_read unspecified_bytes rest h = rw (At-index 0 rest h)
  indicator_read utf8 rest h = rw (At-index 1 rest h)

  expiry_read :
      (n : ℕ) (rest : Bytes)
      → At buf pos (u32_bytes n ++ rest)
      → message_expiry_interval_try_from buf pos ≡ ok (n, pos + 4)
  unfolding message_expiry_interval_try_from
  expiry_read n rest h =
      let e : slice buf pos (pos + 4) ≡ ok (u32_bytes n) =
        unfold u32_bytes in At-slice (_ ∷ _ ∷ _ ∷ _ ∷ []) rest h in
      rw (e, u32_round_trip n)

  alias_read :
      (n : ℕ) (rest : Bytes)
      → n ≢ 0
      → At buf pos (u16_bytes n ++ rest)
      → topic_alias_try_from buf pos ≡ ok (n, pos + 2)
  unfolding topic_alias_try_from
  alias_read n rest given h =
      let other : (n == 0) ≡ false = ground (arith, given) in rw (At-byte_pair n rest h, other)

  data_read :
      (s rest : Bytes)
      → length s < 2 ^ 16
      → At buf pos (cast_text s ++ rest)
      → correlation_data_try_from buf pos ≡ ok (s, pos + length (cast_text s))
  unfolding correlation_data_try_from
  data_read s rest fits h =
      let e = cast_text_lem s fits in
      let front : At buf pos (u16_bytes (length s) ++ (s ++ rest)) =
        unfold text_bytes in rw append_assoc at (rw e at h) in
      let body : At buf (pos + 2) (s ++ rest) =
        unfold u16_bytes in At-append (_ ∷ _ ∷ []) (s ++ rest) front in
      rw (At-byte_pair (length s) (s ++ rest) front, At-slice s rest body)
        (ap (λ n. ok (s, n)) (rw e (omega (arith, length-text_bytes s))))

user_property_read :
    {buf : Bytes} {pos : ℕ} (u : UserProperty) (rest : Bytes)
    → IsText u.key
    → IsText u.value
    → At buf pos ((cast_text u.key ++ cast_text u.value) ++ rest)
    → user_property_try_from buf pos ≡ ok (u, pos + length (cast_text u.key ++ cast_text u.value))
unfolding user_property_try_from
user_property_read {buf} {pos} u rest key value h =
    let front : At buf pos (cast_text u.key ++ (cast_text u.value ++ rest)) =
      rw append_assoc at h in
    let behind = At-append (cast_text u.key) (cast_text u.value ++ rest) front in
    >>=-ok _ _ (text_read u.key (cast_text u.value ++ rest) key front) (
      >>=-ok _ _ (text_read u.value rest value behind)
        (ap (λ n. ok (u, n)) (omega (arith, length-append (cast_text u.key) (cast_text u.value)))))

module _ (buf : Bytes) (end_pos : ℕ) where
  abbrev pub G : ℕ → PublishProperties → Outcome (PublishProperties × ℕ) → Type 0
  G = Gives (property_arm buf) buf end_pos

  -- What is written for `c` is read into the field that `state` sets.
  abbrev pub ReadsBack : {A : Type 0} → (A → Bytes) → (Option A → PublishProperties) → A → Type 0
  ReadsBack write state c =
      (pos : ℕ) (rest : Bytes) (r : Outcome (PublishProperties × ℕ))
      → At buf pos (write c ++ rest)
      → pos + length (write c) ≤ end_pos
      → G (pos + length (write c)) (state (some c)) r
      → G pos (state none) r

  -- One optional field in front of the others
  pub peel :
      {A : Type 0} (v : Option A) (write : A → Bytes) (state : Option A → PublishProperties)
      (tail rest : Bytes) (pos : ℕ) (r : Outcome (PublishProperties × ℕ))
      → ((c : A) → v ≡ some c → ReadsBack write state c)
      → At buf pos ((optional v write ++ tail) ++ rest)
      → pos + length (optional v write ++ tail) ≡ end_pos
      → ((pos' : ℕ)
          → At buf pos' (tail ++ rest)
          → pos' + length tail ≡ end_pos
          → G pos' (state v) r)
      → G pos (state none) r
  peel none write state tail rest pos r reads at len more = more pos at len
  peel (some c) write state tail rest pos r reads at len more =
      let front : At buf pos (write c ++ (tail ++ rest)) = rw append_assoc at at in
      let len' = length-append (write c) tail in
      reads c refl pos (tail ++ rest) r front (omega (arith, len, len')) (
        more (pos + length (write c)) (At-append (write c) (tail ++ rest) front)
          (omega (arith, len, len')))

  module _ (s : PublishProperties) where
    pub indicator-ReadsBack :
        (c : PayloadFormatIndicator)
        → ReadsBack
            (λ c. 0x01 ∷ indicator_code c ∷ [])
            (λ v. record s { payload_format_indicator = v })
            c
    unfolding property_arm
    indicator-ReadsBack c pos rest r h within g =
        Gives-next (property_arm buf) buf end_pos pos 0x01 (indicator_code c ∷ []) rest _ _ r h
          (>>=-ok _ _ (indicator_read c rest (At-suc _ _ h)) refl) within g

    pub expiry-ReadsBack :
        (c : ℕ)
        → ReadsBack (λ c. 0x02 ∷ u32_bytes c) (λ v. record s { message_expiry_interval = v }) c
    unfolding property_arm u32_bytes
    expiry-ReadsBack c pos rest r h within g =
        Gives-next (property_arm buf) buf end_pos pos 0x02 (u32_bytes c) rest _ _ r h
          (>>=-ok _ _ (expiry_read c rest (At-suc _ _ h)) refl) within g

    pub alias-ReadsBack :
        (c : ℕ) → c ≢ 0 → ReadsBack (λ c. 0x23 ∷ u16_bytes c) (λ v. record s { topic_alias = v }) c
    unfolding property_arm u16_bytes
    alias-ReadsBack c given pos rest r h within g =
        Gives-next (property_arm buf) buf end_pos pos 0x23 (u16_bytes c) rest _ _ r h
          (>>=-ok _ _ (alias_read c rest given (At-suc _ _ h)) refl) within g

    pub response-ReadsBack :
        (c : Bytes)
        → IsText c
        → ReadsBack (λ c. 0x08 ∷ cast_text c) (λ v. record s { response_topic = v }) c
    unfolding property_arm response_topic_try_from
    response-ReadsBack c text pos rest r h within g =
        Gives-next (property_arm buf) buf end_pos pos 0x08 (cast_text c) rest _ _ r h
          (>>=-ok _ _ (>>=-ok _ _ (text_read c rest text (At-suc _ _ h)) refl) refl) within g

    pub correlation-ReadsBack :
        (c : Bytes)
        → length c < 2 ^ 16
        → ReadsBack (λ c. 0x09 ∷ cast_text c) (λ v. record s { correlation_data = v }) c
    unfolding property_arm
    correlation-ReadsBack c fits pos rest r h within g =
        Gives-next (property_arm buf) buf end_pos pos 0x09 (cast_text c) rest _ _ r h
          (>>=-ok _ _ (data_read c rest fits (At-suc _ _ h)) refl) within g

    pub content-ReadsBack :
        (c : Bytes)
        → IsText c
        → ReadsBack (λ c. 0x03 ∷ cast_text c) (λ v. record s { content_type = v }) c
    unfolding property_arm content_type_try_from
    content-ReadsBack c text pos rest r h within g =
        Gives-next (property_arm buf) buf end_pos pos 0x03 (cast_text c) rest _ _ r h
          (>>=-ok _ _ (>>=-ok _ _ (text_read c rest text (At-suc _ _ h)) refl) refl) within g

    abbrev pub with_users : Option (List UserProperty) → PublishProperties
    with_users v = record s { user_properties = v }

    abbrev pub with_identifiers : Option (List ℕ) → PublishProperties
    with_identifiers v = record s { subscription_identifier = v }

    -- Each user property is pushed behind those that were read.
    pub users-read :
        (us : List UserProperty) (old : Option (List UserProperty)) (pos : ℕ) (rest : Bytes)
        (r : Outcome (PublishProperties × ℕ))
        → All (λ u. IsText u.key × IsText u.value) us
        → At buf pos (user_properties_part us ++ rest)
        → pos + length (user_properties_part us) ≤ end_pos
        → G (pos + length (user_properties_part us)) (with_users (pushes old us)) r
        → G pos (with_users old) r
    unfolding user_properties_part property_arm
    users-read [] old pos rest r texts h within g =
        let e : pos + 0 ≡ pos = omega arith in subst (λ n. G n (with_users old) r) e g
    users-read (u ∷ us) old pos rest r texts h within g =
        let text = cast_text u.key ++ cast_text u.value in
        let tail = user_properties_part us in
        let regroup : (cast_text u.key ++ (cast_text u.value ++ tail)) ≡ text ++ tail =
          sym (append_assoc (cast_text u.key) (cast_text u.value) tail) in
        let front : At buf pos (0x26 ∷ (text ++ (tail ++ rest))) =
          subst (λ l. At buf pos (0x26 ∷ l))
            (ap (λ l. l ++ rest) regroup ∙ append_assoc text tail rest) h in
        let len = ap (λ (l : Bytes). length l) regroup ∙ length-append text tail in
        Gives-next (property_arm buf) buf end_pos pos 0x26 text (tail ++ rest) _ _ r front
          (>>=-ok _ _ (user_property_read u (tail ++ rest) texts.0.0 texts.0.1 (At-suc _ _ front))
            refl)
          (omega (arith, within, len))
          (users-read us (push old u) (pos + suc (length text)) rest r texts.1
            (At-append (0x26 ∷ text) (tail ++ rest) front) (omega (arith, within, len))
            (subst (λ n. G n (with_users (pushes (push old u) us)) r) (omega (arith, len)) g))

    pub identifiers-read :
        (is : List ℕ) (old : Option (List ℕ)) (pos : ℕ) (rest : Bytes)
        (r : Outcome (PublishProperties × ℕ))
        → All (λ i. i < 2 ^ 28) is
        → At buf pos (identifiers_part is ++ rest)
        → pos + length (identifiers_part is) ≤ end_pos
        → G (pos + length (identifiers_part is)) (with_identifiers (pushes old is)) r
        → G pos (with_identifiers old) r
    unfolding identifiers_part property_arm subscription_identifier_try_from
    identifiers-read [] old pos rest r small h within g =
        let e : pos + 0 ≡ pos = omega arith in subst (λ n. G n (with_identifiers old) r) e g
    identifiers-read (i ∷ is) old pos rest r small h within g =
        let front : At buf pos (0x0b ∷ (encode_variable_bytes i ++ (identifiers_part is ++ rest))) =
          rw append_assoc at h in
        let len = length-append (encode_variable_bytes i) (identifiers_part is) in
        let behind =
          At-append (0x0b ∷ encode_variable_bytes i) (identifiers_part is ++ rest) front in
        Gives-next (property_arm buf) buf end_pos pos 0x0b (encode_variable_bytes i)
          (identifiers_part is ++ rest) _ _ r front
          (>>=-ok _ _
            (>>=-ok _ _
              (decode-encode_variable_bytes i (identifiers_part is ++ rest) small.0
                (At-suc _ _ front))
              refl)
            refl)
          (omega (arith, within, len))
          (identifiers-read is (push old i) (pos + suc (length (encode_variable_bytes i))) rest r
            small.1 behind (omega (arith, within, len))
            (subst (λ n. G n (with_identifiers (pushes (push old i) is)) r) (omega (arith, len)) g))
