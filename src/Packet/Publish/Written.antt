-- ===== src/Packet/Publish/Written.antt =====
-- The properties of a `Publish`, as they are written, are read back.
use aqua.Base.{
  ℕ, ◌+◌, ◌^◌, ◌<◌, ◌≡◌, ◌≢◌, refl, sym, List, [], ◌∷◌, ◌++◌, length, append-nil, none, some, All,
  arith, subst,
}
use aqua.Outcome.{Outcome, ok}
use aqua.Bytes.{Bytes}
use aqua.Bytes.Cursor.{At}
use aqua.Property.{UserProperty}
use aqua.Property.Writers.{cast_text}
use aqua.Property.Loop.{property_block}
use aqua.Property.Reads.{Gives-end, Gives-block}
use aqua.Packet.Publish.Properties.{
  PublishProperties, default_properties, optional, user_properties_part, identifiers_part,
  build_bytes, property_arm,
}
use aqua.Packet.Publish.Fields.{
  pushes, pushes-some, IsText, G, ReadsBack, peel, indicator-ReadsBack, expiry-ReadsBack,
  alias-ReadsBack, response-ReadsBack, correlation-ReadsBack, content-ReadsBack, with_users,
  with_identifiers, users-read, identifiers-read,
}

-- Properties that can be written and read back
pub record IsReadable (p : PublishProperties) : Type 0 where
  pub alias_given : (c : ℕ) → p.topic_alias ≡ some c → c ≢ 0
  pub response : (c : Bytes) → p.response_topic ≡ some c → IsText c
  pub correlation : (c : Bytes) → p.correlation_data ≡ some c → length c < 2 ^ 16
  pub users :
      (us : List UserProperty)
      → p.user_properties ≡ some us
      → (us ≢ []) × All (λ u. IsText u.key × IsText u.value) us
  pub identifiers :
      (is : List ℕ) → p.subscription_identifier ≡ some is → (is ≢ []) × All (λ i. i < 2 ^ 28) is
  pub content : (c : Bytes) → p.content_type ≡ some c → IsText c

pushes-none {ℓ} : {A : Type ℓ} (xs : List A) → xs ≢ [] → pushes none xs ≡ some xs
pushes-none [] h = absurd (h refl)
pushes-none (x ∷ xs) h = pushes-some (x ∷ []) xs

module _ (buf : Bytes) (end_pos : ℕ) (p : PublishProperties) (well : IsReadable p) where
  users-ReadsBack :
      (s : PublishProperties) (us : List UserProperty)
      → p.user_properties ≡ some us
      → ReadsBack buf end_pos user_properties_part (with_users buf end_pos s) us
  users-ReadsBack s us e pos rest r h within g =
      let ok_us = well.users us e in
      users-read buf end_pos s us none pos rest r ok_us.1 h within (
        subst
          (λ v.
            G buf end_pos (pos + length (user_properties_part us)) (with_users buf end_pos s v) r)
          (sym (pushes-none us ok_us.0)) g)

  identifiers-ReadsBack :
      (s : PublishProperties) (is : List ℕ)
      → p.subscription_identifier ≡ some is
      → ReadsBack buf end_pos identifiers_part (with_identifiers buf end_pos s) is
  identifiers-ReadsBack s is e pos rest r h within g =
      let ok_is = well.identifiers is e in
      identifiers-read buf end_pos s is none pos rest r ok_is.1 h within (
        subst
          (λ v.
            G buf end_pos (pos + length (identifiers_part is)) (with_identifiers buf end_pos s v) r)
          (sym (pushes-none is ok_is.0)) g)

  abbrev content_part : Bytes
  content_part = optional p.content_type (λ c. 0x03 ∷ cast_text c)

  -- The last three fields, in front of which the others were read
  last_fields :
      (rest : Bytes) (pos : ℕ)
      → At buf pos (
          (optional p.user_properties user_properties_part
            ++ (optional p.subscription_identifier identifiers_part ++ content_part))
          ++ rest)
      → pos
          + length (
              optional p.user_properties user_properties_part
              ++ (optional p.subscription_identifier identifiers_part ++ content_part))
        ≡ end_pos
      → G buf end_pos pos
          (record p { user_properties = none; subscription_identifier = none; content_type = none })
          (ok (p, end_pos))
  last_fields rest pos h e =
      let s5 = record p {
        user_properties = none;
        subscription_identifier = none;
        content_type = none;
      } in
      let s6 = record s5 { user_properties = p.user_properties } in
      let s7 = record s6 { subscription_identifier = p.subscription_identifier } in
      peel buf end_pos p.user_properties _ (with_users buf end_pos s5) _ rest pos _
        (users-ReadsBack s5) h e
        (λ pos6 h6 e6.
          peel buf end_pos p.subscription_identifier _ (with_identifiers buf end_pos s6) _ rest pos6
            _ (identifiers-ReadsBack s6) h6 e6
            (λ pos7 h7 e7.
              peel buf end_pos p.content_type (λ c. 0x03 ∷ cast_text c)
                (λ v. record s7 { content_type = v }) [] rest pos7 _
                (λ c given. content-ReadsBack buf end_pos s7 c (well.content c given))
                (rw append-nil h7) (rw append-nil e7)
                (λ pos8 h8 e8.
                  Gives-end (property_arm buf) buf end_pos pos8 p (omega (arith, e8)))))

-- What `build_bytes` writes of properties that can be read, wherever it stands in a buffer, is read back by
-- the property loop into fresh properties, up to the position behind it: each value in its range and each
-- string valid and short enough, and no list of user properties or identifiers empty.
pub property_block-build_bytes :
    {buf : Bytes} {pos : ℕ} (p : PublishProperties) (rest : Bytes)
    → IsReadable p
    → At buf pos (build_bytes p ++ rest)
    → property_block (property_arm buf) buf (length (build_bytes p)) pos default_properties
      ≡ ok (p, pos + length (build_bytes p))
unfolding build_bytes
property_block-build_bytes {buf} {pos} p rest well h =
    let end = pos + length (build_bytes p) in
    let r : Outcome (PublishProperties × ℕ) = ok (p, end) in
    let s1 = record default_properties { payload_format_indicator = p.payload_format_indicator } in
    let s2 = record s1 { message_expiry_interval = p.message_expiry_interval } in
    let s3 = record s2 { topic_alias = p.topic_alias } in
    let s4 = record s3 { response_topic = p.response_topic } in
    Gives-block (property_arm buf) buf end pos (length (build_bytes p)) default_properties r refl (
      peel buf end p.payload_format_indicator _
        (λ v. record default_properties { payload_format_indicator = v }) _ rest pos r
        (λ c e. indicator-ReadsBack buf end default_properties c) h refl
        (λ pos1 h1 e1.
          peel buf end p.message_expiry_interval _ (λ v. record s1 { message_expiry_interval = v })
            _ rest pos1 r (λ c e. expiry-ReadsBack buf end s1 c) h1 e1
            (λ pos2 h2 e2.
              peel buf end p.topic_alias _ (λ v. record s2 { topic_alias = v }) _ rest pos2 r
                (λ c e. alias-ReadsBack buf end s2 c (well.alias_given c e)) h2 e2
                (λ pos3 h3 e3.
                  peel buf end p.response_topic _ (λ v. record s3 { response_topic = v }) _ rest
                    pos3 r (λ c e. response-ReadsBack buf end s3 c (well.response c e)) h3 e3
                    (λ pos4 h4 e4.
                      peel buf end p.correlation_data _ (λ v. record s4 { correlation_data = v }) _
                        rest pos4 r
                        (λ c e. correlation-ReadsBack buf end s4 c (well.correlation c e)) h4 e4
                        (λ pos5 h5 e5. last_fields buf end p well rest pos5 h5 e5))))))
