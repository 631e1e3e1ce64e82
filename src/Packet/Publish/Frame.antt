-- ===== src/Packet/Publish/Frame.antt =====
-- The frame of an encoded `Publish`: its header and its payload together.
use aqua.Base.{◌≡◌, ◌++◌, some, length, arith, length-append, append_assoc}
use aqua.Outcome.{ok, >>=-eq-ok}
use aqua.Bytes.{Bytes}
use aqua.Wire.{encode_variable_bytes}
use aqua.Packet.{frame, IsFramed}
use aqua.Packet.Publish.{Publish, first_byte, variable_header, encode_header, encode_payload_chunk}

-- The remaining length that the header of a `Publish` announces counts the rest of the header and the
-- payload, if `payload_length` is the length of the payload.
pub publish_encode-IsFramed :
    (p : Publish) (out payload : Bytes)
    → length p.payload_data ≡ p.payload_length
    → encode_header p ≡ ok out
    → encode_payload_chunk p ≡ ok (some payload)
    → IsFramed (first_byte p) (out ++ payload)
unfolding encode_header encode_payload_chunk frame
publish_encode-IsFramed p out payload fits h k =
    let (front, e, h') = >>=-eq-ok (variable_header p) _ h in
    (
      front ++ p.payload_data,
      ground (
        arith,
        h',
        k,
        fits,
        length-append front p.payload_data,
        append_assoc (encode_variable_bytes (length (front ++ p.payload_data))) front
            p.payload_data,
      ),
    )
