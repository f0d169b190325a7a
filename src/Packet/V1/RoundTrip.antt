-- ===== src/Packet/V1/RoundTrip.antt =====
-- decode_v1 on what encode_v1 writes, and on other input.
use hakoniwa_pdu_endpoint.Prelude.{
  ℕ, ◌+◌, ◌-◌, ◌^◌, ◌≤◌, ◌<◌, ◌≡◌, refl, sym, ap, ◌∙◌, arith, none, some, [], ◌++◌, length, take,
  drop, StdString, append_assoc, append-nil, length-append, length-take, take-append, ltb-false,
}
use hakoniwa_pdu_endpoint.Packet.Wire.{Endian, write_le32, read_le32, u32, octet}
use hakoniwa_pdu_endpoint.Packet.Wire.Laws.{write_le32-le32, read_le32_sum}
use hakoniwa_pdu_endpoint.Packet.Meta.{data_packet, c_string}
use hakoniwa_pdu_endpoint.Packet.Name.{
  get_robot_name-data_packet, channel_id-data_packet, body-data_packet, data_packet-take-c_string,
}
use hakoniwa_pdu_endpoint.Packet.V1.{encode_v1, decode_v1}
use hakoniwa_pdu_endpoint.Packet.V1.Layout.{layout, encode_v1-layout, drop-past, length-write_le32}

pub read_le32-write_le32 :
    (v : ℕ) (rest : StdString) → v < 2 ^ 32 → read_le32 (write_le32 v ++ rest) ≡ v
read_le32-write_le32 v rest h = rw (write_le32-le32 v) (
    read_le32_sum (octet v 0) (octet v 1) (octet v 2) (octet v 3) rest (omega arith) (omega arith)
      (omega arith) (omega arith)
    ∙ omega arith)

drop-write_le32 : (v : ℕ) (rest : StdString) → drop 4 (write_le32 v ++ rest) ≡ rest
unfolding write_le32
drop-write_le32 v rest = refl

-- What the tests of decode_v1 amount to.
pub accept_v1 :
    (bytes : StdString) (header_len name_len : ℕ)
    → header_len ≡ read_le32 bytes
    → name_len ≡ read_le32 (drop 4 bytes)
    → 12 + name_len ≤ length bytes
    → u32 (4 + header_len) ≤ length bytes
    → u32 (4 + name_len + 4) ≤ header_len
    → decode_v1 bytes
      ≡ some (
          data_packet
            (take name_len (drop 8 bytes))
            (read_le32 (drop (8 + name_len) bytes))
            (drop (12 + name_len) bytes))
unfolding decode_v1
accept_v1 bytes header_len name_len hh hn size fits inner = rw (
  ← hh,
  ← hn,
  ltb-false (length bytes) 4 (omega arith),
  ltb-false (length bytes) (u32 (4 + header_len)) fits,
  ltb-false (length bytes) 8 (omega arith),
  ltb-false (length bytes) (8 + name_len + 4) (omega arith),
  ltb-false header_len (u32 (4 + name_len + 4)) inner,
)

drop_lengths : (h l : ℕ) (rest : StdString) → drop 8 (write_le32 h ++ (write_le32 l ++ rest)) ≡ rest
unfolding write_le32
drop_lengths h l rest = refl

behind_name :
    (h l : ℕ) (name rest : StdString) (j k : ℕ)
    → k ≡ 8 + length name + j
    → drop k (write_le32 h ++ (write_le32 l ++ (name ++ rest))) ≡ drop j rest
behind_name h l name rest j k e =
    rw
      (
        ← append_assoc (write_le32 l) name rest,
        ← append_assoc (write_le32 h) (write_le32 l ++ name) rest,
      )
      (drop-past (write_le32 h ++ (write_le32 l ++ name)) rest j k (
        omega (
          arith,
          length-append (write_le32 h) (write_le32 l ++ name),
          length-append (write_le32 l) name,
          length-write_le32 h,
          length-write_le32 l,
        )))

-- The parts of a v1 packet whose first length is `h` are taken as they stand.
pub decode_parts :
    (name : StdString) (channel_id : ℕ) (tail : StdString) (h : ℕ)
    → channel_id < 2 ^ 32
    → h < 2 ^ 32
    → u32 (4 + h) ≤ 12 + length name + length tail
    → length name < 2 ^ 32 - 8
    → 8 + length name ≤ h
    → length name < 2 ^ 32
    → decode_v1
        (write_le32 h ++ (write_le32 (length name) ++ (name ++ (write_le32 channel_id ++ tail))))
      ≡ some (data_packet name channel_id tail)
decode_parts name channel_id tail h hc hh fits small inner hl =
    let l = length name in
    let rest = write_le32 channel_id ++ tail in
    let bytes = write_le32 h ++ (write_le32 l ++ (name ++ rest)) in
    accept_v1 bytes h l (sym (read_le32-write_le32 h (write_le32 l ++ (name ++ rest)) hh))
      (rw (drop-write_le32 h (write_le32 l ++ (name ++ rest)))
        (sym (read_le32-write_le32 l (name ++ rest) hl)))
      (omega (arith, size)) (omega (arith, size)) (omega arith)
    ∙ rw (
      drop_lengths h l (name ++ rest),
      take-append l name rest refl,
      behind_name h l name rest 0 (8 + l) (omega arith),
      behind_name h l name rest 4 (12 + l) (omega arith),
      drop-write_le32 channel_id tail,
      read_le32-write_le32 channel_id tail hc,
    )
  where
    size :
        length
          (write_le32 h ++ (write_le32 (length name) ++ (name ++ (write_le32 channel_id ++ tail))))
        ≡ 12 + length name + length tail
    size = omega (
      arith,
      length-append (write_le32 h)
          (write_le32 (length name) ++ (name ++ (write_le32 channel_id ++ tail))),
      length-append (write_le32 (length name)) (name ++ (write_le32 channel_id ++ tail)),
      length-append name (write_le32 channel_id ++ tail),
      length-append (write_le32 channel_id) tail,
      length-write_le32 h,
      length-write_le32 (length name),
      length-write_le32 channel_id,
    )

-- A packet in the v1 layout whose sizes and channel fit 32 bits is read back; bytes behind it join its
-- body.
pub decode_v1-layout :
    (name : StdString) (channel_id : ℕ) (body more : StdString)
    → 12 + length name + length body < 2 ^ 32
    → channel_id < 2 ^ 32
    → decode_v1 (layout name channel_id body ++ more)
      ≡ some (data_packet name channel_id (body ++ more))
unfolding layout
decode_v1-layout name channel_id body more h hc = rw flat (
    decode_parts name channel_id (body ++ more) (8 + length name + length body) hc (omega arith)
      (omega (arith, length-append body more)) (omega arith) (omega arith) (omega arith))
  where
    flat :
        layout name channel_id body ++ more
        ≡ write_le32 (8 + length name + length body)
          ++ (write_le32 (length name) ++ (name ++ (write_le32 channel_id ++ (body ++ more))))
    flat = simp append_assoc

encode_v1-data_packet :
    (e : Endian) (name : StdString) (channel_id : ℕ) (body : StdString)
    → channel_id < 2 ^ 32
    → length body < 2 ^ 32 - 139
    → encode_v1 e (data_packet name channel_id body)
      ≡ layout (take 127 (c_string name)) channel_id body
encode_v1-data_packet e name channel_id body hc hb =
    encode_v1-layout e (data_packet name channel_id body) (
      rw (get_robot_name-data_packet e name channel_id body, body-data_packet name channel_id body)
        (omega (arith, length-take 127 (c_string name))))
    ∙ rw (
      get_robot_name-data_packet e name channel_id body,
      channel_id-data_packet name channel_id body hc,
      body-data_packet name channel_id body,
    )

-- A packet that was made from a name, a channel of 32 bits and a body below 2 ^ 32 - 139 bytes comes
-- back as it was made.
pub decode_v1-encode_v1 :
    (e : Endian) (name : StdString) (channel_id : ℕ) (body : StdString)
    → channel_id < 2 ^ 32
    → length body < 2 ^ 32 - 139
    → decode_v1 (encode_v1 e (data_packet name channel_id body))
      ≡ some (data_packet name channel_id body)
decode_v1-encode_v1 e name channel_id body hc hb =
    let short = take 127 (c_string name) in
    ap decode_v1 (
      encode_v1-data_packet e name channel_id body hc hb
      ∙ sym (append-nil (layout short channel_id body)))
    ∙ decode_v1-layout short channel_id body [] (omega (arith, length-take 127 (c_string name))) hc
    ∙ ap some (
        ap (data_packet short channel_id) (append-nil body)
        ∙ data_packet-take-c_string name channel_id body)

-- A packet that is shorter than its first length says is refused, if that length does not wrap.
pub decode_v1_short :
    (bytes : StdString)
    → read_le32 bytes < 2 ^ 32 - 4
    → length bytes < 4 + read_le32 bytes
    → decode_v1 bytes ≡ none
unfolding decode_v1
decode_v1_short bytes h short = ground arith

-- The sum `4 + header_len` is a uint32_t: a first length within 4 of 2 ^ 32 passes for any input, and
-- the packet is accepted although it holds far less than it announces (its name below 2 ^ 32 - 16 bytes,
-- its body below 2 ^ 31).
pub decode_v1_wrap :
    (name : StdString) (channel_id : ℕ) (body : StdString) (header_len : ℕ)
    → channel_id < 2 ^ 32
    → length name < 2 ^ 32 - 16
    → length body < 2 ^ 31
    → 2 ^ 32 - 4 ≤ header_len
    → header_len < 2 ^ 32
    → decode_v1 (
        write_le32 header_len
        ++ (write_le32 (length name) ++ (name ++ (write_le32 channel_id ++ body))))
      ≡ some (data_packet name channel_id body)
decode_v1_wrap name channel_id body header_len hc hn hb lo hi =
    decode_parts name channel_id body header_len hc hi (omega arith) (omega arith) (omega arith)
      (omega arith)
