-- ===== src/CommRaw/Delivery.antt =====
-- A PDU that one PduCommRaw sends arrives at the callback of another.
use hakoniwa_pdu_endpoint.Prelude.{
  ℕ, ◌-◌, ◌^◌, ◌<◌, ◌≡◌, refl, sym, ap, ◌∙◌, arith, true, false, not, Bool, none, some, [],
  if◌then◌else◌, length, take, append-nil, StdString, take-all, codes, leb, ltb, ◌&&◌,
}
use hakoniwa_pdu_endpoint.Types.{PduResolvedKey}
use hakoniwa_pdu_endpoint.Cache.Span.{Bytes}
use hakoniwa_pdu_endpoint.Packet.Wire.{Endian, read_le32}
use hakoniwa_pdu_endpoint.Packet.Meta.{
  DataPacket, data_packet, get_robot_name, c_string, is_pdu_data_type, is_control, pdu_data_type,
}
use hakoniwa_pdu_endpoint.Packet.Name.{
  get_robot_name-data_packet, get_robot_name-sent, channel_id-data_packet, body-data_packet,
  data_packet-IsMeta, IsPlain, c_string_plain,
}
use hakoniwa_pdu_endpoint.Packet.V1.RoundTrip.{decode_v1-encode_v1}
use hakoniwa_pdu_endpoint.Packet.V2.Header.{sent}
use hakoniwa_pdu_endpoint.Packet.V1.{encode_v1, decode_v1}
use hakoniwa_pdu_endpoint.Packet.V2.{encode_v2, decode_v2}
use hakoniwa_pdu_endpoint.Packet.V2.RoundTrip.{decode_v2-encode_v2}
use hakoniwa_pdu_endpoint.Packet.Codec.{encode, decode}
use hakoniwa_pdu_endpoint.CommRaw.{PduCommRaw, send, deliver, on_raw_data_received}

-- A key that the header can carry: the name without NUL and at most 127 bytes, 32 bits of channel.
pub record IsSendable (k : PduResolvedKey) : Type 0 where
  pub plain : IsPlain k.robot
  pub name_fits : length k.robot < 128
  pub channel_fits : k.channel_id < 2 ^ 32

-- The key that the receiver reads from a header.
pub key_back : (k : PduResolvedKey) → IsSendable k → take 127 (c_string k.robot) ≡ k.robot
key_back k s =
    rw (c_string_plain k.robot s.plain) (take-all 127 k.robot (omega (arith, s.name_fits)))

key_path :
    (k : PduResolvedKey) (robot : StdString) (channel_id : ℕ)
    → robot ≡ k.robot
    → channel_id ≡ k.channel_id
    → ◌≡◌ {A = PduResolvedKey} (record { robot = robot; channel_id = channel_id }) k
key_path k robot channel_id p q = λ i. record { robot = p i; channel_id = q i }

received :
    (e : Endian) (d : PduCommRaw) (raw : Bytes) (p : DataPacket)
    → decode e raw d.packet_version ≡ some p
    → on_raw_data_received e d raw ≡ deliver e d p
unfolding on_raw_data_received
received e d raw p h = rw h

as_v2 :
    (e : Endian) (d : PduCommRaw) (raw : Bytes)
    → d.packet_version ≡ codes "v2"
    → decode e raw d.packet_version ≡ decode_v2 e raw
unfolding decode
as_v2 e d raw v = rw v

as_v1 :
    (e : Endian) (d : PduCommRaw) (raw : Bytes)
    → d.packet_version ≡ codes "v1"
    → decode e raw d.packet_version ≡ decode_v1 raw
unfolding decode
as_v1 e d raw v = rw v

pub sent_v2 :
    (e : Endian) (c : PduCommRaw) (k : PduResolvedKey) (bytes : Bytes)
    → c.packet_version ≡ codes "v2"
    → send e c k bytes ≡ encode_v2 e (data_packet k.robot k.channel_id bytes) pdu_data_type
unfolding send encode
sent_v2 e c k bytes v = rw v

pub sent_v1 :
    (e : Endian) (c : PduCommRaw) (k : PduResolvedKey) (bytes : Bytes)
    → c.packet_version ≡ codes "v1"
    → send e c k bytes ≡ encode_v1 e (data_packet k.robot k.channel_id bytes)
unfolding send encode
sent_v1 e c k bytes v = rw v

-- What the receiver makes of the header.
delivered :
    (e : Endian) (d : PduCommRaw) (p : DataPacket) (k : PduResolvedKey)
    → is_pdu_data_type d.packet_version p ≡ true
    → d.has_callback ≡ true
    → get_robot_name e p ≡ k.robot
    → p.meta.channel_id ≡ k.channel_id
    → deliver e d p ≡ some (k, p.body)
unfolding deliver
delivered e d p k t cb hn hc =
    simp (t, cb) (ap (λ (j : PduResolvedKey). some (j, p.body)) (key_path k _ _ hn hc))

-- With v2 at both ends, of any byte orders, a callback set, a sendable key and fewer than 2 ^ 32 bytes,
-- the callback gets the key and the bytes that were sent.
pub on_raw_data_received-send_v2 :
    (e e' : Endian) (c d : PduCommRaw) (k : PduResolvedKey) (bytes : Bytes)
    → IsSendable k
    → length bytes < 2 ^ 32
    → c.packet_version ≡ codes "v2"
    → d.packet_version ≡ codes "v2"
    → d.has_callback ≡ true
    → on_raw_data_received e' d (send e c k bytes) ≡ some (k, bytes)
on_raw_data_received-send_v2 e e' c d k bytes s h vc vd cb =
    let p = data_packet k.robot k.channel_id bytes in
    received e' d (send e c k bytes) (record { meta = sent p pdu_data_type; body = p.body })
      (ap (λ (raw : Bytes). decode e' raw d.packet_version)
          (sent_v2 e c k bytes vc ∙ sym (append-nil (encode_v2 e p pdu_data_type)))
        ∙ as_v2 e' d _ vd
        ∙ decode_v2-encode_v2 e e' p pdu_data_type []
            (data_packet-IsMeta k.robot k.channel_id bytes) h')
    ∙ delivered e' d (record { meta = sent p pdu_data_type; body = p.body }) k data_type cb
        (get_robot_name-sent e' k.robot k.channel_id bytes p.body pdu_data_type ∙ key_back k s)
        channel
    ∙ ap (λ (b : Bytes). some (k, b)) (body-data_packet k.robot k.channel_id bytes)
  where
    h' : length (data_packet k.robot k.channel_id bytes).body < 2 ^ 32
    h' = rw (body-data_packet k.robot k.channel_id bytes) h

    data_type :
        is_pdu_data_type d.packet_version (record {
          meta = sent (data_packet k.robot k.channel_id bytes) pdu_data_type;
          body = (data_packet k.robot k.channel_id bytes).body;
        })
        ≡ true
    data_type = rw vd (unfold is_pdu_data_type sent in refl)

    channel :
        (sent (data_packet k.robot k.channel_id bytes) pdu_data_type).channel_id ≡ k.channel_id
    channel = unfold sent in (channel_id-data_packet k.robot k.channel_id bytes s.channel_fits)

data_type_v1 :
    (d : PduCommRaw) (p : DataPacket) (bytes : Bytes)
    → d.packet_version ≡ codes "v1"
    → p.body ≡ bytes
    → is_pdu_data_type d.packet_version p
      ≡ not (leb 4 (length bytes) && is_control (read_le32 bytes))
unfolding is_pdu_data_type
data_type_v1 d p bytes v b = simp (v, b) (shortness (length bytes) (is_control (read_le32 bytes)))
  where
    shortness : (n : ℕ) (t : Bool) → (if ltb n 4 then true else not t) ≡ not (leb 4 n && t)
    shortness n t = ground arith

delivered_if :
    (e : Endian) (d : PduCommRaw) (p : DataPacket) (k : PduResolvedKey) (t : Bool)
    → is_pdu_data_type d.packet_version p ≡ not t
    → d.has_callback ≡ true
    → get_robot_name e p ≡ k.robot
    → p.meta.channel_id ≡ k.channel_id
    → deliver e d p ≡ (if t then none else some (k, p.body))
unfolding deliver
delivered_if e d p k true h cb hn hc = simp (h, cb)
delivered_if e d p k false h cb hn hc = delivered e d p k h cb hn hc

-- With v1 at both ends, a callback set, a sendable key and fewer than 2 ^ 32 - 139 bytes, the callback gets
-- the key and the bytes, unless these begin with one of the control codes: then nothing is called.
pub on_raw_data_received-send_v1 :
    (e e' : Endian) (c d : PduCommRaw) (k : PduResolvedKey) (bytes : Bytes)
    → IsSendable k
    → length bytes < 2 ^ 32 - 139
    → c.packet_version ≡ codes "v1"
    → d.packet_version ≡ codes "v1"
    → d.has_callback ≡ true
    → on_raw_data_received e' d (send e c k bytes)
      ≡ (if leb 4 (length bytes) && is_control (read_le32 bytes) then none else some (k, bytes))
on_raw_data_received-send_v1 e e' c d k bytes s h vc vd cb =
    let p = data_packet k.robot k.channel_id bytes in
    received e' d (send e c k bytes) p (
      ap (λ (raw : Bytes). decode e' raw d.packet_version) (sent_v1 e c k bytes vc)
      ∙ as_v1 e' d (encode_v1 e p) vd
      ∙ decode_v1-encode_v1 e k.robot k.channel_id bytes s.channel_fits h)
    ∙ delivered_if e' d p k _
        (data_type_v1 d p bytes vd (body-data_packet k.robot k.channel_id bytes)) cb
        (get_robot_name-data_packet e' k.robot k.channel_id bytes ∙ key_back k s)
        (channel_id-data_packet k.robot k.channel_id bytes s.channel_fits)
    ∙ ap
        (λ (b : Bytes).
          if leb 4 (length bytes) && is_control (read_le32 bytes) then none else some (k, b))
        (body-data_packet k.robot k.channel_id bytes)
