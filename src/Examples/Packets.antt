-- ===== src/Examples/Packets.antt =====
-- Packets at concrete inputs.
use hakoniwa_pdu_endpoint.Prelude.{
  ◌+◌, ◌-◌, ◌^◌, ◌<◌, ◌≡◌, refl, arith, ℕ, zero, suc, true, none, some, [], ◌∷◌, ◌++◌,
  if◌then◌else◌, length, replicate, codes, leb, ◌&&◌, StdString,
}
use hakoniwa_pdu_endpoint.Packet.Wire.{little, big, read_le32, write_le32}
use hakoniwa_pdu_endpoint.Packet.Meta.{
  DataPacket, data_packet, get_robot_name, c_string, pdu_data_type, memory, is_control,
  hako_meta_magic, hako_meta_ver_v2, zero_meta, strncpy_terminated, set_robot_name,
}
use hakoniwa_pdu_endpoint.Packet.Name.{IsPlain, data_packet-IsMeta, get_robot_name_overrun}
use hakoniwa_pdu_endpoint.Packet.V1.{encode_v1, decode_v1}
use hakoniwa_pdu_endpoint.Packet.V1.Layout.{layout}
use hakoniwa_pdu_endpoint.Packet.V1.RoundTrip.{
  decode_v1-layout, decode_v1-encode_v1, decode_v1_wrap,
}
use hakoniwa_pdu_endpoint.Packet.V2.{encode_v2, decode_v2}
use hakoniwa_pdu_endpoint.Packet.V2.Header.{sent}
use hakoniwa_pdu_endpoint.Packet.V2.RoundTrip.{decode_v2-encode_v2}
use hakoniwa_pdu_endpoint.CommRaw.{PduCommRaw, send, on_raw_data_received}
use hakoniwa_pdu_endpoint.CommRaw.Delivery.{
  IsSendable, on_raw_data_received-send_v2, on_raw_data_received-send_v1,
}
use hakoniwa_pdu_endpoint.Examples.Documents.{key}

abbrev v2_comm : PduCommRaw
v2_comm = record { packet_version = codes "v2"; has_callback = true }

abbrev v1_comm : PduCommRaw
v1_comm = record { packet_version = codes "v1"; has_callback = true }

key-IsSendable : IsSendable key
key-IsSendable = record {
  plain = ground arith;
  name_fits = omega arith;
  channel_fits = omega arith;
}

on_raw_data_received-send_v2_example :
    on_raw_data_received big v2_comm (send little v2_comm key (1 ∷ 2 ∷ [])) ≡ some (key, 1 ∷ 2 ∷ [])
on_raw_data_received-send_v2_example =
    on_raw_data_received-send_v2 little big v2_comm v2_comm key (1 ∷ 2 ∷ []) key-IsSendable
      (omega arith) refl refl refl

on_raw_data_received-send_v1_example :
    on_raw_data_received big v1_comm (send little v1_comm key (1 ∷ 2 ∷ 3 ∷ 4 ∷ [])) ≡ (
      if leb 4 4 && is_control (read_le32 (1 ∷ 2 ∷ 3 ∷ 4 ∷ []))
      then none
      else some (key, 1 ∷ 2 ∷ 3 ∷ 4 ∷ []))
on_raw_data_received-send_v1_example =
    on_raw_data_received-send_v1 little big v1_comm v1_comm key (1 ∷ 2 ∷ 3 ∷ 4 ∷ []) key-IsSendable
      (omega arith) refl refl refl

abbrev packet : DataPacket
packet = data_packet (codes "Drone") 3 (1 ∷ 2 ∷ [])

short_body : length packet.body ≡ 2
unfolding data_packet
short_body = refl

decode_v2-encode_v2_example :
    decode_v2 big (encode_v2 little packet pdu_data_type ++ (9 ∷ []))
    ≡ some (record { meta = sent packet pdu_data_type; body = packet.body })
decode_v2-encode_v2_example =
    decode_v2-encode_v2 little big packet pdu_data_type (9 ∷ [])
      (data_packet-IsMeta (codes "Drone") 3 (1 ∷ 2 ∷ [])) (omega (arith, short_body))

decode_v1-encode_v1_example : decode_v1 (encode_v1 big packet) ≡ some packet
decode_v1-encode_v1_example =
    decode_v1-encode_v1 big (codes "Drone") 3 (1 ∷ 2 ∷ []) (omega arith) (omega arith)

packet_fits : 12 + length (get_robot_name little packet) + length packet.body < 2 ^ 32
unfolding get_robot_name data_packet set_robot_name strncpy_terminated zero_meta c_string memory
packet_fits = omega arith

decode_v1-layout_example :
    decode_v1 (layout (codes "a") 3 (1 ∷ []) ++ (7 ∷ []))
    ≡ some (data_packet (codes "a") 3 ((1 ∷ []) ++ (7 ∷ [])))
decode_v1-layout_example =
    decode_v1-layout (codes "a") 3 (1 ∷ []) (7 ∷ []) (omega arith) (omega arith)

abbrev truncated : StdString
truncated = 9 ∷ 0 ∷ 0 ∷ 0 ∷ 1 ∷ 0 ∷ 0 ∷ 0 ∷ []

announced : read_le32 truncated ≡ 9
unfolding read_le32
announced = refl

decode_v1_wrap_example :
    decode_v1
      (write_le32 (2 ^ 32 - 1) ++ (write_le32 1 ++ (codes "a" ++ (write_le32 3 ++ (5 ∷ [])))))
    ≡ some (data_packet (codes "a") 3 (5 ∷ []))
decode_v1_wrap_example =
    decode_v1_wrap (codes "a") 3 (5 ∷ []) (2 ^ 32 - 1) (omega arith) (omega arith) (omega arith)
      (omega arith) (omega arith)

-- A header whose name field is full.
abbrev full_name : DataPacket
full_name = record {
  meta = record zero_meta {
    robot_name = replicate 128 65;
    magicno = hako_meta_magic;
    version = hako_meta_ver_v2;
  };
  body = [];
}

replicate-IsPlain : (n : ℕ) → IsPlain (replicate n 65)
replicate-IsPlain zero = tt
replicate-IsPlain (suc n) = ((λ h. omega (arith, h)), replicate-IsPlain n)

get_robot_name_overrun_example :
    get_robot_name little full_name ≡ replicate 128 65 ++ (0x4F ∷ 0x4B ∷ 0x41 ∷ 0x48 ∷ 0x02 ∷ [])
get_robot_name_overrun_example = get_robot_name_overrun full_name (replicate-IsPlain 128) refl refl
