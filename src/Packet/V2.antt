-- ===== src/Packet/V2.antt =====
-- encode_v2 and decode_v2 of packet.hpp: the header of 304 bytes, then the body.
pub mod Header
pub mod RoundTrip
use hakoniwa_pdu_endpoint.Prelude.{
  ℕ, ◌+◌, ◌-◌, Bool, true, not, ◌||◌, Option, none, some, List, [], ◌++◌, if◌then◌else◌, ltb,
  nat_eq, length, take, drop, StdString,
}
use hakoniwa_pdu_endpoint.Packet.Wire.{
  Endian, to_le16, to_le32, to_le64, from_le16, from_le32, from_le64, load16, load32, load64, u32,
}
use hakoniwa_pdu_endpoint.Packet.Meta.{
  MetaPdu, DataPacket, MetaRequestType, request_code, memory, hako_meta_magic, hako_meta_ver_v2,
  meta_v2_fixed_size, total_pdu_meta_size,
}

-- `meta_to_send`, in the host's byte order but for the swaps.
unfoldable pub meta_to_send : Endian → DataPacket → MetaRequestType → MetaPdu
meta_to_send e p request_type =
    let body_len = u32 (length p.body) in
    record p.meta {
      magicno = to_le32 e hako_meta_magic;
      version = to_le16 e hako_meta_ver_v2;
      flags = to_le32 e 0;
      meta_request_type = to_le32 e (request_code request_type);
      body_len = to_le32 e body_len;
      total_len = to_le32 e (u32 (meta_v2_fixed_size - 4 + body_len));
      hako_time_us = to_le64 e p.meta.hako_time_us;
      asset_time_us = to_le64 e p.meta.asset_time_us;
      real_time_us = to_le64 e p.meta.real_time_us;
      channel_id = to_le32 e p.meta.channel_id;
    }

unfoldable pub encode_v2 : Endian → DataPacket → MetaRequestType → StdString
unfolding meta_to_send
encode_v2 e p request_type = memory e (meta_to_send e p request_type) ++ p.body

-- `memcpy(&meta, data, sizeof(MetaPdu))`: the fields of the packed struct, front to back.
unfoldable pub load_meta : Endian → StdString → MetaPdu
load_meta e data0 =
    let data1 = drop 128 data0 in
    let data2 = drop 4 data1 in
    let data3 = drop 2 data2 in
    let data4 = drop 2 data3 in
    let data5 = drop 4 data4 in
    let data6 = drop 4 data5 in
    let data7 = drop 4 data6 in
    let data8 = drop 4 data7 in
    let data9 = drop 8 data8 in
    let data10 = drop 8 data9 in
    let data11 = drop 8 data10 in
    record {
      robot_name = take 128 data0;
      magicno = load32 e data1;
      version = load16 e data2;
      reserved = load16 e data3;
      flags = load32 e data4;
      meta_request_type = load32 e data5;
      total_len = load32 e data6;
      body_len = load32 e data7;
      hako_time_us = load64 e data8;
      asset_time_us = load64 e data9;
      real_time_us = load64 e data10;
      channel_id = load32 e data11;
      padding = take 124 (drop 4 data11);
    }

-- The header after all `from_le` calls.
unfoldable pub from_wire : Endian → MetaPdu → MetaPdu
from_wire e m = record m {
  magicno = from_le32 e m.magicno;
  version = from_le16 e m.version;
  flags = from_le32 e m.flags;
  meta_request_type = from_le32 e m.meta_request_type;
  total_len = from_le32 e m.total_len;
  body_len = from_le32 e m.body_len;
  hako_time_us = from_le64 e m.hako_time_us;
  asset_time_us = from_le64 e m.asset_time_us;
  real_time_us = from_le64 e m.real_time_us;
  channel_id = from_le32 e m.channel_id;
}

-- The tests on the header, with the size of what follows it; the null pointer is `none`.
unfoldable pub accept_v2 : MetaPdu → ℕ → StdString → Option DataPacket
accept_v2 m actual_body_size rest =
    if not (nat_eq m.magicno hako_meta_magic) || not (nat_eq m.version hako_meta_ver_v2)
    then none
    else if ltb actual_body_size m.body_len
    then none
    else some (record { meta = m; body = take m.body_len rest })

unfoldable pub decode_v2 : Endian → StdString → Option DataPacket
decode_v2 e bytes =
    if ltb (length bytes) total_pdu_meta_size
    then none
    else accept_v2 (from_wire e (load_meta e bytes)) (length bytes - total_pdu_meta_size)
        (drop total_pdu_meta_size bytes)
