-- ===== src/Packet/V2/Header.antt =====
-- The header of encode_v2 on the wire, and what decode_v2 makes of it, on hosts of any byte order.
use hakoniwa_pdu_endpoint.Prelude.{
  ℕ, ◌+◌, ◌^◌, ◌<◌, ◌≡◌, refl, arith, ◌∷◌, ◌++◌, length, StdString, length-append, take-append,
  drop-append, append_assoc,
}
use hakoniwa_pdu_endpoint.Packet.Wire.{Endian, little, big, octet, u32, load16, mem16, mem32, mem64}
use hakoniwa_pdu_endpoint.Packet.Wire.Laws.{
  mem16-to_le16, mem32-to_le32, mem64-to_le64, from_le16-load16, from_le32-load32, from_le64-load64,
}
use hakoniwa_pdu_endpoint.Packet.Meta.{
  MetaPdu, DataPacket, MetaRequestType, pdu_data_type, request_code, memory, hako_meta_magic,
  hako_meta_ver_v2,
}
use hakoniwa_pdu_endpoint.Packet.V2.{meta_to_send, load_meta, from_wire}

-- Every field fits its width, and `reserved`, which is sent as it is, holds the 0 of the constructors.
pub record IsMeta (m : MetaPdu) : Type 0 where
  pub name_size : length m.robot_name ≡ 128
  pub magicno_fits : m.magicno < 2 ^ 32
  pub version_fits : m.version < 2 ^ 16
  pub reserved_zero : m.reserved ≡ 0
  pub flags_fits : m.flags < 2 ^ 32
  pub type_fits : m.meta_request_type < 2 ^ 32
  pub total_fits : m.total_len < 2 ^ 32
  pub body_fits : m.body_len < 2 ^ 32
  pub hako_fits : m.hako_time_us < 2 ^ 64
  pub asset_fits : m.asset_time_us < 2 ^ 64
  pub real_fits : m.real_time_us < 2 ^ 64
  pub channel_fits : m.channel_id < 2 ^ 32
  pub padding_size : length m.padding ≡ 124

-- The header as the receiver is to see it.
unfoldable pub sent : DataPacket → MetaRequestType → MetaPdu
sent p request_type = record p.meta {
  magicno = hako_meta_magic;
  version = hako_meta_ver_v2;
  flags = 0;
  meta_request_type = request_code request_type;
  body_len = u32 (length p.body);
  total_len = u32 (172 + u32 (length p.body));
}

-- The bytes of a header on the wire.
abbrev pub wire : MetaPdu → StdString
wire m = memory little m

request_code_fits : (t : MetaRequestType) → request_code t < 2 ^ 32
request_code_fits pdu_data_type = omega arith
request_code_fits _ = omega arith

pub sent-IsMeta : (p : DataPacket) (t : MetaRequestType) → IsMeta p.meta → IsMeta (sent p t)
unfolding sent
sent-IsMeta p t w = record {
  name_size = w.name_size;
  magicno_fits = omega arith;
  version_fits = omega arith;
  reserved_zero = w.reserved_zero;
  flags_fits = omega arith;
  type_fits = request_code_fits t;
  total_fits = omega arith;
  body_fits = omega arith;
  hako_fits = w.hako_fits;
  asset_fits = w.asset_fits;
  real_fits = w.real_fits;
  channel_fits = w.channel_fits;
  padding_size = w.padding_size;
}

reserved_wire : (e : Endian) (n : ℕ) → n ≡ 0 → mem16 e n ≡ mem16 little n
unfolding mem16
reserved_wire little n h = refl
reserved_wire big n h = rw h

-- If the header is well formed, what goes out is `wire` of it, whatever the sender's byte order.
pub memory-meta_to_send :
    (e : Endian) (p : DataPacket) (t : MetaRequestType)
    → IsMeta p.meta
    → memory e (meta_to_send e p t) ≡ wire (sent p t)
unfolding memory meta_to_send sent
memory-meta_to_send e p t w = cc (
  mem32-to_le32 e hako_meta_magic (omega arith),
  mem16-to_le16 e hako_meta_ver_v2 (omega arith),
  reserved_wire e p.meta.reserved w.reserved_zero,
  mem32-to_le32 e 0 (omega arith),
  mem32-to_le32 e (request_code t) (request_code_fits t),
  mem32-to_le32 e (u32 (length p.body)) (omega arith),
  mem32-to_le32 e (u32 (172 + u32 (length p.body))) (omega arith),
  mem64-to_le64 e p.meta.hako_time_us w.hako_fits,
  mem64-to_le64 e p.meta.asset_time_us w.asset_fits,
  mem64-to_le64 e p.meta.real_time_us w.real_fits,
  mem32-to_le32 e p.meta.channel_id w.channel_fits,
)

load_reserved :
    (e : Endian) (n : ℕ) (rest : StdString) → n ≡ 0 → load16 e (octet n 0 ∷ octet n 1 ∷ rest) ≡ n
unfolding load16
load_reserved little n rest h = omega arith
load_reserved big n rest h = omega arith

-- Headers with equal fields are equal.
meta_path :
    (m n : MetaPdu)
    → m.robot_name ≡ n.robot_name
    → m.magicno ≡ n.magicno
    → m.version ≡ n.version
    → m.reserved ≡ n.reserved
    → m.flags ≡ n.flags
    → m.meta_request_type ≡ n.meta_request_type
    → m.total_len ≡ n.total_len
    → m.body_len ≡ n.body_len
    → m.hako_time_us ≡ n.hako_time_us
    → m.asset_time_us ≡ n.asset_time_us
    → m.real_time_us ≡ n.real_time_us
    → m.channel_id ≡ n.channel_id
    → m.padding ≡ n.padding
    → m ≡ n
meta_path m n p0 p1 p2 p3 p4 p5 p6 p7 p8 p9 p10 p11 p12 = λ i. record {
  robot_name = p0 i;
  magicno = p1 i;
  version = p2 i;
  reserved = p3 i;
  flags = p4 i;
  meta_request_type = p5 i;
  total_len = p6 i;
  body_len = p7 i;
  hako_time_us = p8 i;
  asset_time_us = p9 i;
  real_time_us = p10 i;
  channel_id = p11 i;
  padding = p12 i;
}

pub from_wire-load_meta :
    (e : Endian) (m : MetaPdu) (body : StdString)
    → IsMeta m
    → from_wire e (load_meta e (wire m ++ body)) ≡ m
unfolding from_wire load_meta memory mem16 mem32 mem64
from_wire-load_meta e m body w =
    rw
      (
        append_assoc,
        take-append 128 m.robot_name _ w.name_size,
        drop-append 128 m.robot_name _ w.name_size,
      )
      (meta_path _ m refl (from_le32-load32 e m.magicno _ w.magicno_fits)
        (from_le16-load16 e m.version _ w.version_fits)
        (load_reserved e m.reserved _ w.reserved_zero) (from_le32-load32 e m.flags _ w.flags_fits)
        (from_le32-load32 e m.meta_request_type _ w.type_fits)
        (from_le32-load32 e m.total_len _ w.total_fits)
        (from_le32-load32 e m.body_len _ w.body_fits)
        (from_le64-load64 e m.hako_time_us _ w.hako_fits)
        (from_le64-load64 e m.asset_time_us _ w.asset_fits)
        (from_le64-load64 e m.real_time_us _ w.real_fits)
        (from_le32-load32 e m.channel_id _ w.channel_fits)
        (take-append 124 m.padding body w.padding_size))

pub length-wire : (m : MetaPdu) → IsMeta m → length (wire m) ≡ 304
unfolding memory mem16 mem32 mem64
length-wire m w = rw length-append (omega arith)
