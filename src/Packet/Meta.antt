-- ===== src/Packet/Meta.antt =====
-- The header and the packet object of packet.hpp: constants, MetaPdu, DataPacket with its setters
-- and getters. Numbers are bit patterns: `hako_time_us` and so on are those of an int64_t.
use hakoniwa_pdu_endpoint.Prelude.{
  ℕ, ◌+◌, ◌-◌, Bool, true, not, ◌||◌, [], ◌∷◌, ◌++◌, if◌then◌else◌, ltb, nat_eq, length, take,
  replicate, StdString, codes, ◌==◌, str_Eq,
}
use hakoniwa_pdu_endpoint.Packet.Wire.{Endian, mem16, mem32, mem64, read_le32, u32}

abbrev pub hako_meta_magic : ℕ
hako_meta_magic = 0x48414B4F

abbrev pub hako_meta_ver_v2 : ℕ
hako_meta_ver_v2 = 0x0002

abbrev pub meta_v2_fixed_size : ℕ
meta_v2_fixed_size = 176

abbrev pub pdu_meta_data_size : ℕ
pdu_meta_data_size = 128

-- sizeof(MetaPdu)
abbrev pub total_pdu_meta_size : ℕ
total_pdu_meta_size = pdu_meta_data_size + meta_v2_fixed_size

pub data MetaRequestType : Type 0 where
  pdu_data_type declare_pdu_for_read declare_pdu_for_write request_pdu_read : MetaRequestType
  register_rpc_client pdu_data_rpc_request pdu_data_rpc_reply : MetaRequestType

abbrev pub request_code : MetaRequestType → ℕ
request_code pdu_data_type = 0x42555043
request_code declare_pdu_for_read = 0x52455044
request_code declare_pdu_for_write = 0x57505044
request_code request_pdu_read = 0x57505045
request_code register_rpc_client = 0x43505244
request_code pdu_data_rpc_request = 0x43505243
request_code pdu_data_rpc_reply = 0x43505253

pub record MetaPdu : Type 0 where
  pub robot_name : StdString
  pub magicno : ℕ
  pub version : ℕ
  pub reserved : ℕ
  pub flags : ℕ
  pub meta_request_type : ℕ
  pub total_len : ℕ
  pub body_len : ℕ
  pub hako_time_us : ℕ
  pub asset_time_us : ℕ
  pub real_time_us : ℕ
  pub channel_id : ℕ
  pub padding : StdString

-- The packed struct in the memory of the host.
unfoldable pub memory : Endian → MetaPdu → StdString
memory e m =
    m.robot_name
    ++ (mem32 e m.magicno
        ++ (mem16 e m.version
            ++ (mem16 e m.reserved
                ++ (mem32 e m.flags
                    ++ (mem32 e m.meta_request_type
                        ++ (mem32 e m.total_len
                            ++ (mem32 e m.body_len
                                ++ (mem64 e m.hako_time_us
                                    ++ (mem64 e m.asset_time_us
                                        ++ (mem64 e m.real_time_us
                                            ++ (mem32 e m.channel_id ++ m.padding)))))))))))

pub record DataPacket : Type 0 where
  pub meta : MetaPdu
  pub body : StdString

unfoldable pub zero_meta : MetaPdu
zero_meta = record {
  robot_name = replicate 128 0;
  magicno = 0;
  version = 0;
  reserved = 0;
  flags = 0;
  meta_request_type = 0;
  total_len = 0;
  body_len = 0;
  hako_time_us = 0;
  asset_time_us = 0;
  real_time_us = 0;
  channel_id = 0;
  padding = replicate 124 0;
}

-- The bytes before the first NUL: what a C string is.
unfoldable pub c_string : StdString → StdString
c_string [] = []
c_string (c ∷ s) = if nat_eq c 0 then [] else c ∷ c_string s

-- `strncpy(dst, src, n)` on a `dst` of n + 1 bytes, whose last byte is set to NUL.
unfoldable pub strncpy_terminated : ℕ → StdString → StdString
strncpy_terminated n src =
    let s = take n (c_string src) in s ++ (replicate (n - length s) 0 ++ (0 ∷ []))

unfoldable pub set_robot_name : MetaPdu → StdString → MetaPdu
unfolding strncpy_terminated
set_robot_name m name = record m { robot_name = strncpy_terminated 127 name }

-- The constructor from a name, a channel and a body.
unfoldable pub data_packet : StdString → ℕ → StdString → DataPacket
unfolding zero_meta
data_packet robot_name channel_id body = record {
  meta = record (set_robot_name zero_meta robot_name) { channel_id = u32 channel_id };
  body = body;
}

-- `std::string(meta_pdu_.robot_name)` runs to the first NUL. Where the field has none, the C++
-- standard leaves the result open, and a reader of the packed struct goes on into the next fields.
unfoldable pub get_robot_name : Endian → DataPacket → StdString
get_robot_name e p = c_string (memory e p.meta)

abbrev pub is_control : ℕ → Bool
is_control t =
    nat_eq t (request_code declare_pdu_for_read)
    || nat_eq t (request_code declare_pdu_for_write)
    || nat_eq t (request_code request_pdu_read)

unfoldable pub is_pdu_data_type : StdString → DataPacket → Bool
is_pdu_data_type version p =
    if version == codes "v1"
    then if ltb (length p.body) 4 then true else not (is_control (read_le32 p.body))
    else nat_eq p.meta.meta_request_type (request_code pdu_data_type)
