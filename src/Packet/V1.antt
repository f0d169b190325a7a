-- ===== src/Packet/V1.antt =====
-- encode_v1 and decode_v1 of packet.hpp: two lengths, the name, the channel, then the body.
pub mod Layout
pub mod RoundTrip
use hakoniwa_pdu_endpoint.Prelude.{
  ℕ, ◌+◌, ◌-◌, Bool, true, not, ◌||◌, Option, none, some, List, [], ◌++◌, if◌then◌else◌, ltb,
  length, take, drop, replicate, StdString,
}
use hakoniwa_pdu_endpoint.Packet.Wire.{Endian, read_le32, write_le32, u32}
use hakoniwa_pdu_endpoint.Packet.Meta.{DataPacket, data_packet, get_robot_name}

-- A write of `src` at `offset` into a buffer that has room for it.
unfoldable pub write_at : ℕ → StdString → StdString → StdString
write_at offset src dst = take offset dst ++ (src ++ drop (offset + length src) dst)

-- The lengths are uint32_t and wrap.
unfoldable pub header_len_v1 : StdString → StdString → ℕ
header_len_v1 name_str body = u32 (4 + u32 (length name_str) + 4 + u32 (length body))

unfoldable pub encode_v1 : Endian → DataPacket → StdString
unfolding header_len_v1
encode_v1 e p =
    let name_str = get_robot_name e p in
    let name_len = u32 (length name_str) in
    let header_len = header_len_v1 name_str p.body in
    let total_len = u32 (4 + header_len) in
    let result0 = replicate total_len 0 in
    let result1 = write_at 0 (write_le32 header_len) result0 in
    let result2 = write_at 4 (write_le32 name_len) result1 in
    let result3 = write_at 8 name_str result2 in
    let result4 = write_at (8 + name_len) (write_le32 p.meta.channel_id) result3 in
    write_at (12 + name_len) p.body result4

-- `index` counts what has been read; each test stands where decode_v1 makes it, and
-- `4 + header_len` and `4 + name_len + 4` are uint32_t sums, which wrap.
unfoldable pub decode_v1 : StdString → Option DataPacket
decode_v1 bytes =
    if ltb (length bytes) 4
    then none
    else (let header_len = read_le32 bytes in
        if ltb (length bytes) (u32 (4 + header_len))
        then none
        else if ltb (length bytes) 8
        then none
        else (let name_len = read_le32 (drop 4 bytes) in
            if ltb (length bytes) (8 + name_len + 4)
            then none
            else if ltb header_len (u32 (4 + name_len + 4))
            then none
            else (let robot_name = take name_len (drop 8 bytes) in
                let channel_id = read_le32 (drop (8 + name_len) bytes) in
                some (data_packet robot_name channel_id (drop (12 + name_len) bytes)))))
