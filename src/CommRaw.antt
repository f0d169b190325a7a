-- ===== src/CommRaw.antt =====
-- include/hakoniwa/pdu/comm/comm_raw.hpp: PduCommRaw, which puts PDUs into packets for a transport of
-- bytes. The transport (raw_send and so on) belongs to the derived classes; here a send returns the
-- bytes handed to raw_send, and a receipt returns what is handed to the callback.
pub mod Delivery
pub mod Version
use hakoniwa_pdu_endpoint.Prelude.{
  ℕ, Bool, true, false, not, ◌||◌, Option, none, some, if◌then◌else◌, StdString, codes, ◌==◌,
  str_Eq,
}
use hakoniwa_pdu_endpoint.Types.{HakoPduErrorType, unsupported, PduResolvedKey}
use hakoniwa_pdu_endpoint.Cache.Span.{Bytes, ReadResult}
use hakoniwa_pdu_endpoint.Packet.Wire.{Endian}
use hakoniwa_pdu_endpoint.Packet.Meta.{
  DataPacket, data_packet, get_robot_name, is_pdu_data_type, pdu_data_type,
}
use hakoniwa_pdu_endpoint.Packet.Codec.{encode, decode}

pub record PduCommRaw : Type 0 where
  pub packet_version : StdString
  -- Whether `on_recv_callback_` is set.
  pub has_callback : Bool

pub init : PduCommRaw
init = record { packet_version = codes "v2"; has_callback = false }

unfoldable pub set_packet_version : PduCommRaw → StdString → PduCommRaw × Bool
set_packet_version c version =
    if version == codes "v1" || version == codes "v2"
    then (record c { packet_version = version }, true)
    else (c, false)

-- The bytes that `send` passes to `raw_send`, with the default request type of `encode`.
unfoldable pub send : Endian → PduCommRaw → PduResolvedKey → Bytes → Bytes
send e c pdu_key bytes =
    encode e (data_packet pdu_key.robot pdu_key.channel_id bytes) c.packet_version pdu_data_type

unfoldable pub recv : PduCommRaw → PduResolvedKey → Bytes → ReadResult
recv c pdu_key span = record { errcode = unsupported; bytes = span; received_size = 0 }

unfoldable pub deliver : Endian → PduCommRaw → DataPacket → Option (PduResolvedKey × Bytes)
deliver e c packet =
    if not (is_pdu_data_type c.packet_version packet)
    then none
    else if c.has_callback
    then some (
      record { robot = get_robot_name e packet; channel_id = packet.meta.channel_id },
      packet.body,
    )
    else none

-- A packet that cannot be decoded is dropped.
abbrev deliver_decoded : Endian → PduCommRaw → Option DataPacket → Option (PduResolvedKey × Bytes)
unfolding deliver
deliver_decoded e c none = none
deliver_decoded e c (some packet) = deliver e c packet

-- The call of the callback that a raw packet leads to, if there is one.
unfoldable pub on_raw_data_received : Endian → PduCommRaw → Bytes → Option (PduResolvedKey × Bytes)
unfolding deliver
on_raw_data_received e c raw = deliver_decoded e c (decode e raw c.packet_version)
