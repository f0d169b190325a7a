-- ===== src/Packet/Codec.antt =====
-- DataPacket::encode and DataPacket::decode of packet.hpp: the choice by the version string.
use hakoniwa_pdu_endpoint.Prelude.{Option, if◌then◌else◌, StdString, codes, ◌==◌, str_Eq}
use hakoniwa_pdu_endpoint.Packet.Wire.{Endian}
use hakoniwa_pdu_endpoint.Packet.Meta.{DataPacket, MetaRequestType}
use hakoniwa_pdu_endpoint.Packet.V2.{encode_v2, decode_v2}
use hakoniwa_pdu_endpoint.Packet.V1.{encode_v1, decode_v1}

unfoldable pub encode : Endian → DataPacket → StdString → MetaRequestType → StdString
encode e p version request_type =
    if version == codes "v1" then encode_v1 e p else encode_v2 e p request_type

unfoldable pub decode : Endian → StdString → StdString → Option DataPacket
decode e bytes version = if version == codes "v1" then decode_v1 bytes else decode_v2 e bytes
