-- ===== src/Tcp/Framing.antt =====
-- How TcpComm of src/comm_tcp.cpp cuts the stream into packets: the inner loop of server_loop, that of
-- client_loop, and the calls of the callback. The fuel bounds the turns of each read_data, the rounds
-- how often the loop finds `is_running_flag_` set.
use hakoniwa_pdu_endpoint.Prelude.{
  ℕ, zero, suc, ◌*◌, ◌||◌, Option, none, some, List, [], ◌∷◌, ◌++◌, if◌then◌else◌, nat_eq, ltb,
  codes, ◌==◌, str_Eq,
}
use hakoniwa_pdu_endpoint.Types.{PduResolvedKey}
use hakoniwa_pdu_endpoint.Cache.Span.{Bytes}
use hakoniwa_pdu_endpoint.Packet.Wire.{Endian, read_le32, from_le32}
use hakoniwa_pdu_endpoint.Packet.Meta.{total_pdu_meta_size}
use hakoniwa_pdu_endpoint.Packet.V2.{load_meta}
use hakoniwa_pdu_endpoint.CommRaw.{PduCommRaw, on_raw_data_received}
use hakoniwa_pdu_endpoint.Sockets.{Posix}
use hakoniwa_pdu_endpoint.Sockets.Stream.{ReadEnd, filled, read_failed, read_starved, read_data}

abbrev pub k_max_v1_packet_size : ℕ
k_max_v1_packet_size = 4 * 1024 * 1024

-- A whole packet, a `break`, or the end of the fuel.
pub data PacketEnd : Type 0 where
  packet : Bytes → PacketEnd
  given_up : PacketEnd
  packet_starved : PacketEnd

pub data LoopEnd : Type 0 where
  flag_cleared broken_off loop_starved : LoopEnd

module _ (P : Posix) (e : Endian) (c : PduCommRaw) (fuel : ℕ) (fd : ℕ) where
  abbrev pub and_then :
      P.Kernel × ReadEnd → (P.Kernel → Bytes → P.Kernel × PacketEnd) → P.Kernel × PacketEnd
  and_then (k, filled bs) go_on = go_on k bs
  and_then (k, read_failed err) go_on = (k, given_up)
  and_then (k, read_starved) go_on = (k, packet_starved)

  unfoldable pub server_v1_packet : P.Kernel → P.Kernel × PacketEnd
  server_v1_packet k = and_then (read_data P fd fuel k 4) (λ k header_len_buf.
      let header_len = read_le32 header_len_buf in
      if nat_eq header_len 0 || ltb k_max_v1_packet_size header_len
      then (k, given_up)
      else and_then (read_data P fd fuel k header_len)
          (λ k payload. (k, packet (header_len_buf ++ payload))))

  unfoldable pub server_v2_packet : P.Kernel → P.Kernel × PacketEnd
  server_v2_packet k = and_then (read_data P fd fuel k total_pdu_meta_size) (λ k header_buf.
      let body_len = from_le32 e (load_meta e header_buf).body_len in
      if ltb 0 body_len
      then and_then (read_data P fd fuel k body_len)
          (λ k body_buf. (k, packet (header_buf ++ body_buf)))
      else (k, packet header_buf))

  unfoldable pub server_packet : P.Kernel → P.Kernel × PacketEnd
  unfolding server_v1_packet server_v2_packet
  server_packet k =
      if c.packet_version == codes "v1" then server_v1_packet k else server_v2_packet k

  unfoldable pub client_v1_packet : P.Kernel → P.Kernel × PacketEnd
  client_v1_packet k = and_then (read_data P fd fuel k 4) (λ k header_len_buf.
      let header_len = read_le32 header_len_buf in
      if nat_eq header_len 0 || ltb k_max_v1_packet_size header_len
      then (k, given_up)
      else and_then (read_data P fd fuel k header_len)
          (λ k payload. (k, packet (header_len_buf ++ payload))))

  -- body_buf of the client, empty unless the header announces a body; then the packet is made of both.
  unfoldable pub client_v2_packet : P.Kernel → P.Kernel × PacketEnd
  client_v2_packet k = and_then (read_data P fd fuel k total_pdu_meta_size) (λ k header_buf.
      let body_len = from_le32 e (load_meta e header_buf).body_len in
      and_then (if ltb 0 body_len then read_data P fd fuel k body_len else (k, filled []))
        (λ k body_buf. (k, packet (header_buf ++ body_buf))))

  unfoldable pub client_packet : P.Kernel → P.Kernel × PacketEnd
  unfolding client_v1_packet client_v2_packet
  client_packet k =
      if c.packet_version == codes "v1" then client_v1_packet k else client_v2_packet k

  abbrev pub push_call :
      Option (PduResolvedKey × Bytes)
      → List (PduResolvedKey × Bytes)
      → List (PduResolvedKey × Bytes)
  push_call none calls = calls
  push_call (some call) calls = call ∷ calls

  -- The system afterwards, the calls of the callback in their order, and why the loop ended.
  abbrev pub Heard : Type 0
  Heard = P.Kernel × List (PduResolvedKey × Bytes) × LoopEnd

  abbrev pub after_packet : P.Kernel × PacketEnd → (P.Kernel → Heard) → Heard
  after_packet (k, packet raw) again =
      let (k', calls, why) = again k in (k', push_call (on_raw_data_received e c raw) calls, why)
  after_packet (k, given_up) again = (k, [], broken_off)
  after_packet (k, packet_starved) again = (k, [], loop_starved)

  unfoldable pub server_receive : ℕ → P.Kernel → Heard
  unfolding server_packet
  server_receive zero k = (k, [], flag_cleared)
  server_receive (suc rounds) k = after_packet (server_packet k) (server_receive rounds)

  unfoldable pub client_receive : ℕ → P.Kernel → Heard
  unfolding client_packet
  client_receive zero k = (k, [], flag_cleared)
  client_receive (suc rounds) k = after_packet (client_packet k) (client_receive rounds)
