-- ===== src/Tcp/SameLoop.antt =====
-- The inner loops of server_loop and client_loop in src/comm_tcp.cpp do the same.
use hakoniwa_pdu_endpoint.Prelude.{
  ℕ, zero, suc, ◌≡◌, refl, ap, Bool, true, false, List, [], ◌++◌, if◌then◌else◌, ltb, append-nil,
  str_Eq,
}
use hakoniwa_pdu_endpoint.Cache.Span.{Bytes}
use hakoniwa_pdu_endpoint.Packet.Wire.{Endian, from_le32}
use hakoniwa_pdu_endpoint.Packet.Meta.{total_pdu_meta_size}
use hakoniwa_pdu_endpoint.Packet.V2.{load_meta}
use hakoniwa_pdu_endpoint.CommRaw.{PduCommRaw}
use hakoniwa_pdu_endpoint.Sockets.{Posix}
use hakoniwa_pdu_endpoint.Sockets.Stream.{ReadEnd, filled, read_failed, read_starved, read_data}
use hakoniwa_pdu_endpoint.Tcp.Framing.{
  PacketEnd, packet, given_up, packet_starved, and_then, server_v1_packet, server_v2_packet,
  server_packet, client_v1_packet, client_v2_packet, client_packet, server_receive, client_receive,
  after_packet,
}

module _ (P : Posix) (e : Endian) (c : PduCommRaw) (fuel fd : ℕ) where
  same_body :
      (k : P.Kernel) (header : Bytes) (b : Bool) (r : P.Kernel × ReadEnd)
      → and_then P e c fuel fd
          (if b then r else (k, filled []))
          (λ k body. (k, packet (header ++ body)))
        ≡ (if b
            then and_then P e c fuel fd r (λ k body. (k, packet (header ++ body)))
            else (k, packet header))
  same_body k header true r = refl
  same_body k header false r = ap (λ (raw : Bytes). (k, packet raw)) (append-nil header)

  same_tail :
      (r : P.Kernel × ReadEnd) (f g : P.Kernel → Bytes → P.Kernel × PacketEnd)
      → ((k : P.Kernel) (bs : Bytes) → f k bs ≡ g k bs)
      → and_then P e c fuel fd r f ≡ and_then P e c fuel fd r g
  same_tail (k, filled bs) f g h = h k bs
  same_tail (k, read_failed x) f g h = refl
  same_tail (k, read_starved) f g h = refl

  same_v2 : (k : P.Kernel) → client_v2_packet P e c fuel fd k ≡ server_v2_packet P e c fuel fd k
  unfolding client_v2_packet server_v2_packet
  same_v2 k = same_tail (read_data P fd fuel k total_pdu_meta_size) _ _ (λ k header.
      same_body k header (ltb 0 (from_le32 e (load_meta e header).body_len))
        (read_data P fd fuel k (from_le32 e (load_meta e header).body_len)))

  same_v1 : (k : P.Kernel) → client_v1_packet P e c fuel fd k ≡ server_v1_packet P e c fuel fd k
  unfolding client_v1_packet server_v1_packet
  same_v1 k = refl

  same_packet : (k : P.Kernel) → client_packet P e c fuel fd k ≡ server_packet P e c fuel fd k
  unfolding client_packet server_packet
  same_packet k = rw (same_v1 k, same_v2 k) refl

  same_after :
      (r : P.Kernel × PacketEnd) (f g : P.Kernel → P.Kernel × List _ × _)
      → ((k : P.Kernel) → f k ≡ g k)
      → after_packet P e c fuel fd r f ≡ after_packet P e c fuel fd r g
  same_after (k, packet raw) f g h = rw (h k) refl
  same_after (k, given_up) f g h = refl
  same_after (k, packet_starved) f g h = refl

-- The client's loop and the server's loop read the same packets from a connection, make the same calls
-- and end for the same reason, in both packet versions, whatever `recv` answers.
pub client_receive-server_receive :
    (P : Posix) (e : Endian) (c : PduCommRaw) (fuel fd rounds : ℕ) (k : P.Kernel)
    → client_receive P e c fuel fd rounds k ≡ server_receive P e c fuel fd rounds k
unfolding client_receive server_receive
client_receive-server_receive P e c fuel fd zero k = refl
client_receive-server_receive P e c fuel fd (suc rounds) k = rw (same_packet P e c fuel fd k) (
    same_after P e c fuel fd (server_packet P e c fuel fd k) _ _
      (client_receive-server_receive P e c fuel fd rounds))
