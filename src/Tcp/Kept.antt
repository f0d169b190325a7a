-- ===== src/Tcp/Kept.antt =====
-- The descriptors that the packet loops of src/comm_tcp.cpp leave open.
use hakoniwa_pdu_endpoint.Prelude.{
  ℕ, zero, suc, ◌-◌, ◌≡◌, refl, ◌∙◌, Bool, ◌||◌, [], ◌∷◌, ◌++◌, if◌then◌else◌, if-Any, nat_eq, ltb,
  length, codes, ◌==◌, str_Eq,
}
use hakoniwa_pdu_endpoint.Cache.Span.{Bytes}
use hakoniwa_pdu_endpoint.Packet.Wire.{Endian, read_le32, from_le32}
use hakoniwa_pdu_endpoint.Packet.Meta.{total_pdu_meta_size}
use hakoniwa_pdu_endpoint.Packet.V2.{load_meta}
use hakoniwa_pdu_endpoint.CommRaw.{PduCommRaw}
use hakoniwa_pdu_endpoint.Sockets.{Posix, Received, received, recv_failed, would_block}
use hakoniwa_pdu_endpoint.Sockets.Stream.{
  ReadEnd, filled, read_failed, read_starved, after_recv, read_loop, read_data,
}
use hakoniwa_pdu_endpoint.Sockets.Descriptors.{IsTable, RecvKeeps}
use hakoniwa_pdu_endpoint.Tcp.Framing.{
  PacketEnd, packet, given_up, packet_starved, and_then, server_v1_packet, server_v2_packet,
  server_packet, Heard, after_packet, k_max_v1_packet_size, server_receive,
}

module _ (P : Posix) (T : IsTable P) (R : RecvKeeps P T) (fd' : ℕ) where
  -- Whether the descriptor is open stays as it is.
  abbrev Same : P.Kernel → P.Kernel → Type 0
  Same k k' = T.is_open k' fd' ≡ T.is_open k fd'

  after_recv_kept :
      (fd : ℕ) (k k' : P.Kernel) (r : Received) (go_on : Bytes → P.Kernel × ReadEnd)
      (again : P.Kernel × ReadEnd)
      → Same k k'
      → ((bs : Bytes) → Same k (go_on bs).0)
      → Same k again.0
      → Same k (after_recv P fd k' r go_on again).0
  after_recv_kept fd k k' (received []) go_on again s f g = s
  after_recv_kept fd k k' (received (b ∷ bs)) go_on again s f g = f (b ∷ bs)
  after_recv_kept fd k k' (recv_failed n) go_on again s f g =
      if-Any (λ (r : P.Kernel × ReadEnd). Same k r.0) (would_block P n) _ _ g s

  read_loop_kept :
      (fd fuel : ℕ) (k : P.Kernel) (n : ℕ) (got : Bytes) → Same k (read_loop P fd fuel k n got).0
  unfolding read_loop
  read_loop_kept fd fuel k zero got = refl
  read_loop_kept fd zero k (suc n) got = refl
  read_loop_kept fd (suc fuel) k (suc n) got =
      let r = P.recv k fd (suc n) in
      let s = R.recv_kept k fd (suc n) fd' in
      after_recv_kept fd k r.0 r.1 _ _ s
        (λ bs. read_loop_kept fd fuel r.0 (suc n - length bs) (got ++ bs) ∙ s)
        (read_loop_kept fd fuel r.0 (suc n) got ∙ s)

  read_data_kept : (fd fuel : ℕ) (k : P.Kernel) (n : ℕ) → Same k (read_data P fd fuel k n).0
  unfolding read_data
  read_data_kept fd fuel k n = read_loop_kept fd fuel k n []

  module _ (e : Endian) (c : PduCommRaw) (fuel fd : ℕ) where
    and_then_kept :
        (k : P.Kernel) (r : P.Kernel × ReadEnd) (go_on : P.Kernel → Bytes → P.Kernel × PacketEnd)
        → Same k r.0
        → ((k' : P.Kernel) (bs : Bytes) → Same k' (go_on k' bs).0)
        → Same k (and_then P e c fuel fd r go_on).0
    and_then_kept k (k', filled bs) go_on s f = f k' bs ∙ s
    and_then_kept k (k', read_failed err) go_on s f = s
    and_then_kept k (k', read_starved) go_on s f = s

    read_then_kept :
        (k : P.Kernel) (n : ℕ) (go_on : P.Kernel → Bytes → P.Kernel × PacketEnd)
        → ((k' : P.Kernel) (bs : Bytes) → Same k' (go_on k' bs).0)
        → Same k (and_then P e c fuel fd (read_data P fd fuel k n) go_on).0
    read_then_kept k n go_on f =
        and_then_kept k (read_data P fd fuel k n) go_on (read_data_kept fd fuel k n) f

    either_kept :
        (k : P.Kernel) (b : Bool) (r r' : P.Kernel × PacketEnd)
        → Same k r.0
        → Same k r'.0
        → Same k (if b then r else r').0
    either_kept k b r r' s s' = if-Any (λ (r : P.Kernel × PacketEnd). Same k r.0) b r r' s s'

    server_v1_packet_kept : (k : P.Kernel) → Same k (server_v1_packet P e c fuel fd k).0
    unfolding server_v1_packet
    server_v1_packet_kept k =
        read_then_kept k 4
          (λ k header_len_buf.
            let header_len = read_le32 header_len_buf in
            if nat_eq header_len 0 || ltb k_max_v1_packet_size header_len
            then (k, given_up)
            else and_then P e c fuel fd (read_data P fd fuel k header_len)
                (λ k payload. (k, packet (header_len_buf ++ payload))))
          (λ k1 h.
            either_kept k1 _ (k1, given_up)
              (and_then P e c fuel fd (read_data P fd fuel k1 (read_le32 h))
                (λ k payload. (k, packet (h ++ payload))))
              refl
              (read_then_kept k1 (read_le32 h) (λ k payload. (k, packet (h ++ payload)))
                (λ k2 b. refl)))

    server_v2_packet_kept : (k : P.Kernel) → Same k (server_v2_packet P e c fuel fd k).0
    unfolding server_v2_packet
    server_v2_packet_kept k =
        read_then_kept k total_pdu_meta_size
          (λ k header_buf.
            let body_len = from_le32 e (load_meta e header_buf).body_len in
            if ltb 0 body_len
            then and_then P e c fuel fd (read_data P fd fuel k body_len)
                (λ k body_buf. (k, packet (header_buf ++ body_buf)))
            else (k, packet header_buf))
          (λ k1 h.
            let body_len = from_le32 e (load_meta e h).body_len in
            either_kept k1 _
              (and_then P e c fuel fd (read_data P fd fuel k1 body_len)
                (λ k body_buf. (k, packet (h ++ body_buf))))
              (k1, packet h)
              (read_then_kept k1 body_len (λ k body_buf. (k, packet (h ++ body_buf)))
                (λ k2 b. refl))
              refl)

    server_packet_kept : (k : P.Kernel) → Same k (server_packet P e c fuel fd k).0
    unfolding server_packet
    server_packet_kept k =
        either_kept k (c.packet_version == codes "v1") (server_v1_packet P e c fuel fd k)
          (server_v2_packet P e c fuel fd k) (server_v1_packet_kept k) (server_v2_packet_kept k)

    after_packet_kept :
        (k : P.Kernel) (r : P.Kernel × PacketEnd) (again : P.Kernel → Heard P e c fuel fd)
        → Same k r.0
        → ((k' : P.Kernel) → Same k' (again k').0)
        → Same k (after_packet P e c fuel fd r again).0
    after_packet_kept k (k', packet raw) again s f = f k' ∙ s
    after_packet_kept k (k', given_up) again s f = s
    after_packet_kept k (k', packet_starved) again s f = s

    pub server_receive_kept :
        (rounds : ℕ) (k : P.Kernel) → Same k (server_receive P e c fuel fd rounds k).0
    unfolding server_receive
    server_receive_kept zero k = refl
    server_receive_kept (suc rounds) k =
        after_packet_kept k (server_packet P e c fuel fd k) (server_receive P e c fuel fd rounds)
          (server_packet_kept k) (server_receive_kept rounds)
