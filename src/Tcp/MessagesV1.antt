-- ===== src/Tcp/MessagesV1.antt =====
-- The packet loop of server_loop in src/comm_tcp.cpp with version v1, and a peer that sends with PduCommRaw.
use hakoniwa_pdu_endpoint.Prelude.{
  ℕ, suc, ◌+◌, ◌≤◌, ◌<◌, ◌≡◌, refl, sym, ap, ◌∙◌, arith, subst, true, false, some, List, [], ◌∷◌,
  ◌++◌, length, append-nil, append_assoc, length-append, codes, if◌then◌else◌, ltb, nat_eq, leb,
  ◌||◌, ◌&&◌, ◌==◌, str_Eq, All, StdString,
}
use hakoniwa_pdu_endpoint.Types.{PduResolvedKey}
use hakoniwa_pdu_endpoint.Cache.Span.{Bytes}
use hakoniwa_pdu_endpoint.Packet.Wire.{Endian, read_le32, write_le32}
use hakoniwa_pdu_endpoint.Packet.Meta.{data_packet, is_control, get_robot_name}
use hakoniwa_pdu_endpoint.Packet.Name.{
  get_robot_name-data_packet, body-data_packet, channel_id-data_packet,
}
use hakoniwa_pdu_endpoint.Packet.V1.Layout.{layout, encode_v1-layout, length-write_le32}
use hakoniwa_pdu_endpoint.Packet.V1.RoundTrip.{read_le32-write_le32}
use hakoniwa_pdu_endpoint.CommRaw.{PduCommRaw, send, on_raw_data_received}
use hakoniwa_pdu_endpoint.CommRaw.Delivery.{
  IsSendable, key_back, sent_v1, on_raw_data_received-send_v1,
}
use hakoniwa_pdu_endpoint.Sockets.{Posix}
use hakoniwa_pdu_endpoint.Sockets.Stream.{IsStream, read_data}
use hakoniwa_pdu_endpoint.Tcp.Framing.{
  k_max_v1_packet_size, PacketEnd, packet, given_up, and_then, server_v1_packet, server_v2_packet,
  server_packet, server_receive, after_packet,
}
use hakoniwa_pdu_endpoint.Tcp.Delivery.{Answers, read_data-Answers, and_then-Answers}
use hakoniwa_pdu_endpoint.Tcp.Messages.{Message, stream_of, with_calls, Delivers, after_sent}

-- The key fits the header, the packet its bound and the room, and the bytes begin with no control code.
abbrev pub FitsV1 : ℕ → Message → Type 0
FitsV1 room (key, bytes) =
    IsSendable key
    × (8 + length key.robot + length bytes ≤ k_max_v1_packet_size)
    × (12 + length key.robot + length bytes ≤ room)
    × ((leb 4 (length bytes) && is_control (read_le32 bytes)) ≡ false)

-- What follows the first length.
abbrev tail_v1 : PduResolvedKey → Bytes → Bytes
tail_v1 key bytes =
    write_le32 (length key.robot) ++ (key.robot ++ (write_le32 key.channel_id ++ bytes))

length-tail_v1 :
    (key : PduResolvedKey) (bytes : Bytes)
    → length (tail_v1 key bytes) ≡ 8 + length key.robot + length bytes
length-tail_v1 key bytes = omega (
  arith,
  length-append (write_le32 (length key.robot)) (key.robot ++ (write_le32 key.channel_id ++ bytes)),
  length-append key.robot (write_le32 key.channel_id ++ bytes),
  length-append (write_le32 key.channel_id) bytes,
  length-write_le32 (length key.robot),
  length-write_le32 key.channel_id,
)

name_sent :
    (e : Endian) (key : PduResolvedKey) (bytes : Bytes)
    → IsSendable key
    → get_robot_name e (data_packet key.robot key.channel_id bytes) ≡ key.robot
name_sent e key bytes s =
    get_robot_name-data_packet e key.robot key.channel_id bytes ∙ key_back key s

send-tail_v1 :
    (e : Endian) (d : PduCommRaw) (key : PduResolvedKey) (bytes : Bytes)
    → d.packet_version ≡ codes "v1"
    → IsSendable key
    → 8 + length key.robot + length bytes ≤ k_max_v1_packet_size
    → send e d key bytes ≡ write_le32 (8 + length key.robot + length bytes) ++ tail_v1 key bytes
unfolding layout
send-tail_v1 e d key bytes v s h =
    sent_v1 e d key bytes v
    ∙ encode_v1-layout e (data_packet key.robot key.channel_id bytes) (
        omega (
          arith,
          ap length (name_sent e key bytes s),
          ap length (body-data_packet key.robot key.channel_id bytes),
        ))
    ∙ rw
        (
          name_sent e key bytes s,
          channel_id-data_packet key.robot key.channel_id bytes s.channel_fits,
          body-data_packet key.robot key.channel_id bytes,
        )
        refl

module _ (P : Posix) (fd : ℕ) (S : IsStream P fd) (e : Endian) (c : PduCommRaw) (fuel : ℕ) where
  server_v1_packet-Answers :
      (k : P.Kernel) (n : ℕ) (payload rest : Bytes)
      → length payload ≡ n
      → 0 < n
      → n ≤ k_max_v1_packet_size
      → S.unread k ≡ write_le32 n ++ (payload ++ rest)
      → 4 + n + S.waits k ≤ fuel
      → Answers P fd S PacketEnd k
          (packet (write_le32 n ++ payload))
          rest
          (server_v1_packet P e c fuel fd k)
  unfolding server_v1_packet
  server_v1_packet-Answers k n payload rest l pos small u f =
      and_then-Answers P fd S e c fuel k (write_le32 n) (payload ++ rest) _ _ _ rest
        (read_data-Answers P fd S fuel k 4 (write_le32 n) (payload ++ rest) u (length-write_le32 n)
          (omega arith))
        (λ k' u' w'.
          subst
            (λ (m : ℕ). Answers P fd S PacketEnd k' (packet (write_le32 n ++ payload)) rest (
              if nat_eq m 0 || ltb k_max_v1_packet_size m
              then (k', given_up)
              else and_then P e c fuel fd (read_data P fd fuel k' m)
                  (λ k payload. (k, packet (write_le32 n ++ payload)))))
            (sym announced)
            (rw (in_bounds n pos small) (
              and_then-Answers P fd S e c fuel k' payload rest _ _ _ rest
                (read_data-Answers P fd S fuel k' n payload rest u' l (omega arith))
                (λ k'' u'' w''. record {
                  answer = refl;
                  left = u'';
                  no_more_waits = omega arith;
                }))))
    where
      announced : read_le32 (write_le32 n) ≡ n
      announced =
          ap read_le32 (sym (append-nil (write_le32 n))) ∙ read_le32-write_le32 n [] (omega arith)

      in_bounds :
          (n : ℕ)
          → 0 < n
          → n ≤ k_max_v1_packet_size
          → (nat_eq n 0 || ltb k_max_v1_packet_size n) ≡ false
      in_bounds n pos small = ground arith

  of_version_v1 :
      (k : P.Kernel)
      → c.packet_version ≡ codes "v1"
      → server_packet P e c fuel fd k ≡ server_v1_packet P e c fuel fd k
  unfolding server_packet
  of_version_v1 k v =
      ap
        (λ (version : StdString).
          if version == codes "v1"
          then server_v1_packet P e c fuel fd k
          else server_v2_packet P e c fuel fd k)
        v

  one_packet_v1 :
      (n : ℕ) (k : P.Kernel) (raw rest : Bytes) (m : Message)
      → c.packet_version ≡ codes "v1"
      → on_raw_data_received e c raw ≡ some m
      → Answers P fd S PacketEnd k (packet raw) rest (server_v1_packet P e c fuel fd k)
      → server_receive P e c fuel fd (suc n) k
        ≡ with_calls P fd S e c fuel
            (m ∷ [])
            (server_receive P e c fuel fd n (server_v1_packet P e c fuel fd k).0)
  unfolding server_receive
  one_packet_v1 n k raw rest m v h a =
      ap
        (λ (r : P.Kernel × PacketEnd).
          after_packet P e c fuel fd r (server_receive P e c fuel fd n))
        (of_version_v1 k v)
      ∙ after_sent P fd S e c fuel (server_v1_packet P e c fuel fd k) _ raw m a.answer h

  sent_v1-Answers :
      (e' : Endian) (d : PduCommRaw) (key : PduResolvedKey) (bytes rest : Bytes) (k : P.Kernel)
      → d.packet_version ≡ codes "v1"
      → IsSendable key
      → 8 + length key.robot + length bytes ≤ k_max_v1_packet_size
      → S.unread k ≡ send e' d key bytes ++ rest
      → 12 + length key.robot + length bytes + S.waits k ≤ fuel
      → Answers P fd S PacketEnd k
          (packet (send e' d key bytes))
          rest
          (server_v1_packet P e c fuel fd k)
  sent_v1-Answers e' d key bytes rest k v s small u f =
      let as_tail = send-tail_v1 e' d key bytes v s small in
      subst
        (λ (raw : Bytes).
          Answers P fd S PacketEnd k (packet raw) rest (server_v1_packet P e c fuel fd k))
        (sym as_tail)
        (server_v1_packet-Answers k (8 + length key.robot + length bytes) (tail_v1 key bytes) rest
          (length-tail_v1 key bytes) (omega arith) small
          (u
            ∙ ap (λ (raw : Bytes). raw ++ rest) as_tail
            ∙ append_assoc (write_le32 _) (tail_v1 key bytes) rest)
          (omega arith))

  -- With v1 and a callback, a peer with v1, messages that fit their packets of at most 4 MiB and begin with no
  -- control code, and fuel for the largest packet and the waits, every message is delivered, in order,
  -- whole and once, however the stream is cut; after them the loop goes on at the next byte with the
  -- rounds that are left.
  pub server_receive-stream_of_v1 :
      (e' : Endian) (d : PduCommRaw) (room rounds : ℕ) (ms : List Message) (rest : Bytes)
      (k : P.Kernel)
      → c.packet_version ≡ codes "v1"
      → c.has_callback ≡ true
      → d.packet_version ≡ codes "v1"
      → All (FitsV1 room) ms
      → room + S.waits k ≤ fuel
      → S.unread k ≡ stream_of e' d ms rest
      → Delivers P fd S e c fuel ms rest rounds (length ms + rounds) k
  unfolding stream_of
  server_receive-stream_of_v1 e' d room rounds [] rest k vc cb vd fits f u = record {
    at = k;
    left = u;
    heard =
        ap (λ (n : ℕ). server_receive P e c fuel fd n k)
          (let e : length {A = Message} [] + rounds ≡ rounds = omega arith in e);
  }
  server_receive-stream_of_v1 e' d room rounds ((key, bytes) ∷ ms) rest k vc cb vd
        ((s, small, fit, plain), fits) f u =
      let a =
        sent_v1-Answers e' d key bytes (stream_of e' d ms rest) k vd s small u (omega arith) in
      let k' = (server_v1_packet P e c fuel fd k).0 in
      let more =
        server_receive-stream_of_v1 e' d room rounds ms rest k' vc cb vd fits
          (omega (arith, a.no_more_waits)) a.left in
      record {
        at = more.at;
        left = more.left;
        heard =
            ap (λ (n : ℕ). server_receive P e c fuel fd n k)
              (let e : length ((key, bytes) ∷ ms) + rounds ≡ suc (length ms + rounds) =
                  omega arith in
                e)
            ∙ one_packet_v1 (length ms + rounds) k _ _ (key, bytes) vc
                (on_raw_data_received-send_v1 e' e d c key bytes s (omega arith) vd vc cb
                  ∙ rw plain refl)
                a
            ∙ ap (with_calls P fd S e c fuel ((key, bytes) ∷ [])) more.heard;
      }
