-- ===== src/Tcp/Messages.antt =====
-- The packet loop of server_loop in src/comm_tcp.cpp and a peer that sends with PduCommRaw: the calls of the
-- callback are the messages.
use hakoniwa_pdu_endpoint.Prelude.{
  ℕ, suc, ◌+◌, ◌^◌, ◌≤◌, ◌<◌, ◌≡◌, ap, ◌∙◌, arith, true, some, Option, List, [], ◌∷◌, ◌++◌, length,
  codes, if◌then◌else◌, ◌==◌, str_Eq, All, StdString,
}
use hakoniwa_pdu_endpoint.Types.{PduResolvedKey}
use hakoniwa_pdu_endpoint.Cache.Span.{Bytes}
use hakoniwa_pdu_endpoint.Packet.Wire.{Endian}
use hakoniwa_pdu_endpoint.CommRaw.{PduCommRaw, send, on_raw_data_received}
use hakoniwa_pdu_endpoint.CommRaw.Delivery.{IsSendable, on_raw_data_received-send_v2}
use hakoniwa_pdu_endpoint.Sockets.{Posix}
use hakoniwa_pdu_endpoint.Sockets.Stream.{IsStream}
use hakoniwa_pdu_endpoint.Tcp.Framing.{
  PacketEnd, packet, server_v1_packet, server_v2_packet, server_packet, server_receive,
  after_packet, push_call, LoopEnd,
}
use hakoniwa_pdu_endpoint.Tcp.Delivery.{Answers, sent_packet-Answers}

abbrev pub Message : Type 0
Message = PduResolvedKey × Bytes

-- What the peer puts on the stream.
unfoldable pub stream_of : Endian → PduCommRaw → List Message → Bytes → Bytes
stream_of e d [] rest = rest
stream_of e d ((key, bytes) ∷ ms) rest = send e d key bytes ++ stream_of e d ms rest

-- The key fits the header, the length its field, and the packet the room.
abbrev pub FitsPacket : ℕ → Message → Type 0
FitsPacket room (key, bytes) =
    IsSendable key × (length bytes < 2 ^ 32) × (304 + length bytes ≤ room)

module _ (P : Posix) (fd : ℕ) (S : IsStream P fd) (e : Endian) (c : PduCommRaw) (fuel : ℕ) where
  abbrev Heard : Type 0
  Heard = P.Kernel × List Message × LoopEnd

  abbrev pub with_calls :
      List Message → P.Kernel × List Message × LoopEnd → P.Kernel × List Message × LoopEnd
  with_calls ms (k, calls, why) = (k, ms ++ calls, why)

  -- The loop delivered the messages and is at `at` with the rounds that are left to it.
  pub record Delivers (ms : List Message) (rest : Bytes) (rounds n : ℕ) (k : P.Kernel)
      : Type 0 where
    pub at : P.Kernel
    pub left : S.unread at ≡ rest
    pub heard :
        server_receive P e c fuel fd n k ≡ with_calls ms (server_receive P e c fuel fd rounds at)

  of_version :
      (k : P.Kernel)
      → c.packet_version ≡ codes "v2"
      → server_packet P e c fuel fd k ≡ server_v2_packet P e c fuel fd k
  unfolding server_packet
  of_version k v =
      ap
        (λ (version : StdString).
          if version == codes "v1"
          then server_v1_packet P e c fuel fd k
          else server_v2_packet P e c fuel fd k)
        v

  pub after_sent :
      (r : P.Kernel × PacketEnd) (again : P.Kernel → Heard) (raw : Bytes) (m : Message)
      → r.1 ≡ packet raw
      → on_raw_data_received e c raw ≡ some m
      → after_packet P e c fuel fd r again ≡ with_calls (m ∷ []) (again r.0)
  after_sent r again raw m h h' =
      ap (λ (end : PacketEnd). after_packet P e c fuel fd (r.0, end) again) h
      ∙ ap
          (λ (o : Option Message).
            ((again r.0).0, push_call P e c fuel fd o (again r.0).1, (again r.0).2))
          h'

  -- One turn of the loop on a packet of the peer.
  one_packet :
      (n : ℕ) (k : P.Kernel) (raw rest : Bytes) (m : Message)
      → c.packet_version ≡ codes "v2"
      → on_raw_data_received e c raw ≡ some m
      → Answers P fd S PacketEnd k (packet raw) rest (server_v2_packet P e c fuel fd k)
      → server_receive P e c fuel fd (suc n) k
        ≡ with_calls (m ∷ []) (server_receive P e c fuel fd n (server_v2_packet P e c fuel fd k).0)
  unfolding server_receive
  one_packet n k raw rest m v h a =
      ap
        (λ (r : P.Kernel × PacketEnd).
          after_packet P e c fuel fd r (server_receive P e c fuel fd n))
        (of_version k v)
      ∙ after_sent (server_v2_packet P e c fuel fd k) _ raw m a.answer h

  -- With v2 and a callback, a peer with v2 in any byte order, messages that fit their packets, and fuel for
  -- the largest packet and the waits, every message is delivered, in order, whole and once, however the
  -- stream is cut; after them the loop goes on at the next byte with the rounds that are left.
  pub server_receive-stream_of :
      (e' : Endian) (d : PduCommRaw) (room rounds : ℕ) (ms : List Message) (rest : Bytes)
      (k : P.Kernel)
      → c.packet_version ≡ codes "v2"
      → c.has_callback ≡ true
      → d.packet_version ≡ codes "v2"
      → All (FitsPacket room) ms
      → room + S.waits k ≤ fuel
      → S.unread k ≡ stream_of e' d ms rest
      → Delivers ms rest rounds (length ms + rounds) k
  unfolding stream_of
  server_receive-stream_of e' d room rounds [] rest k vc cb vd fits f u = record {
    at = k;
    left = u;
    heard =
        ap (λ (n : ℕ). server_receive P e c fuel fd n k)
          (let e : length {A = Message} [] + rounds ≡ rounds = omega arith in e);
  }
  server_receive-stream_of e' d room rounds ((key, bytes) ∷ ms) rest k vc cb vd
        ((sendable, short, small), fits) f u =
      let a =
        sent_packet-Answers P fd S e c fuel e' d key bytes (stream_of e' d ms rest) k vd short u
          (omega arith) in
      let k' = (server_v2_packet P e c fuel fd k).0 in
      let more =
        server_receive-stream_of e' d room rounds ms rest k' vc cb vd fits
          (omega (arith, a.no_more_waits)) a.left in
      record {
        at = more.at;
        left = more.left;
        heard =
            ap (λ (n : ℕ). server_receive P e c fuel fd n k)
              (let e : length ((key, bytes) ∷ ms) + rounds ≡ suc (length ms + rounds) =
                  omega arith in
                e)
            ∙ one_packet (length ms + rounds) k _ _ (key, bytes) vc
                (on_raw_data_received-send_v2 e' e d c key bytes sendable short vd vc cb) a
            ∙ ap (with_calls ((key, bytes) ∷ [])) more.heard;
      }
