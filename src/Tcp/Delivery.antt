-- ===== src/Tcp/Delivery.antt =====
-- What the packet loop of TcpComm delivers: the messages that the peer sent, however the stream cuts them.
use hakoniwa_pdu_endpoint.Prelude.{
  ℕ, zero, suc, ◌+◌, ◌^◌, ◌≤◌, ◌<◌, ◌≡◌, refl, sym, ap, ◌∙◌, arith, subst, [], ◌∷◌, ◌++◌, length,
  take, drop, length-append, take-append, drop-append, append_assoc, append-nil, codes, ltb,
  ltb-true, if◌then◌else◌, str_Eq,
}
use hakoniwa_pdu_endpoint.Types.{PduResolvedKey}
use hakoniwa_pdu_endpoint.Cache.Span.{Bytes}
use hakoniwa_pdu_endpoint.Packet.Wire.{Endian, from_le32}
use hakoniwa_pdu_endpoint.Packet.Meta.{MetaPdu, data_packet, pdu_data_type}
use hakoniwa_pdu_endpoint.Packet.Name.{data_packet-IsMeta, body-data_packet}
use hakoniwa_pdu_endpoint.Packet.V2.{load_meta, from_wire, encode_v2}
use hakoniwa_pdu_endpoint.Packet.V2.Header.{
  IsMeta, sent, wire, sent-IsMeta, memory-meta_to_send, from_wire-load_meta, length-wire,
}
use hakoniwa_pdu_endpoint.CommRaw.{PduCommRaw, send}
use hakoniwa_pdu_endpoint.CommRaw.Delivery.{sent_v2}
use hakoniwa_pdu_endpoint.Sockets.{Posix}
use hakoniwa_pdu_endpoint.Sockets.Stream.{ReadEnd, filled, read_data, IsStream, read_data-Filled}
use hakoniwa_pdu_endpoint.Tcp.Framing.{PacketEnd, packet, and_then, server_v2_packet}

-- The header of a message.
abbrev sent_header : PduResolvedKey → Bytes → MetaPdu
sent_header key bytes = sent (data_packet key.robot key.channel_id bytes) pdu_data_type

body_len-sent_header :
    (key : PduResolvedKey) (bytes : Bytes)
    → length bytes < 2 ^ 32
    → (sent_header key bytes).body_len ≡ length bytes
unfolding sent
body_len-sent_header key bytes h =
    rw (body-data_packet key.robot key.channel_id bytes) (omega arith)

send-wire :
    (e : Endian) (d : PduCommRaw) (key : PduResolvedKey) (bytes : Bytes)
    → d.packet_version ≡ codes "v2"
    → send e d key bytes ≡ wire (sent_header key bytes) ++ bytes
unfolding encode_v2
send-wire e d key bytes v =
    sent_v2 e d key bytes v
    ∙ ap (◌++◌ _) (body-data_packet key.robot key.channel_id bytes)
    ∙ ap (λ (header : Bytes). header ++ bytes)
        (memory-meta_to_send e _ pdu_data_type (data_packet-IsMeta key.robot key.channel_id bytes))

-- A call answered and left `rest` of the stream.
pub record Answers (P : Posix) (fd : ℕ) (S : IsStream P fd) (A : Type 0) (k : P.Kernel) (a : A)
    (rest : Bytes) (r : P.Kernel × A) : Type 0 where
  pub answer : r.1 ≡ a
  pub left : S.unread r.0 ≡ rest
  pub no_more_waits : S.waits r.0 ≤ S.waits k

module _ (P : Posix) (fd : ℕ) (S : IsStream P fd) where
  pub read_data-Answers :
      (fuel : ℕ) (k : P.Kernel) (size : ℕ) (bs rest : Bytes)
      → S.unread k ≡ bs ++ rest
      → length bs ≡ size
      → size + S.waits k ≤ fuel
      → Answers P fd S ReadEnd k (filled bs) rest (read_data P fd fuel k size)
  read_data-Answers fuel k size bs rest u n h =
      let f =
        read_data-Filled P fd S fuel k size (omega (arith, ap length u, length-append bs rest)) h in
      let e = sym u ∙ f.split in
      record {
        answer =
            f.answer
            ∙ ap filled (
                sym (take-append size f.front _ f.front_size)
                ∙ ap (take size) (sym e)
                ∙ take-append size bs rest n);
        left =
            sym (drop-append size f.front _ f.front_size)
            ∙ ap (drop size) (sym e)
            ∙ drop-append size bs rest n;
        no_more_waits = f.fewer_waits;
      }

  module _ (e : Endian) (c : PduCommRaw) (fuel : ℕ) where
    pub and_then-Answers :
        (k : P.Kernel) (bs rest : Bytes) (r : P.Kernel × ReadEnd)
        (go_on : P.Kernel → Bytes → P.Kernel × PacketEnd) (a : PacketEnd) (rest' : Bytes)
        → Answers P fd S ReadEnd k (filled bs) rest r
        → ((k' : P.Kernel)
            → S.unread k' ≡ rest
            → S.waits k' ≤ S.waits k
            → Answers P fd S PacketEnd k' a rest' (go_on k' bs))
        → Answers P fd S PacketEnd k a rest' (and_then P e c fuel fd r go_on)
    and_then-Answers k bs rest (k', r) go_on a rest' w f =
        let h = f k' w.left w.no_more_waits in
        subst
          (λ (r : ReadEnd).
            Answers P fd S PacketEnd k a rest' (and_then P e c fuel fd (k', r) go_on))
          (sym w.answer)
          (record {
            answer = h.answer;
            left = h.left;
            no_more_waits = omega (arith, h.no_more_waits, w.no_more_waits);
          })

    body_len-from_wire : (m : MetaPdu) → from_le32 e m.body_len ≡ (from_wire e m).body_len
    unfolding from_wire
    body_len-from_wire m = refl

    announced : (m : MetaPdu) → IsMeta m → from_le32 e (load_meta e (wire m)).body_len ≡ m.body_len
    announced m w =
        ap (λ (bs : Bytes). from_le32 e (load_meta e bs).body_len) (sym (append-nil (wire m)))
        ∙ body_len-from_wire (load_meta e (wire m ++ []))
        ∙ ap (λ (m : MetaPdu). m.body_len) (from_wire-load_meta e m [] w)

    -- The body is read if one is announced.
    body-Answers :
        (k : P.Kernel) (header body rest : Bytes) (n : ℕ)
        → n ≡ length body
        → S.unread k ≡ body ++ rest
        → n + S.waits k ≤ fuel
        → Answers P fd S PacketEnd k (packet (header ++ body)) rest (
            if ltb 0 n
            then and_then P e c fuel fd
                (read_data P fd fuel k n)
                (λ k body. (k, packet (header ++ body)))
            else (k, packet header))
    body-Answers k header [] rest zero h u f = record {
      answer = ap packet (sym (append-nil header));
      left = u;
      no_more_waits = omega arith;
    }
    body-Answers k header (b ∷ bs) rest zero h u f = absurd (omega arith)
    body-Answers k header body rest (suc n) h u f = rw (ltb-true 0 (suc n) (omega arith)) (
        and_then-Answers k body rest _ _ _ rest
          (read_data-Answers fuel k (suc n) body rest u (sym h) f)
          (λ k' u' w'. record { answer = refl; left = u'; no_more_waits = omega arith }))

    server_v2_packet-Answers :
        (k : P.Kernel) (m : MetaPdu) (body rest : Bytes)
        → IsMeta m
        → m.body_len ≡ length body
        → S.unread k ≡ wire m ++ (body ++ rest)
        → 304 + length body + S.waits k ≤ fuel
        → Answers P fd S PacketEnd k
            (packet (wire m ++ body))
            rest
            (server_v2_packet P e c fuel fd k)
    unfolding server_v2_packet
    server_v2_packet-Answers k m body rest w hb u f =
        and_then-Answers k (wire m) (body ++ rest) _ _ _ rest
          (read_data-Answers fuel k 304 (wire m) (body ++ rest) u (length-wire m w) (omega arith))
          (λ k' u' w'.
            subst
              (λ (n : ℕ). Answers P fd S PacketEnd k' (packet (wire m ++ body)) rest (
                if ltb 0 n
                then and_then P e c fuel fd (read_data P fd fuel k' n)
                    (λ k body. (k, packet (wire m ++ body)))
                else (k', packet (wire m))))
              (sym (announced m w))
              (body-Answers k' (wire m) body rest m.body_len hb u' (omega arith)))

    -- A whole message of a sender of any byte order.
    pub sent_packet-Answers :
        (e' : Endian) (d : PduCommRaw) (key : PduResolvedKey) (bytes rest : Bytes) (k : P.Kernel)
        → d.packet_version ≡ codes "v2"
        → length bytes < 2 ^ 32
        → S.unread k ≡ send e' d key bytes ++ rest
        → 304 + length bytes + S.waits k ≤ fuel
        → Answers P fd S PacketEnd k
            (packet (send e' d key bytes))
            rest
            (server_v2_packet P e c fuel fd k)
    sent_packet-Answers e' d key bytes rest k v h u f =
        let m = sent_header key bytes in
        let as_wire = send-wire e' d key bytes v in
        subst
          (λ (raw : Bytes).
            Answers P fd S PacketEnd k (packet raw) rest (server_v2_packet P e c fuel fd k))
          (sym as_wire)
          (server_v2_packet-Answers k m bytes rest
            (sent-IsMeta _ pdu_data_type (data_packet-IsMeta key.robot key.channel_id bytes))
            (body_len-sent_header key bytes h)
            (u ∙ ap (λ (raw : Bytes). raw ++ rest) as_wire ∙ append_assoc (wire m) bytes rest) f)
