-- ===== src/Packet/V2/RoundTrip.antt =====
-- What encode_v2 sends, and that decode_v2 reads it back, between hosts of any byte order.
use hakoniwa_pdu_endpoint.Prelude.{
  ℕ, ◌+◌, ◌-◌, ◌^◌, ◌≤◌, ◌<◌, ◌≡◌, refl, sym, ◌∙◌, arith, ltb-false, some, ◌++◌, length, drop,
  StdString, length-append, take-append, drop-append, append_assoc,
}
use hakoniwa_pdu_endpoint.Packet.Wire.{Endian}
use hakoniwa_pdu_endpoint.Packet.Meta.{
  MetaPdu, DataPacket, MetaRequestType, hako_meta_magic, hako_meta_ver_v2, total_pdu_meta_size,
}
use hakoniwa_pdu_endpoint.Packet.V2.{encode_v2, load_meta, from_wire, accept_v2, decode_v2}
use hakoniwa_pdu_endpoint.Packet.V2.Header.{
  IsMeta, sent, wire, sent-IsMeta, memory-meta_to_send, from_wire-load_meta, length-wire,
}

accept_v2_lem :
    (m : MetaPdu) (n : ℕ) (body more : StdString)
    → m.magicno ≡ hako_meta_magic
    → m.version ≡ hako_meta_ver_v2
    → m.body_len ≡ length body
    → length body ≤ n
    → accept_v2 m n (body ++ more) ≡ some (record { meta = m; body = body })
unfolding accept_v2
accept_v2_lem m n body more hm hv hb h = ground (arith, take-append m.body_len body more (sym hb))

decode_v2-accept_v2 :
    (e : Endian) (bytes : StdString)
    → total_pdu_meta_size ≤ length bytes
    → decode_v2 e bytes
      ≡ accept_v2
          (from_wire e (load_meta e bytes))
          (length bytes - total_pdu_meta_size)
          (drop total_pdu_meta_size bytes)
unfolding decode_v2
decode_v2-accept_v2 e bytes h = rw (ltb-false (length bytes) total_pdu_meta_size h)

-- decode_v2 on a header and as many bytes as it announces, whatever follows them.
pub decode_v2-wire :
    (e : Endian) (m : MetaPdu) (body more : StdString)
    → IsMeta m
    → m.magicno ≡ hako_meta_magic
    → m.version ≡ hako_meta_ver_v2
    → m.body_len ≡ length body
    → decode_v2 e (wire m ++ (body ++ more)) ≡ some (record { meta = m; body = body })
decode_v2-wire e m body more w hm hv hb =
    decode_v2-accept_v2 e (wire m ++ (body ++ more)) (omega (arith, size))
    ∙ rw
        (
          from_wire-load_meta e m (body ++ more) w,
          drop-append 304 (wire m) (body ++ more) (length-wire m w),
        )
        (accept_v2_lem m _ body more hm hv hb (omega (arith, size)))
  where
    size : length (wire m ++ (body ++ more)) ≡ 304 + (length body + length more)
    size =
        omega
          (arith, length-append (wire m) (body ++ more), length-append body more, length-wire m w)

-- If the header is well formed and the body is below 2 ^ 32 bytes, a host of either byte order reads back
-- the header and the body that a host of either byte order sent, and leaves out what follows them.
pub decode_v2-encode_v2 :
    (e e' : Endian) (p : DataPacket) (t : MetaRequestType) (more : StdString)
    → IsMeta p.meta
    → length p.body < 2 ^ 32
    → decode_v2 e' (encode_v2 e p t ++ more) ≡ some (record { meta = sent p t; body = p.body })
unfolding encode_v2
decode_v2-encode_v2 e e' p t more w h =
    rw (memory-meta_to_send e p t w, append_assoc)
      (decode_v2-wire e' (sent p t) p.body more (sent-IsMeta p t w) (unfold sent in refl)
        (unfold sent in refl) (unfold sent in omega arith))
