-- ===== src/Packet/V1/Layout.antt =====
-- What encode_v1 writes: the writes into the zeroed buffer fill it front to back.
use hakoniwa_pdu_endpoint.Prelude.{
  ℕ, zero, suc, ◌+◌, ◌-◌, ◌^◌, ◌<◌, ◌≡◌, refl, sym, ap, ◌∙◌, arith, [], ◌∷◌, ◌++◌, length, drop,
  replicate, StdString, append_assoc, append-nil, length-append, take-append,
}
use hakoniwa_pdu_endpoint.Packet.Wire.{Endian, write_le32, u32}
use hakoniwa_pdu_endpoint.Packet.Meta.{DataPacket, get_robot_name}
use hakoniwa_pdu_endpoint.Packet.V1.{write_at, encode_v1}

pub drop-past : (p r : StdString) (j k : ℕ) → k ≡ length p + j → drop k (p ++ r) ≡ drop j r
drop-past [] r j k h = ap (λ (t : ℕ). drop t r) (let e : k ≡ j = omega arith in e)
drop-past (c ∷ p) r j zero h = absurd (omega arith)
drop-past (c ∷ p) r j (suc k) h = drop-past p r j k (omega arith)

drop-replicate : (j n : ℕ) → drop j (replicate {A = ℕ} n 0) ≡ replicate (n - j) 0
drop-replicate zero n = ap (λ (t : ℕ). replicate {A = ℕ} t 0) (let e : n ≡ n - 0 = omega arith in e)
drop-replicate (suc j) zero =
    ap (λ (t : ℕ). replicate {A = ℕ} t 0) (let e : 0 ≡ 0 - suc j = omega arith in e)
drop-replicate (suc j) (suc n) =
    drop-replicate j n
    ∙ ap (λ (t : ℕ). replicate {A = ℕ} t 0) (let e : n - j ≡ suc n - suc j = omega arith in e)

-- A write right behind what is filled already.
write_at-end :
    (k n m : ℕ) (p src : StdString)
    → k ≡ length p
    → n ≡ length src + m
    → write_at k src (p ++ replicate n 0) ≡ (p ++ src) ++ replicate m 0
unfolding write_at
write_at-end k n m p src hk hn = rw (
  take-append k p (replicate n 0) (sym hk),
  drop-past p (replicate n 0) (length src) (k + length src) (omega arith),
  drop-replicate (length src) n,
  (let e : n - length src ≡ m = omega arith in e),
  append_assoc,
)

fill :
    (h l name ch body : StdString) (k n : ℕ)
    → length h ≡ 4
    → length l ≡ 4
    → length ch ≡ 4
    → k ≡ length name
    → n ≡ 12 + length name + length body
    → write_at
        (12 + k)
        body
        (write_at (8 + k) ch (write_at 8 name (write_at 4 l (write_at 0 h (replicate n 0)))))
      ≡ h ++ (l ++ (name ++ (ch ++ body)))
fill h l name ch body k n hh hl hc hk hn =
    rw
      (
        write_at-end 0 n (8 + length name + length body) [] h refl (omega arith),
        write_at-end 4 (8 + length name + length body) (4 + length name + length body) h l (sym hh)
            (omega arith),
        write_at-end 8 (4 + length name + length body) (4 + length body) (h ++ l) name
            (omega (arith, length-append h l)) (omega arith),
        write_at-end (8 + k) (4 + length body) (length body) ((h ++ l) ++ name) ch
            (omega (arith, length-append h l, length-append (h ++ l) name)) (omega arith),
        write_at-end (12 + k) (length body) 0 (((h ++ l) ++ name) ++ ch) body
            (omega (
              arith,
              length-append h l,
              length-append (h ++ l) name,
              length-append ((h ++ l) ++ name) ch,
            ))
            (omega arith),
      )
      (append-nil _
        ∙ append_assoc ((h ++ l) ++ name) ch body
        ∙ append_assoc (h ++ l) name (ch ++ body)
        ∙ append_assoc h l (name ++ (ch ++ body)))

-- A v1 packet: the size of what follows, the size of the name, the name, the channel, the body.
unfoldable pub layout : StdString → ℕ → StdString → StdString
layout name channel_id body =
    write_le32 (8 + length name + length body)
    ++ (write_le32 (length name) ++ (name ++ (write_le32 channel_id ++ body)))

pub length-write_le32 : (v : ℕ) → length (write_le32 v) ≡ 4
unfolding write_le32
length-write_le32 v = refl

-- If the sizes fit 32 bits, the writes at offsets fill the buffer with the layout.
pub encode_v1-layout :
    (e : Endian) (p : DataPacket)
    → 12 + length (get_robot_name e p) + length p.body < 2 ^ 32
    → encode_v1 e p ≡ layout (get_robot_name e p) p.meta.channel_id p.body
unfolding encode_v1 layout
encode_v1-layout e p h =
    let name = get_robot_name e p in
    rw
      (
        (let q : u32 (length name) ≡ length name = omega arith in q),
        (let q : u32 (length p.body) ≡ length p.body = omega arith in q),
        (let q : u32 (4 + length name + 4 + length p.body) ≡ 8 + length name + length p.body =
              omega arith in
            q),
      )
      (fill (write_le32 (8 + length name + length p.body)) (write_le32 (length name)) name
        (write_le32 p.meta.channel_id) p.body (length name)
        (u32 (4 + (8 + length name + length p.body)))
        (length-write_le32 (8 + length name + length p.body)) (length-write_le32 (length name))
        (length-write_le32 p.meta.channel_id) refl (omega arith))
