-- ===== src/Packet/Wire/Laws.antt =====
-- The byte order helpers in plain arithmetic, and what goes over the wire.
use hakoniwa_pdu_endpoint.Prelude.{
  ℕ, ◌+◌, ◌*◌, ◌/◌, ◌%◌, ◌^◌, ◌<◌, ◌≡◌, refl, arith, bit_and, [], ◌∷◌, StdString, ap,
}
use hakoniwa_pdu_endpoint.Prelude.Bits.{and_ff, and_shifted, or_low_high, or_high_low}
use hakoniwa_pdu_endpoint.Packet.Wire.{
  Endian, little, big, octet, read_le32, write_le32, bswap16, bswap32, bswap64, to_le16, to_le32,
  to_le64, from_le16, from_le32, from_le64, mem16, mem32, mem64, load16, load32, load64,
}

-- The four bytes of a number below 2 ^ 32, lowest first.
abbrev pub le32 : ℕ → StdString
le32 v = octet v 0 ∷ octet v 1 ∷ octet v 2 ∷ octet v 3 ∷ []

pub write_le32-le32 : (v : ℕ) → write_le32 v ≡ le32 v
unfolding write_le32
write_le32-le32 v =
    ground (arith, and_ff v, and_ff (v / 2 ^ 8), and_ff (v / 2 ^ 16), and_ff (v / 2 ^ 24))

pub read_le32_sum :
    (a b c d : ℕ) (rest : StdString)
    → a < 256
    → b < 256
    → c < 256
    → d < 256
    → read_le32 (a ∷ b ∷ c ∷ d ∷ rest) ≡ a + b * 2 ^ 8 + c * 2 ^ 16 + d * 2 ^ 24
unfolding read_le32
read_le32_sum a b c d rest ha hb hc hd = ground (
  arith,
  or_low_high 8 a b,
  or_low_high 16 (a + b * 2 ^ 8) c,
  or_low_high 24 (a + b * 2 ^ 8 + c * 2 ^ 16) d,
)

pub bswap16_sum : (v : ℕ) → v < 2 ^ 16 → bswap16 v ≡ octet v 1 + octet v 0 * 2 ^ 8
unfolding bswap16
bswap16_sum v h = ground (arith, or_low_high 8 (v / 2 ^ 8) v)

-- The byte that a mask cuts out of place `i`.
masked : (k v : ℕ) → bit_and v (255 * 2 ^ k) ≡ v / 2 ^ k % 256 * 2 ^ k
masked k v = omega (arith, and_shifted k 255 v, ap (λ (t : ℕ). t * 2 ^ k) (and_ff (v / 2 ^ k)))

pub bswap32_sum :
    (v : ℕ)
    → v < 2 ^ 32
    → bswap32 v ≡ octet v 3 + octet v 2 * 2 ^ 8 + octet v 1 * 2 ^ 16 + octet v 0 * 2 ^ 24
unfolding bswap32
bswap32_sum v h = ground (
  arith,
  and_ff v,
  masked 8 v,
  masked 16 v,
  masked 24 v,
  or_high_low 24 (octet v 1 * 2 ^ 16) (octet v 0),
  or_high_low 16 (octet v 2 * 2 ^ 8) (octet v 0 * 2 ^ 8 + octet v 1),
  or_high_low 8 (octet v 3) (octet v 0 * 2 ^ 16 + octet v 1 * 2 ^ 8 + octet v 2),
)

pub bswap64_sum :
    (v : ℕ)
    → v < 2 ^ 64
    → bswap64 v
      ≡ octet v 7
        + octet v 6 * 2 ^ 8
        + octet v 5 * 2 ^ 16
        + octet v 4 * 2 ^ 24
        + octet v 3 * 2 ^ 32
        + octet v 2 * 2 ^ 40
        + octet v 1 * 2 ^ 48
        + octet v 0 * 2 ^ 56
unfolding bswap64
bswap64_sum v h = ground (
  arith,
  and_ff v,
  masked 8 v,
  masked 16 v,
  masked 24 v,
  masked 32 v,
  masked 40 v,
  masked 48 v,
  masked 56 v,
  or_high_low 56 (octet v 1 * 2 ^ 48) (octet v 0),
  or_high_low 48 (octet v 2 * 2 ^ 40) (octet v 0 * 2 ^ 8 + octet v 1),
  or_high_low 40 (octet v 3 * 2 ^ 32) (octet v 0 * 2 ^ 16 + octet v 1 * 2 ^ 8 + octet v 2),
  or_high_low 32 (octet v 4 * 2 ^ 24)
      (octet v 0 * 2 ^ 24 + octet v 1 * 2 ^ 16 + octet v 2 * 2 ^ 8 + octet v 3),
  or_high_low 24 (octet v 5 * 2 ^ 16) (
      octet v 0 * 2 ^ 32 + octet v 1 * 2 ^ 24 + octet v 2 * 2 ^ 16 + octet v 3 * 2 ^ 8 + octet v 4),
  or_high_low 16 (octet v 6 * 2 ^ 8) (
      octet v 0 * 2 ^ 40
      + octet v 1 * 2 ^ 32
      + octet v 2 * 2 ^ 24
      + octet v 3 * 2 ^ 16
      + octet v 4 * 2 ^ 8
      + octet v 5),
  or_high_low 8 (octet v 7) (
      octet v 0 * 2 ^ 48
      + octet v 1 * 2 ^ 40
      + octet v 2 * 2 ^ 32
      + octet v 3 * 2 ^ 24
      + octet v 4 * 2 ^ 16
      + octet v 5 * 2 ^ 8
      + octet v 6),
)

-- The octets of a sum of eight bytes.
octets_sum64 :
    (a b c d e f g h : ℕ)
    → a < 256
    → b < 256
    → c < 256
    → d < 256
    → e < 256
    → f < 256
    → g < 256
    → h < 256
    → let v =
        a
        + b * 2 ^ 8
        + c * 2 ^ 16
        + d * 2 ^ 24
        + e * 2 ^ 32
        + f * 2 ^ 40
        + g * 2 ^ 48
        + h * 2 ^ 56 in
      (octet v 0 ≡ a)
      × (octet v 1 ≡ b)
      × (octet v 2 ≡ c)
      × (octet v 3 ≡ d)
      × (octet v 4 ≡ e)
      × (octet v 5 ≡ f)
      × (octet v 6 ≡ g)
      × (octet v 7 ≡ h)
octets_sum64 a b c d e f g h ha hb hc hd he hf hg hh = omega arith

byte_lt : (v i : ℕ) → octet v i < 256
byte_lt v i = omega arith

-- Whatever the host's byte order, the bytes that go out are little endian.
pub mem16-to_le16 : (e : Endian) (v : ℕ) → v < 2 ^ 16 → mem16 e (to_le16 e v) ≡ mem16 little v
unfolding mem16 to_le16
mem16-to_le16 little v h = refl
mem16-to_le16 big v h = ground (arith, bswap16_sum v)

pub mem32-to_le32 : (e : Endian) (v : ℕ) → v < 2 ^ 32 → mem32 e (to_le32 e v) ≡ mem32 little v
unfolding mem32 to_le32
mem32-to_le32 little v h = refl
mem32-to_le32 big v h = ground (arith, bswap32_sum v)

pub mem64-to_le64 : (e : Endian) (v : ℕ) → v < 2 ^ 64 → mem64 e (to_le64 e v) ≡ mem64 little v
unfolding mem64 to_le64
mem64-to_le64 little v h = refl
mem64-to_le64 big v h =
    let p =
      octets_sum64 (octet v 7) (octet v 6) (octet v 5) (octet v 4) (octet v 3) (octet v 2)
        (octet v 1) (octet v 0) (byte_lt v 7) (byte_lt v 6) (byte_lt v 5) (byte_lt v 4)
        (byte_lt v 3) (byte_lt v 2) (byte_lt v 1) (byte_lt v 0) in
    rw (bswap64_sum v h) (cc (p.0, p.1, p.2, p.3, p.4, p.5, p.6, p.7))

-- And the host reads such bytes back as the number.
pub from_le16-load16 :
    (e : Endian) (v : ℕ) (rest : StdString)
    → v < 2 ^ 16
    → from_le16 e (load16 e (octet v 0 ∷ octet v 1 ∷ rest)) ≡ v
unfolding from_le16 load16
from_le16-load16 little v rest h = omega arith
from_le16-load16 big v rest h =
    ground (arith, bswap16_sum (octet v 1 + octet v 0 * 2 ^ 8) (omega arith))

pub from_le32-load32 :
    (e : Endian) (v : ℕ) (rest : StdString)
    → v < 2 ^ 32
    → from_le32 e (load32 e (octet v 0 ∷ octet v 1 ∷ octet v 2 ∷ octet v 3 ∷ rest)) ≡ v
unfolding from_le32 load32
from_le32-load32 little v rest h = omega arith
from_le32-load32 big v rest h = ground (
  arith,
  bswap32_sum (octet v 3 + octet v 2 * 2 ^ 8 + octet v 1 * 2 ^ 16 + octet v 0 * 2 ^ 24)
      (omega arith),
)

sum_octets64 :
    (v : ℕ)
    → v < 2 ^ 64
    → octet v 0
        + octet v 1 * 2 ^ 8
        + octet v 2 * 2 ^ 16
        + octet v 3 * 2 ^ 24
        + octet v 4 * 2 ^ 32
        + octet v 5 * 2 ^ 40
        + octet v 6 * 2 ^ 48
        + octet v 7 * 2 ^ 56
      ≡ v
sum_octets64 v h = omega arith

pub from_le64-load64 :
    (e : Endian) (v : ℕ) (rest : StdString)
    → v < 2 ^ 64
    → from_le64 e (
        load64 e (
          octet v 0
          ∷ octet v 1
          ∷ octet v 2
          ∷ octet v 3
          ∷ octet v 4
          ∷ octet v 5
          ∷ octet v 6
          ∷ octet v 7
          ∷ rest))
      ≡ v
unfolding from_le64 load64
from_le64-load64 little v rest h = sum_octets64 v h
from_le64-load64 big v rest h =
    let p =
      octets_sum64 (octet v 7) (octet v 6) (octet v 5) (octet v 4) (octet v 3) (octet v 2)
        (octet v 1) (octet v 0) (byte_lt v 7) (byte_lt v 6) (byte_lt v 5) (byte_lt v 4)
        (byte_lt v 3) (byte_lt v 2) (byte_lt v 1) (byte_lt v 0) in
    let w : ℕ =
      octet v 7
      + octet v 6 * 2 ^ 8
      + octet v 5 * 2 ^ 16
      + octet v 4 * 2 ^ 24
      + octet v 3 * 2 ^ 32
      + octet v 2 * 2 ^ 40
      + octet v 1 * 2 ^ 48
      + octet v 0 * 2 ^ 56 in
    rw (bswap64_sum w (omega arith), p.0, p.1, p.2, p.3, p.4, p.5, p.6, p.7) (sum_octets64 v h)
