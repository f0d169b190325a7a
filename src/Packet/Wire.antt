-- ===== src/Packet/Wire.antt =====
-- The byte order helpers of packet.hpp. The preprocessor's test of the host's byte order is the
-- argument `Endian`, and `mem16` and so on are the bytes of an unsigned integer in the host's memory.
pub mod Laws
use hakoniwa_pdu_endpoint.Prelude.{
  ℕ, ◌+◌, ◌*◌, ◌/◌, ◌%◌, ◌^◌, bit_and, bit_or, List, [], ◌∷◌, StdString,
}

pub data Endian : Type 0 where
  little big : Endian

-- `v << k` on an unsigned integer of `w` bits, and `v >> k`.
abbrev pub shl : ℕ → ℕ → ℕ → ℕ
shl w v k = v * 2 ^ k % 2 ^ w

abbrev pub shr : ℕ → ℕ → ℕ
shr v k = v / 2 ^ k

-- The casts to `std::byte` and `uint16_t`.
abbrev pub byte : ℕ → ℕ
byte v = v % 256

abbrev pub u16 : ℕ → ℕ
u16 v = v % 2 ^ 16

abbrev pub u32 : ℕ → ℕ
u32 v = v % 2 ^ 32

-- The callers have checked that four bytes are there.
unfoldable pub read_le32 : StdString → ℕ
read_le32 (a ∷ b ∷ c ∷ d ∷ rest) =
    bit_or (bit_or (bit_or a (shl 32 b 8)) (shl 32 c 16)) (shl 32 d 24)
read_le32 _ = 0

unfoldable pub write_le32 : ℕ → StdString
write_le32 v =
    byte (bit_and v 0xFF)
    ∷ byte (bit_and (shr v 8) 0xFF)
    ∷ byte (bit_and (shr v 16) 0xFF)
    ∷ byte (bit_and (shr v 24) 0xFF)
    ∷ []

unfoldable pub bswap16 : ℕ → ℕ
bswap16 v = u16 (bit_or (shr v 8) (v * 2 ^ 8))

unfoldable pub bswap32 : ℕ → ℕ
bswap32 v =
    bit_or
      (bit_or (bit_or (shl 32 (bit_and v 0x000000FF) 24) (shl 32 (bit_and v 0x0000FF00) 8))
        (shr (bit_and v 0x00FF0000) 8))
      (shr (bit_and v 0xFF000000) 24)

unfoldable pub bswap64 : ℕ → ℕ
bswap64 v =
    bit_or
      (bit_or
        (bit_or
          (bit_or
            (bit_or
              (bit_or
                (bit_or (shl 64 (bit_and v 0x00000000000000FF) 56)
                  (shl 64 (bit_and v 0x000000000000FF00) 40))
                (shl 64 (bit_and v 0x0000000000FF0000) 24))
              (shl 64 (bit_and v 0x00000000FF000000) 8))
            (shr (bit_and v 0x000000FF00000000) 8))
          (shr (bit_and v 0x0000FF0000000000) 24))
        (shr (bit_and v 0x00FF000000000000) 40))
      (shr (bit_and v 0xFF00000000000000) 56)

unfoldable pub to_le16 : Endian → ℕ → ℕ
to_le16 little v = v
to_le16 big v = bswap16 v

unfoldable pub to_le32 : Endian → ℕ → ℕ
to_le32 little v = v
to_le32 big v = bswap32 v

unfoldable pub to_le64 : Endian → ℕ → ℕ
to_le64 little v = v
to_le64 big v = bswap64 v

unfoldable pub from_le16 : Endian → ℕ → ℕ
from_le16 little v = v
from_le16 big v = bswap16 v

unfoldable pub from_le32 : Endian → ℕ → ℕ
from_le32 little v = v
from_le32 big v = bswap32 v

unfoldable pub from_le64 : Endian → ℕ → ℕ
from_le64 little v = v
from_le64 big v = bswap64 v

-- Byte `i` of a number, the lowest first.
abbrev pub octet : ℕ → ℕ → ℕ
octet v i = v / 2 ^ (8 * i) % 256

unfoldable pub mem16 : Endian → ℕ → StdString
mem16 little v = octet v 0 ∷ octet v 1 ∷ []
mem16 big v = octet v 1 ∷ octet v 0 ∷ []

unfoldable pub mem32 : Endian → ℕ → StdString
mem32 little v = octet v 0 ∷ octet v 1 ∷ octet v 2 ∷ octet v 3 ∷ []
mem32 big v = octet v 3 ∷ octet v 2 ∷ octet v 1 ∷ octet v 0 ∷ []

unfoldable pub mem64 : Endian → ℕ → StdString
mem64 little v =
    octet v 0
    ∷ octet v 1
    ∷ octet v 2
    ∷ octet v 3
    ∷ octet v 4
    ∷ octet v 5
    ∷ octet v 6
    ∷ octet v 7
    ∷ []
mem64 big v =
    octet v 7
    ∷ octet v 6
    ∷ octet v 5
    ∷ octet v 4
    ∷ octet v 3
    ∷ octet v 2
    ∷ octet v 1
    ∷ octet v 0
    ∷ []

-- What the host reads from such bytes.
unfoldable pub load16 : Endian → StdString → ℕ
load16 little (a ∷ b ∷ rest) = a + b * 2 ^ 8
load16 big (a ∷ b ∷ rest) = b + a * 2 ^ 8
load16 _ _ = 0

unfoldable pub load32 : Endian → StdString → ℕ
load32 little (a ∷ b ∷ c ∷ d ∷ rest) = a + b * 2 ^ 8 + c * 2 ^ 16 + d * 2 ^ 24
load32 big (a ∷ b ∷ c ∷ d ∷ rest) = d + c * 2 ^ 8 + b * 2 ^ 16 + a * 2 ^ 24
load32 _ _ = 0

unfoldable pub load64 : Endian → StdString → ℕ
load64 little (a ∷ b ∷ c ∷ d ∷ e ∷ f ∷ g ∷ h ∷ rest) =
    a + b * 2 ^ 8 + c * 2 ^ 16 + d * 2 ^ 24 + e * 2 ^ 32 + f * 2 ^ 40 + g * 2 ^ 48 + h * 2 ^ 56
load64 big (a ∷ b ∷ c ∷ d ∷ e ∷ f ∷ g ∷ h ∷ rest) =
    h + g * 2 ^ 8 + f * 2 ^ 16 + e * 2 ^ 24 + d * 2 ^ 32 + c * 2 ^ 40 + b * 2 ^ 48 + a * 2 ^ 56
load64 _ _ = 0
