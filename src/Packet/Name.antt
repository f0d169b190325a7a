-- ===== src/Packet/Name.antt =====
-- The robot name of a packet: what set_robot_name stores and get_robot_name returns.
use hakoniwa_pdu_endpoint.Prelude.{
  ℕ, zero, suc, ◌-◌, ◌^◌, ◌<◌, ◌≡◌, ◌≢◌, refl, ap, ◌∙◌, arith, take-all, [], ◌∷◌, ◌++◌, length,
  take, replicate, All, StdString, append_assoc, length-append, length-take, length-replicate,
}
use hakoniwa_pdu_endpoint.Packet.Wire.{Endian, little, mem16, mem32}
use hakoniwa_pdu_endpoint.Packet.Meta.{
  DataPacket, MetaRequestType, memory, c_string, strncpy_terminated, set_robot_name, zero_meta,
  data_packet, get_robot_name, hako_meta_magic, hako_meta_ver_v2,
}
use hakoniwa_pdu_endpoint.Packet.V2.Header.{IsMeta, sent}

-- A name without NUL bytes.
abbrev pub IsPlain : StdString → Type 0
IsPlain s = All (λ c. c ≢ 0) s

pub c_string-IsPlain : (s : StdString) → IsPlain (c_string s)
unfolding c_string
c_string-IsPlain [] = tt
c_string-IsPlain (c ∷ s) = ground (arith, c_string-IsPlain s)

pub take-IsPlain : (n : ℕ) (s : StdString) → IsPlain s → IsPlain (take n s)
take-IsPlain zero s h = tt
take-IsPlain (suc n) [] h = tt
take-IsPlain (suc n) (c ∷ s) h = (h.0, take-IsPlain n s h.1)

c_string_concat : (s t : StdString) → IsPlain s → c_string (s ++ t) ≡ s ++ c_string t
unfolding c_string
c_string_concat [] t h = refl
c_string_concat (c ∷ s) t h = ground (arith, c_string_concat s t h.1, h.0)

-- A C string ends at the first NUL.
pub c_string-append : (s rest : StdString) → IsPlain s → c_string (s ++ (0 ∷ rest)) ≡ s
unfolding c_string
c_string-append [] rest h = refl
c_string-append (c ∷ s) rest h = ground (arith, c_string-append s rest h.1, h.0)

pub c_string_plain : (s : StdString) → IsPlain s → c_string s ≡ s
unfolding c_string
c_string_plain [] h = refl
c_string_plain (c ∷ s) h = ground (arith, c_string_plain s h.1, h.0)

c_string_padded :
    (s : StdString) (n : ℕ) (rest : StdString)
    → IsPlain s
    → c_string (s ++ (replicate n 0 ++ (0 ∷ rest))) ≡ s
c_string_padded s zero rest h = c_string-append s rest h
c_string_padded s (suc n) rest h = c_string-append s (replicate n 0 ++ (0 ∷ rest)) h

pub length-strncpy_terminated : (name : StdString) → length (strncpy_terminated 127 name) ≡ 128
unfolding strncpy_terminated
length-strncpy_terminated name =
    let s = take 127 (c_string name) in
    let pad : StdString = replicate (127 - length s) 0 in
    let nul : StdString = 0 ∷ [] in
    omega (
      arith,
      length-append s (pad ++ nul),
      length-append pad nul,
      length-replicate {A = ℕ} (127 - length s) 0,
      length-take 127 (c_string name),
    )

get_robot_name_stored :
    (e : Endian) (p : DataPacket) (name : StdString)
    → p.meta.robot_name ≡ strncpy_terminated 127 name
    → get_robot_name e p ≡ take 127 (c_string name)
unfolding get_robot_name memory strncpy_terminated
get_robot_name_stored e p name h =
    simp (h, append_assoc)
      (c_string_padded (take 127 (c_string name)) _ _
        (take-IsPlain 127 (c_string name) (c_string-IsPlain name)))

-- The name that a packet carries is the one it was made with, up to its first NUL and cut to 127
-- bytes.
pub get_robot_name-data_packet :
    (e : Endian) (name : StdString) (channel_id : ℕ) (body : StdString)
    → get_robot_name e (data_packet name channel_id body) ≡ take 127 (c_string name)
get_robot_name-data_packet e name channel_id body =
    get_robot_name_stored e (data_packet name channel_id body) name
      (unfold data_packet set_robot_name in refl)

-- So too in the header that a v2 receiver sees.
pub get_robot_name-sent :
    (e : Endian) (name : StdString) (channel_id : ℕ) (body rest : StdString) (t : MetaRequestType)
    → get_robot_name e (record { meta = sent (data_packet name channel_id body) t; body = rest })
      ≡ take 127 (c_string name)
get_robot_name-sent e name channel_id body rest t =
    get_robot_name_stored e _ name (unfold sent data_packet set_robot_name in refl)

-- What the constructor makes is a header that fits, with nothing in `reserved`.
pub data_packet-IsMeta :
    (name : StdString) (channel_id : ℕ) (body : StdString)
    → IsMeta (data_packet name channel_id body).meta
unfolding data_packet set_robot_name zero_meta
data_packet-IsMeta name channel_id body = record {
  name_size = length-strncpy_terminated name;
  magicno_fits = omega arith;
  version_fits = omega arith;
  reserved_zero = refl;
  flags_fits = omega arith;
  type_fits = omega arith;
  total_fits = omega arith;
  body_fits = omega arith;
  hako_fits = omega arith;
  asset_fits = omega arith;
  real_fits = omega arith;
  channel_fits = omega arith;
  padding_size = omega arith;
}

-- To store a name again that a packet has returned changes nothing.
pub strncpy-take-c_string :
    (name : StdString)
    → strncpy_terminated 127 (take 127 (c_string name)) ≡ strncpy_terminated 127 name
unfolding strncpy_terminated
strncpy-take-c_string name = rw (
  c_string_plain (take 127 (c_string name))
      (take-IsPlain 127 (c_string name) (c_string-IsPlain name)),
  take-all 127 (take 127 (c_string name)) (omega (arith, length-take 127 (c_string name))),
)

-- A received v2 header whose name field holds no NUL, on a little-endian host: the name that is
-- returned runs on over the magic number into the version.
pub get_robot_name_overrun :
    (p : DataPacket)
    → IsPlain p.meta.robot_name
    → p.meta.magicno ≡ hako_meta_magic
    → p.meta.version ≡ hako_meta_ver_v2
    → get_robot_name little p ≡ p.meta.robot_name ++ (0x4F ∷ 0x4B ∷ 0x41 ∷ 0x48 ∷ 0x02 ∷ [])
unfolding get_robot_name memory mem32 mem16 c_string
get_robot_name_overrun p h hm hv =
    c_string_concat p.meta.robot_name _ h ∙ ap (◌++◌ p.meta.robot_name) (simp (hm, hv))

pub channel_id-data_packet :
    (name : StdString) (channel_id : ℕ) (body : StdString)
    → channel_id < 2 ^ 32
    → (data_packet name channel_id body).meta.channel_id ≡ channel_id
unfolding data_packet
channel_id-data_packet name channel_id body h = omega arith

pub body-data_packet :
    (name : StdString) (channel_id : ℕ) (body : StdString)
    → (data_packet name channel_id body).body ≡ body
unfolding data_packet
body-data_packet name channel_id body = refl

pub data_packet-take-c_string :
    (name : StdString) (channel_id : ℕ) (body : StdString)
    → data_packet (take 127 (c_string name)) channel_id body ≡ data_packet name channel_id body
unfolding data_packet set_robot_name
data_packet-take-c_string name channel_id body = rw (strncpy-take-c_string name)
