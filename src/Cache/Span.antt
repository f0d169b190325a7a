-- ===== src/Cache/Span.antt =====
-- The out-parameters of `read`: the caller's span and its `received_size`.
use hakoniwa_pdu_endpoint.Prelude.{
  ℕ, ◌≤◌, ◌≡◌, arith, List, ◌++◌, length, take, drop, length-append, length-drop, take-append, refl,
  drop-append,
}
use hakoniwa_pdu_endpoint.Types.{HakoPduErrorType}

abbrev pub Bytes : Type 0
Bytes = List ℕ

-- What a caller of `read` or `recv` holds afterwards.
pub record ReadResult : Type 0 where
  pub errcode : HakoPduErrorType
  pub bytes : Bytes
  pub received_size : ℕ

-- `std::copy(src.begin(), src.end(), dst.begin())`, for a `dst` that is long enough.
pub copy : Bytes → Bytes → Bytes
copy src dst = src ++ drop (length src) dst

pub length-copy : (src dst : Bytes) → length src ≤ length dst → length (copy src dst) ≡ length dst
unfolding copy
length-copy src dst h =
    omega (arith, length-append src (drop (length src) dst), length-drop (length src) dst)

-- The front of the span is the source, and what lies behind it is as before.
pub take-copy : (src dst : Bytes) → take (length src) (copy src dst) ≡ src
unfolding copy
take-copy src dst = take-append (length src) src (drop (length src) dst) refl

pub drop-copy : (src dst : Bytes) → drop (length src) (copy src dst) ≡ drop (length src) dst
unfolding copy
drop-copy src dst = drop-append (length src) src (drop (length src) dst) refl
