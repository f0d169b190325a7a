-- ===== src/Types.antt =====
-- include/hakoniwa/pdu/endpoint_types.h and endpoint_types.hpp: error codes, directions, keys.
use hakoniwa_pdu_endpoint.Prelude.{
  ℕ, ◌≡◌, refl, ◌↔◌, Bool, true, false, ◌&&◌, arith, HasEq, ◌==◌, StdString, nat_Eq, str_Eq,
  str_eq_iff, nat_eq_iff,
}

-- `HAKO_PDU_ERR_OK` is `ok`, and so on.
pub data HakoPduErrorType : Type 0 where
  ok invalid_argument out_of_memory io_error no_space busy timeout no_entry : HakoPduErrorType
  file_not_found invalid_json invalid_config not_running unsupported : HakoPduErrorType
  invalid_pdu_key not_owner : HakoPduErrorType

-- `err == HAKO_PDU_ERR_OK`
abbrev pub is_ok : HakoPduErrorType → Bool
is_ok ok = true
is_ok _ = false

pub is_ok→eq : (e : HakoPduErrorType) → is_ok e ≡ true → e ≡ ok
is_ok→eq ok h = refl
is_ok→eq _ h = cc

pub data Direction : Type 0 where
  dir_in dir_out dir_inout : Direction

abbrev pub is_in : Direction → Bool
is_in dir_in = true
is_in _ = false

abbrev pub is_out : Direction → Bool
is_out dir_out = true
is_out _ = false

pub record PduKey : Type 0 where
  pub robot : StdString
  pub pdu : StdString

pub record PduResolvedKey : Type 0 where
  pub robot : StdString
  pub channel_id : ℕ

pub key_eq : PduResolvedKey → PduResolvedKey → Bool
key_eq a b = a.robot == b.robot && a.channel_id == b.channel_id

pub key_eq_iff : (a b : PduResolvedKey) → (key_eq a b ≡ true) ↔ (a ≡ b)
unfolding key_eq
key_eq_iff a b = ground (arith, str_eq_iff a.robot b.robot, nat_eq_iff a.channel_id b.channel_id)

instance abbrev pub key_Eq : HasEq PduResolvedKey
key_Eq = record { equal = key_eq; equal_iff = key_eq_iff }
