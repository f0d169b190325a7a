-- ===== src/Prelude/Equality.antt =====
-- Boolean equality as an interface: numbers, and the bytes of a `std::string`.
use Prim.Native.Nat.{ℕ}
use Prim.Native.Char.{code}
use Prim.Native.String.{String}
use mathlib.Core.Path.{◌≡◌}
use mathlib.Core.Logic.{◌↔◌}
use mathlib.Core.Bool.{Bool, true, false, ◌&&◌, ◌||◌}
use mathlib.Core.List.{List, [], ◌∷◌}
use native.Mathlib.Omega.{arith}
use hakoniwa_pdu_endpoint.Prelude.Tests.{ltb, nat_eq, nat_eq_iff}

pub record HasEq {ℓ} (A : Type ℓ) : Type ℓ where
  pub equal : A → A → Bool
  pub equal_iff : (a b : A) → (equal a b ≡ true) ↔ (a ≡ b)

infix 50 ◌==◌
abbrev pub ◌==◌ {κ} : {K : Type κ} ⦃eq : HasEq K⦄ → K → K → Bool
◌==◌ ⦃eq⦄ = eq.equal

instance abbrev pub nat_Eq : HasEq ℕ
nat_Eq = record { equal = nat_eq; equal_iff = nat_eq_iff }

-- The bytes of a `std::string`.
abbrev pub StdString : Type 0
StdString = List ℕ

abbrev pub str_eq : StdString → StdString → Bool
str_eq [] [] = true
str_eq (a ∷ s) (b ∷ t) = nat_eq a b && str_eq s t
str_eq _ _ = false

pub str_eq_iff : (s t : StdString) → (str_eq s t ≡ true) ↔ (s ≡ t)
str_eq_iff [] [] = ground arith
str_eq_iff [] (b ∷ t) = ground arith
str_eq_iff (a ∷ s) [] = ground arith
str_eq_iff (a ∷ s) (b ∷ t) = ground (arith, str_eq_iff s t)

instance abbrev pub str_Eq : HasEq StdString
str_Eq = record { equal = str_eq; equal_iff = str_eq_iff }

-- The code points of a text literal: its bytes, as it is ASCII.
abbrev pub codes : String → StdString
codes String.[] = []
codes (String.◌∷◌ c s) = code c ∷ codes s

-- `std::string`'s operator<, byte by byte.
abbrev pub str_lt : StdString → StdString → Bool
str_lt [] [] = false
str_lt [] (b ∷ t) = true
str_lt (a ∷ s) [] = false
str_lt (a ∷ s) (b ∷ t) = ltb a b || nat_eq a b && str_lt s t
