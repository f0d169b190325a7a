-- ===== src/Json.antt =====
-- What the source takes from nlohmann::json and from the file system: neither is part of the
-- repository, so a document and the calls on it are a parameter of every function that reads one.
use hakoniwa_pdu_endpoint.Prelude.{
  ℕ, Bool, true, false, Option, none, some, List, StdString, ◌==◌, str_Eq, is_some, String, codes,
  if◌then◌else◌,
}

-- `std::ifstream ifs(path)` with `ifs >> json`.
pub data Loaded {ℓ} (V : Type ℓ) : Type ℓ where
  not_found : Loaded V
  malformed : Loaded V
  parsed : V → Loaded V

-- `none` of a `get_…` field is the library's exception for a value of another type.
pub record Json : Type 1 where
  pub Value : Type 0
  -- The entry of an object under a key, if there is one.
  pub member : Value → StdString → Option Value
  pub is_null : Value → Bool
  pub is_array : Value → Bool
  pub is_object : Value → Bool
  pub get_string : Value → Option StdString
  -- The bit pattern of a 32-bit `int`.
  pub get_int : Value → Option ℕ
  pub get_size : Value → Option ℕ
  pub get_bool : Value → Option Bool
  -- What a range-based `for` runs over.
  pub elements : Value → List Value
  pub load : StdString → Loaded Value
  -- `std::filesystem`: the directory part of a path, and `base / p` made normal unless absolute.
  pub parent_path : StdString → StdString
  pub is_absolute : StdString → Bool
  pub lexically_normal : StdString → StdString
  pub join : StdString → StdString → StdString

module _ (J : Json) where
  abbrev pub contains : J.Value → String → Bool
  contains v key = is_some (J.member v (codes key))

  -- `v[key]` is null for a missing key, so this is `v.contains(key) && !v[key].is_null()`.
  abbrev pub present : J.Value → String → Option J.Value
  present v key = elim (J.member v (codes key)) [
    | none ↦ none
    | some w ↦ elim (J.is_null w) [ true ↦ none | false ↦ some w ]
  ]

  -- `v == "text"`: a value that is no string differs from every string.
  abbrev pub is_text : Option J.Value → StdString → Bool
  is_text none s = false
  is_text (some v) s = elim (J.get_string v) [ none ↦ false | some t ↦ t == s ]

  abbrev pub got_text {ℓ} : {R : Type ℓ} → Option StdString → R → (StdString → R) → R
  got_text none threw found = threw
  got_text (some s) threw found = found s

  abbrev pub text_member {ℓ} : {R : Type ℓ} → Option J.Value → R → R → (StdString → R) → R
  text_member none missing threw found = missing
  text_member (some v) missing threw found = got_text (J.get_string v) threw found

  -- `contains(key)`, then `at(key).get<std::string>()`: what happens on a missing key, on a value of
  -- another type, and on a text.
  abbrev pub with_text {ℓ} : {R : Type ℓ} → J.Value → String → R → R → (StdString → R) → R
  with_text v key missing threw found = text_member (J.member v (codes key)) missing threw found

  -- What holds in each of the three cases.
  pub with_text-Any {ℓ κ} :
      {R : Type ℓ} (Holds : R → Type κ) (v : J.Value) (key : String) (missing threw : R)
      (found : StdString → R)
      → Holds missing
      → Holds threw
      → ((s : StdString) → Holds (found s))
      → Holds (with_text v key missing threw found)
  with_text-Any {R = R} Holds v key missing threw found m t f = by_member (J.member v (codes key))
    where
      by_text : (o : Option StdString) → Holds (got_text o threw found)
      by_text none = t
      by_text (some s) = f s

      by_member : (o : Option J.Value) → Holds (text_member o missing threw found)
      by_member none = m
      by_member (some w) = by_text (J.get_string w)

  -- The helper of that name in endpoint.hpp, endpoint_container.cpp, endpoint_comm_multiplexer.cpp
  -- and pdu_definition.cpp.
  unfoldable pub resolve_under_base : StdString → StdString → StdString
  resolve_under_base base_dir maybe_rel =
      if J.is_absolute maybe_rel
      then J.lexically_normal maybe_rel
      else J.lexically_normal (J.join base_dir maybe_rel)
