-- ===== src/PduDefinition.antt =====
-- include/hakoniwa/pdu/pdu_definition.hpp and src/pdu_definition.cpp: the table from robot and PDU
-- name to channel id and size, and its loading from JSON.
pub mod Loading
pub mod Lookup
pub mod Precedence
pub mod Writers
use hakoniwa_pdu_endpoint.Prelude.{
  ℕ, Bool, true, false, Option, none, some, List, [], ◌∷◌, if◌then◌else◌, StdString, str_lt, str_Eq,
  nat_eq,
}
use hakoniwa_pdu_endpoint.Prelude.Map.{Map, find, assign_ordered}

pub record PduDef : Type 0 where
  pub type : StdString
  pub org_name : StdString
  pub name : StdString
  pub channel_id : ℕ
  pub pdu_size : ℕ
  pub method_type : StdString

-- robot name -> original PDU name -> definition
abbrev pub PduDefinition : Type 0
PduDefinition = Map StdString (Map StdString PduDef)

abbrev pub robot_map : Option (Map StdString PduDef) → Map StdString PduDef
robot_map none = []
robot_map (some m) = m

-- `pdu_definitions_[robot]`, which makes an empty map for a new robot.
unfoldable pub touch : StdString → PduDefinition → PduDefinition
touch robot defs = assign_ordered str_lt robot (robot_map (find robot defs)) defs

-- `pdu_definitions_[robot_name][def.org_name] = def`
unfoldable pub add_definition : StdString → PduDef → PduDefinition → PduDefinition
add_definition robot def defs =
    assign_ordered str_lt robot
      (assign_ordered str_lt def.org_name def (robot_map (find robot defs))) defs

unfoldable pub resolve : PduDefinition → StdString → StdString → Option PduDef
resolve defs robot pdu_org_name = elim (find robot defs) [
  | none ↦ none
  | some pdus ↦ find pdu_org_name pdus
]

-- The loop over the robot's map.
unfoldable pub find_channel : ℕ → Map StdString PduDef → Option PduDef
find_channel channel [] = none
find_channel channel ((name, def) ∷ rest) =
    if nat_eq def.channel_id channel then some def else find_channel channel rest

-- The overload for a channel id.
unfoldable pub resolve_channel : PduDefinition → StdString → ℕ → Option PduDef
resolve_channel defs robot channel = elim (find robot defs) [
  | none ↦ none
  | some pdus ↦ find_channel channel pdus
]

unfoldable pub get_pdu_size : PduDefinition → StdString → StdString → ℕ
get_pdu_size defs robot name = elim (resolve defs robot name) [ none ↦ 0 | some def ↦ def.pdu_size ]

-- -1, as the bit pattern of 32 bits.
abbrev pub no_channel : ℕ
no_channel = 0xFFFF_FFFF

unfoldable pub get_pdu_channel_id : PduDefinition → StdString → StdString → ℕ
get_pdu_channel_id defs robot name = elim (resolve defs robot name) [
  | none ↦ no_channel
  | some def ↦ def.channel_id
]
