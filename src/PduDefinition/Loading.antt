-- ===== src/PduDefinition/Loading.antt =====
-- PduDefinition::load, load_legacy_ and load_compact_ of src/pdu_definition.cpp. What a load has
-- stored before it fails or throws stays stored, so an action returns the table in any case.
use hakoniwa_pdu_endpoint.Prelude.{
  ℕ, Bool, true, false, Option, none, some, List, [], ◌∷◌, if◌then◌else◌, StdString, str_lt, str_Eq,
  codes, String, is_some,
}
use hakoniwa_pdu_endpoint.Prelude.Map.{Map, find, assign_ordered}
use hakoniwa_pdu_endpoint.Json.{
  Json, Loaded, not_found, malformed, parsed, contains, resolve_under_base,
}
use hakoniwa_pdu_endpoint.PduDefinition.{PduDef, PduDefinition, robot_map, touch, add_definition}

-- `done false` is `return false`, and `threw` an exception of the JSON library.
pub data Outcome {ℓ} (A : Type ℓ) : Type ℓ where
  done : A → Outcome A
  failed : Outcome A
  threw : Outcome A

abbrev pub Load : Type 0 → Type 0
Load A = PduDefinition → PduDefinition × Outcome A

abbrev pub pure : {A : Type 0} → A → Load A
pure a defs = (defs, done a)

abbrev pub then_do :
    {A B : Type 0} → PduDefinition × Outcome A → (A → Load B) → PduDefinition × Outcome B
then_do (defs, done a) f = f a defs
then_do (defs, failed) f = (defs, failed)
then_do (defs, threw) f = (defs, threw)

infixl 5 ◌>>=◌ ◌>>◌
abbrev pub ◌>>=◌ : {A B : Type 0} → Load A → (A → Load B) → Load B
◌>>=◌ m f defs = then_do (m defs) f

abbrev pub ◌>>◌ : {B : Type 0} → Load (Unit {0}) → Load B → Load B
m >> k = m >>= λ _. k

-- A value that is missing or of another type throws.
abbrev pub or_throw : {A : Type 0} → Option A → Load A
or_throw none defs = (defs, threw)
or_throw (some a) defs = (defs, done a)

abbrev pub store : (PduDefinition → PduDefinition) → Load (Unit {0})
store f defs = (f defs, done tt)

-- Whether the robot's map has the name already.
abbrev pub known : StdString → StdString → PduDefinition → Bool
known robot org_name defs = is_some (find org_name (robot_map (find robot defs)))

abbrev pub Sets : Type 0
Sets = Map StdString (List PduDef)

-- `emplace` keeps what is there under the key.
abbrev pub emplace : StdString → List PduDef → Sets → Sets
emplace id defs sets = elim (find id sets) [
  | none ↦ assign_ordered str_lt id defs sets
  | some old ↦ sets
]

unfoldable pub add_all : StdString → List PduDef → PduDefinition → PduDefinition
add_all robot [] table = table
add_all robot (def ∷ rest) table = add_all robot rest (add_definition robot def table)

abbrev use_set : StdString → Option (List PduDef) → Load (Unit {0})
use_set robot none table = (table, failed)
use_set robot (some defs) table = (add_all robot defs table, done tt)

module _ (J : Json) where
  -- `v.at(key)`, and with `get` of a string and of the two numbers.
  abbrev pub at : J.Value → String → Load J.Value
  at v key = or_throw (J.member v (codes key))

  abbrev pub at_string : J.Value → String → Load StdString
  at_string v key = do w ← at v key; or_throw (J.get_string w)

  abbrev pub at_channel : J.Value → String → Load ℕ
  at_channel v key = do w ← at v key; or_throw (J.get_int w)

  abbrev pub at_size : J.Value → String → Load ℕ
  at_size v key = do w ← at v key; or_throw (J.get_size w)

  -- One entry of `shm_pdu_readers`; `name` and `method_type` stay empty.
  unfoldable pub legacy_def : J.Value → Load PduDef
  legacy_def v = do
    type ← at_string v "type"
    org_name ← at_string v "org_name"
    channel_id ← at_channel v "channel_id"
    pdu_size ← at_size v "pdu_size"
    pure (record {
      type = type;
      org_name = org_name;
      name = [];
      channel_id = channel_id;
      pdu_size = pdu_size;
      method_type = [];
    })

  unfoldable pub parse_pdu_list : StdString → List J.Value → Load (Unit {0})
  unfolding legacy_def
  parse_pdu_list robot [] = pure tt
  parse_pdu_list robot (v ∷ rest) = do
    def ← legacy_def v
    store (add_definition robot def)
    parse_pdu_list robot rest

  abbrev pub new_writer : Bool → StdString → J.Value → Load (Unit {0})
  new_writer true robot v = pure tt
  new_writer false robot v = do def ← legacy_def v; store (add_definition robot def)

  -- One entry of `shm_pdu_writers`: a name that is known is passed over.
  unfoldable pub parse_writer : StdString → J.Value → Load (Unit {0})
  unfolding legacy_def
  parse_writer robot v = do
    org_name ← at_string v "org_name"
    store (touch robot)
    λ defs. new_writer (known robot org_name defs) robot v defs

  unfoldable pub parse_writers : StdString → List J.Value → Load (Unit {0})
  unfolding parse_writer
  parse_writers robot [] = pure tt
  parse_writers robot (v ∷ rest) = do parse_writer robot v; parse_writers robot rest

  abbrev if_there : Option J.Value → (List J.Value → Load (Unit {0})) → Load (Unit {0})
  if_there none f = pure tt
  if_there (some v) f = f (J.elements v)

  unfoldable pub legacy_robots : List J.Value → Load (Unit {0})
  legacy_robots [] = pure tt
  legacy_robots (robot_def ∷ rest) = do
    robot ← at_string robot_def "name"
    if_there (J.member robot_def (codes "shm_pdu_readers")) (parse_pdu_list robot)
    if_there (J.member robot_def (codes "shm_pdu_writers")) (parse_writers robot)
    legacy_robots rest

  unfoldable pub load_legacy : J.Value → Load (Unit {0})
  load_legacy config = do robots ← at config "robots"; legacy_robots (J.elements robots)

  -- One entry of a PDU types file.
  unfoldable pub compact_def : J.Value → Load PduDef
  compact_def v = do
    channel_id ← at_channel v "channel_id"
    pdu_size ← at_size v "pdu_size"
    org_name ← at_string v "name"
    type ← at_string v "type"
    pure (record {
      type = type;
      org_name = org_name;
      name = org_name;
      channel_id = channel_id;
      pdu_size = pdu_size;
      method_type = [];
    })

  unfoldable pub compact_defs : List J.Value → Load (List PduDef)
  unfolding compact_def
  compact_defs [] = pure []
  compact_defs (v ∷ rest) = do def ← compact_def v; defs ← compact_defs rest; pure (def ∷ defs)

  abbrev types_file : Loaded J.Value → Load (List PduDef)
  types_file not_found defs = (defs, failed)
  types_file malformed defs = (defs, failed)
  types_file (parsed v) defs =
      if J.is_array v then compact_defs (J.elements v) defs else (defs, failed)

  unfoldable pub load_sets : StdString → List J.Value → Sets → Load Sets
  load_sets base_dir [] sets = pure sets
  load_sets base_dir (entry ∷ rest) sets = do
    set_id ← at_string entry "id"
    raw_path ← at_string entry "path"
    defs ← types_file (J.load (resolve_under_base J base_dir raw_path))
    load_sets base_dir rest (emplace set_id defs sets)

  unfoldable pub compact_robots : List J.Value → Sets → Load (Unit {0})
  unfolding add_all
  compact_robots [] sets = pure tt
  compact_robots (robot_def ∷ rest) sets = do
    robot ← at_string robot_def "name"
    set_id ← at_string robot_def "pdutypes_id"
    use_set robot (find set_id sets)
    compact_robots rest sets

  unfoldable pub load_compact : J.Value → StdString → Load (Unit {0})
  load_compact config base_dir = do
    paths ← at config "paths"
    sets ← load_sets base_dir (J.elements paths) []
    robots ← at config "robots"
    compact_robots (J.elements robots) sets

  -- Whatever went wrong, the caller is told `false`.
  abbrev told : PduDefinition × Outcome (Unit {0}) → PduDefinition × Bool
  told (defs, done _) = (defs, true)
  told (defs, failed) = (defs, false)
  told (defs, threw) = (defs, false)

  unfoldable pub load : StdString → PduDefinition → PduDefinition × Bool
  unfolding load_legacy load_compact
  load pdudef_path table = elim (J.load pdudef_path) [
    | not_found ↦ (table, false)
    | malformed ↦ (table, false)
    | parsed config ↦
        if contains J config "paths"
        then told (load_compact config (J.parent_path pdudef_path) table)
        else told (load_legacy config table)
  ]
