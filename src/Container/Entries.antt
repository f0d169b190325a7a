-- ===== src/Container/Entries.antt =====
-- src/endpoint_container.cpp: parse_direction_or_default, load_entries_, find_entry_ and
-- list_endpoint_ids. The text of the JSON library's exception is a parameter.
use hakoniwa_pdu_endpoint.Prelude.{
  Bool, false, not, ◌||◌, ◌⊎◌, inl, inr, Option, none, some, List, [], ◌∷◌, ◌++◌, if◌then◌else◌,
  StdString, str_Eq, ◌==◌, codes, map,
}
use hakoniwa_pdu_endpoint.Types.{
  HakoPduErrorType, ok, no_entry, file_not_found, invalid_json, invalid_config, Direction, dir_in,
  dir_out, dir_inout,
}
use hakoniwa_pdu_endpoint.Json.{
  Json, Loaded, not_found, malformed, parsed, contains, present, is_text, resolve_under_base,
}
use hakoniwa_pdu_endpoint.Container.{EndpointEntry, EndpointContainer, default_dir, fail}

abbrev direction_named : StdString → Direction → Direction
direction_named s default =
    if s == codes "in"
    then dir_in
    else if s == codes "out"
    then dir_out
    else if s == codes "inout"
    then dir_inout
    else default

unfoldable pub find_entry : List EndpointEntry → StdString → Option EndpointEntry
find_entry [] endpoint_id = none
find_entry (e ∷ rest) endpoint_id =
    if e.id == endpoint_id then some e else find_entry rest endpoint_id

unfoldable pub list_endpoint_ids : {Ep : Type 0} → EndpointContainer Ep → List StdString
list_endpoint_ids c = map (λ (e : EndpointEntry). e.id) c.entries

module _ (J : Json) where
  abbrev string_at : J.Value → StdString → Option StdString
  string_at v key = elim (J.member v key) [ none ↦ none | some w ↦ J.get_string w ]

  -- A value that is no string gives the default.
  unfoldable pub parse_direction_or_default : J.Value → Direction → Direction
  parse_direction_or_default ep default = elim (present J ep "direction") [
    | none ↦ default
    | some v ↦ elim (J.get_string v) [ none ↦ default | some s ↦ direction_named s default ]
  ]

  abbrev direction_of : J.Value → Option Direction
  direction_of ep = elim (present J ep "direction") [
    | none ↦ none
    | some v ↦ some (parse_direction_or_default ep default_dir)
  ]

  -- The loop that looks for the node: the entry, or the text of the error.
  pub data Search : Type 0 where
    found : J.Value → Search
    missing : Search
    broken : StdString → Search

  abbrev is_array_at : J.Value → StdString → Bool
  is_array_at v key = elim (J.member v key) [ none ↦ false | some w ↦ J.is_array w ]

  unfoldable pub search_node : StdString → List J.Value → Search
  search_node node_id [] = missing
  search_node node_id (entry ∷ rest) =
      if not (J.is_object entry)
      then broken (codes "Invalid endpoint entry (not an object).")
      else if not (contains J entry "nodeId") || not (is_array_at entry (codes "endpoints"))
      then broken (codes "Endpoint entry missing 'nodeId' or 'endpoints' array.")
      else if is_text J (J.member entry (codes "nodeId")) node_id
      then found entry
      else search_node node_id rest

  abbrev make_entry : StdString → J.Value → StdString → StdString → EndpointEntry
  make_entry base_dir ep id rel = record {
    id = id;
    config_path = resolve_under_base J base_dir rel;
    direction = direction_of ep;
    mode = string_at ep (codes "mode");
  }

  -- The loop over the endpoints of the node: the entries read, and the text of the error if one is
  -- invalid.
  abbrev entry_after_id :
      StdString → J.Value → StdString → Option StdString → EndpointEntry ⊎ StdString
  entry_after_id base_dir ep id none =
      inr (codes "Endpoint entry missing string field 'config_path'. id=" ++ id)
  entry_after_id base_dir ep id (some rel) = inl (make_entry base_dir ep id rel)

  abbrev entry_with_id : StdString → J.Value → Option StdString → EndpointEntry ⊎ StdString
  entry_with_id base_dir ep none = inr (codes "Endpoint entry missing string field 'id'.")
  entry_with_id base_dir ep (some id) =
      entry_after_id base_dir ep id (string_at ep (codes "config_path"))

  unfoldable pub read_entry : StdString → J.Value → EndpointEntry ⊎ StdString
  read_entry base_dir ep =
      if not (J.is_object ep)
      then inr (codes "Invalid endpoint entry (not an object).")
      else entry_with_id base_dir ep (string_at ep (codes "id"))

  abbrev cons_entry :
      EndpointEntry ⊎ StdString
      → List EndpointEntry × Option StdString
      → List EndpointEntry × Option StdString
  cons_entry (inl e) (es, err) = (e ∷ es, err)
  cons_entry (inr err) more = ([], some err)

  unfoldable pub read_entries : StdString → List J.Value → List EndpointEntry × Option StdString
  unfolding read_entry
  read_entries base_dir [] = ([], none)
  read_entries base_dir (ep ∷ rest) =
      cons_entry (read_entry base_dir ep) (read_entries base_dir rest)

  abbrev pub elements_at : J.Value → StdString → List J.Value
  elements_at v key = elim (J.member v key) [ none ↦ [] | some w ↦ J.elements w ]

module _ {Ep : Type 0} (J : Json) (what : StdString → StdString) where
  abbrev stored :
      EndpointContainer Ep
      → List EndpointEntry × Option StdString
      → EndpointContainer Ep × HakoPduErrorType
  stored c (es, none) = (record c { entries = es }, ok)
  stored c (es, some err) = (record c { entries = es; last_error = err }, invalid_config)

  abbrev searched : EndpointContainer Ep → Search J → EndpointContainer Ep × HakoPduErrorType
  searched c (found entry) = stored c (
      read_entries J (J.parent_path c.container_config_path)
        (elements_at J entry (codes "endpoints")))
  searched c missing =
      (fail c (codes "No endpoint entry found for nodeId: " ++ c.node_id), no_entry)
  searched c (broken err) = (fail c err, invalid_config)

  abbrev from_loaded :
      EndpointContainer Ep → Loaded J.Value → EndpointContainer Ep × HakoPduErrorType
  from_loaded c not_found = (
    fail c (codes "Failed to open container config: " ++ c.container_config_path),
    file_not_found,
  )
  from_loaded c malformed =
      (fail c (codes "Invalid JSON: " ++ what c.container_config_path), invalid_json)
  from_loaded c (parsed root) =
      if J.is_array root then searched c (search_node J c.node_id (J.elements root)) else (
        fail c (codes "Missing or invalid 'endpoints' array in container config."),
        invalid_config,
      )

  unfoldable pub load_entries : EndpointContainer Ep → EndpointContainer Ep × HakoPduErrorType
  unfolding search_node read_entries
  load_entries c =
      from_loaded (record c { entries = []; last_error = [] }) (J.load c.container_config_path)
