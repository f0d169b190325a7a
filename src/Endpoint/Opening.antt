-- ===== src/Endpoint/Opening.antt =====
-- include/hakoniwa/pdu/endpoint.hpp: create_pdu_lchannels and open, with their helpers. What was set
-- before an error stays set.
use hakoniwa_pdu_endpoint.Prelude.{
  Bool, true, false, Option, none, some, [], if◌then◌else◌, StdString,
}
use hakoniwa_pdu_endpoint.Types.{
  HakoPduErrorType, ok, file_not_found, invalid_json, invalid_config, is_ok,
}
use hakoniwa_pdu_endpoint.Json.{
  Json, Loaded, not_found, malformed, parsed, present, resolve_under_base,
}
use hakoniwa_pdu_endpoint.PduDefinition.{PduDefinition}
use hakoniwa_pdu_endpoint.PduDefinition.Loading.{load}
use hakoniwa_pdu_endpoint.Cache.Dispatch.{PduCache, create_pdu_cache, open_cache}
use hakoniwa_pdu_endpoint.Endpoint.{Endpoint}
use hakoniwa_pdu_endpoint.Endpoint.Comm.{PduComm, create_pdu_comm}

-- The next step runs after a step that returned OK.
abbrev pub and_then :
    {A : Type 0} → A × HakoPduErrorType → (A → A × HakoPduErrorType) → A × HakoPduErrorType
and_then (a, err) next = if is_ok err then next a else (a, err)

module _ (J : Json) (C : PduComm) where
  abbrev Ep : Type 0
  Ep = Endpoint C.Comm

  abbrev loaded_into : Ep → PduDefinition × Bool → Ep × HakoPduErrorType
  loaded_into ep (table, loaded) =
      (record ep { pdu_def = some table }, if loaded then ok else invalid_config)

  -- The new table is in place before its path is read, which throws if it is no string.
  abbrev load_new : StdString → Ep → Option StdString → Ep × HakoPduErrorType
  load_new base_dir ep none = (record ep { pdu_def = some [] }, invalid_json)
  load_new base_dir ep (some path) = loaded_into ep (load J (resolve_under_base J base_dir path) [])

  unfoldable pub load_pdu_definition_if_needed :
      J.Value → StdString → Bool → Ep → Ep × HakoPduErrorType
  load_pdu_definition_if_needed config base_dir required ep =
      elim (present J config "pdu_def_path") [
        | none ↦ (ep, if required then invalid_config else ok)
        | some v ↦ elim ep.pdu_def [
          | some table ↦ (ep, ok)
          | none ↦ load_new base_dir ep (J.get_string v)
        ]
      ]

  abbrev opened_cache : Ep → PduCache × HakoPduErrorType → Ep × HakoPduErrorType
  opened_cache ep (cache, err) = (record ep { cache = some cache }, err)

  -- A factory that fails leaves the null pointer.
  abbrev open_new_cache : Ep → StdString → Option PduCache → Ep × HakoPduErrorType
  open_new_cache ep path none = (record ep { cache = none }, invalid_config)
  open_new_cache ep path (some cache) = opened_cache ep (open_cache J cache path)

  abbrev cache_at : StdString → Ep → Option StdString → Ep × HakoPduErrorType
  cache_at base_dir ep none = (ep, invalid_json)
  cache_at base_dir ep (some path) =
      let resolved = resolve_under_base J base_dir path in
      open_new_cache ep resolved (create_pdu_cache J resolved)

  unfoldable pub open_cache_part : J.Value → StdString → Ep → Ep × HakoPduErrorType
  open_cache_part config base_dir ep = elim (present J config "cache") [
    | none ↦ (ep, invalid_config)
    | some v ↦ cache_at base_dir ep (J.get_string v)
  ]

  abbrev with_definition : Option PduDefinition → C.Comm → C.Comm
  with_definition none comm = comm
  with_definition (some table) comm = C.set_pdu_definition comm table

  abbrev opened_comm : Ep → C.Comm × HakoPduErrorType → Ep × HakoPduErrorType
  opened_comm ep (comm, err) = (record ep { comm = some comm }, err)

  abbrev open_this_comm : Ep → StdString → Option C.Comm → Ep × HakoPduErrorType
  open_this_comm ep path none = (ep, invalid_config)
  open_this_comm ep path (some comm) =
      opened_comm ep (C.open_comm (with_definition ep.pdu_def comm) path)

  -- A comm that was injected or made before is kept.
  abbrev comm_or_new : Option C.Comm → StdString → Option C.Comm
  comm_or_new (some comm) path = some comm
  comm_or_new none path = create_pdu_comm J C path

  abbrev comm_at : StdString → Ep → Option StdString → Ep × HakoPduErrorType
  comm_at base_dir ep none = (ep, invalid_json)
  comm_at base_dir ep (some path) =
      let resolved = resolve_under_base J base_dir path in
      open_this_comm ep resolved (comm_or_new ep.comm resolved)

  unfoldable pub open_comm_part : J.Value → StdString → Ep → Ep × HakoPduErrorType
  open_comm_part config base_dir ep = elim (present J config "comm") [
    | none ↦ (ep, ok)
    | some v ↦ comm_at base_dir ep (J.get_string v)
  ]

  abbrev callback_on : Option C.Comm → Option C.Comm
  callback_on none = none
  callback_on (some comm) = some (C.set_on_recv_callback comm true)

  abbrev pub set_callback : Ep → Ep × HakoPduErrorType
  set_callback ep = (record ep { comm = callback_on ep.comm }, ok)

  unfoldable pub open_loaded : Ep → StdString → Loaded J.Value → Ep × HakoPduErrorType
  unfolding load_pdu_definition_if_needed open_cache_part open_comm_part
  open_loaded ep base_dir not_found = (ep, file_not_found)
  open_loaded ep base_dir malformed = (ep, invalid_json)
  open_loaded ep base_dir (parsed config) =
      let with_def = load_pdu_definition_if_needed config base_dir false ep in
      let with_cache = and_then with_def (open_cache_part config base_dir) in
      let with_comm = and_then with_cache (open_comm_part config base_dir) in
      and_then with_comm set_callback

  unfoldable pub open_endpoint : Ep → StdString → Ep × HakoPduErrorType
  unfolding open_loaded
  open_endpoint ep path = open_loaded ep (J.parent_path path) (J.load path)

  abbrev create_channels_of : Ep → StdString → Option C.Comm → Ep × HakoPduErrorType
  create_channels_of ep path none = (record ep { comm = none }, invalid_config)
  create_channels_of ep path (some comm) =
      opened_comm ep (C.create_channels (with_definition ep.pdu_def comm) path)

  abbrev channels_at : StdString → Ep → Option StdString → Ep × HakoPduErrorType
  channels_at base_dir ep none = (ep, invalid_json)
  channels_at base_dir ep (some path) =
      let resolved = resolve_under_base J base_dir path in
      create_channels_of ep resolved (create_pdu_comm J C resolved)

  unfoldable pub channels_part : J.Value → StdString → Ep → Ep × HakoPduErrorType
  channels_part config base_dir ep = elim (present J config "comm") [
    | none ↦ (ep, invalid_config)
    | some v ↦ channels_at base_dir ep (J.get_string v)
  ]

  unfoldable pub create_pdu_lchannels : Ep → StdString → Ep × HakoPduErrorType
  unfolding load_pdu_definition_if_needed channels_part
  create_pdu_lchannels ep path = elim (J.load path) [
    | not_found ↦ (ep, file_not_found)
    | malformed ↦ (ep, invalid_json)
    | parsed config ↦
        let base_dir = J.parent_path path in
        and_then (load_pdu_definition_if_needed config base_dir true ep)
          (channels_part config base_dir)
  ]
