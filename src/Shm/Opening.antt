-- ===== src/Shm/Opening.antt =====
-- create_pdu_lchannels and open of PduCommShm in src/comm_shm.cpp. An exception of the JSON library ends
-- them with INVALID_JSON.
use hakoniwa_pdu_endpoint.Prelude.{
  Bool, true, false, not, Option, none, some, List, [], ◌∷◌, ◌++◌, if◌then◌else◌, StdString, codes,
  ◌==◌, str_Eq,
}
use hakoniwa_pdu_endpoint.Types.{
  HakoPduErrorType, ok, io_error, invalid_config, invalid_json, file_not_found, is_ok,
  PduResolvedKey,
}
use hakoniwa_pdu_endpoint.Json.{Json, Loaded, not_found, malformed, parsed, with_text}
use hakoniwa_pdu_endpoint.PduDefinition.{PduDefinition, PduDef, resolve}
use hakoniwa_pdu_endpoint.Shm.{
  HakoCore, PduCommShmImp, poll_impl, callback_impl, PduCommShm, create_pdu_lchannel,
}

module _ (J : Json) where
  abbrev with_impl_type : J.Value → StdString → Option PduCommShmImp × HakoPduErrorType
  with_impl_type config impl_type =
      if impl_type == codes "callback"
      then (some callback_impl, ok)
      else if impl_type == codes "poll"
      then with_text J config "asset_name" (none, invalid_config) (none, invalid_json)
          (λ asset_name. (
            some (
                poll_impl
                  (record { asset_name = asset_name; next_event_id = 0; poll_entries = [] })),
            ok,
          ))
      else (none, invalid_config)

  -- Where the PDU definition is set.
  unfoldable pub init_impl_from_config :
      Option PduCommShmImp → J.Value → Option PduCommShmImp × HakoPduErrorType
  init_impl_from_config (some impl) config = (some impl, ok)
  init_impl_from_config none config =
      with_text J config "impl_type" (none, invalid_config) (none, invalid_json)
        (with_impl_type config)

  abbrev robots_of : Option J.Value → Option J.Value
  robots_of none = none
  robots_of (some io) = J.member io (codes "robots")

  abbrev elements_of : Option J.Value → Option (List J.Value)
  elements_of none = none
  elements_of (some v) = some (J.elements v)

  -- What the keys are so far, and the error that ends the loops.
  abbrev Keys : Type 0
  Keys = List PduResolvedKey × HakoPduErrorType

  abbrev push_key : StdString → List PduResolvedKey → Option PduDef → Keys
  push_key robot keys none = (keys, invalid_config)
  push_key robot keys (some def) =
      (keys ++ (record { robot = robot; channel_id = def.channel_id } ∷ []), ok)

  abbrev notify_entry :
      PduDefinition → StdString → List PduResolvedKey → J.Value → Option Bool → Keys
  notify_entry defs robot keys pdu_entry none = (keys, invalid_json)
  notify_entry defs robot keys pdu_entry (some false) = (keys, ok)
  notify_entry defs robot keys pdu_entry (some true) =
      with_text J pdu_entry "name" (keys, invalid_json) (keys, invalid_json)
        (λ pdu_name. push_key robot keys (resolve defs robot pdu_name))

  abbrev bool_of : Option J.Value → Option Bool
  bool_of none = none
  bool_of (some v) = J.get_bool v

  abbrev unless_error : Keys → (List PduResolvedKey → Keys) → Keys
  unless_error (keys, err) go_on = if is_ok err then go_on keys else (keys, err)

  unfoldable pub notify_entries :
      PduDefinition → StdString → List J.Value → List PduResolvedKey → Keys
  notify_entries defs robot [] keys = (keys, ok)
  notify_entries defs robot (pdu_entry ∷ rest) keys =
      unless_error
        (notify_entry defs robot keys pdu_entry
          (bool_of (J.member pdu_entry (codes "notify_on_recv"))))
        (notify_entries defs robot rest)

  abbrev robot_entries :
      PduDefinition → StdString → List PduResolvedKey → Option (List J.Value) → Keys
  robot_entries defs robot keys none = (keys, invalid_json)
  robot_entries defs robot keys (some entries) = notify_entries defs robot entries keys

  unfoldable pub notify_robots : PduDefinition → List J.Value → List PduResolvedKey → Keys
  notify_robots defs [] keys = (keys, ok)
  notify_robots defs (robot_def ∷ rest) keys =
      unless_error
        (with_text J robot_def "name" (keys, invalid_json) (keys, invalid_json)
          (λ robot. robot_entries defs robot keys (elements_of (J.member robot_def (codes "pdu")))))
        (notify_robots defs rest)

  abbrev notified : PduCommShm → Keys → PduCommShm × HakoPduErrorType
  notified c (keys, err) = (record c { recv_notify_keys = keys }, err)

  abbrev with_robots : PduCommShm → PduDefinition → Option J.Value → PduCommShm × HakoPduErrorType
  with_robots c defs none = (c, invalid_config)
  with_robots c defs (some robots) = notified c (notify_robots defs (J.elements robots) [])

  abbrev after_init :
      PduCommShm
      → Option PduCommShmImp × HakoPduErrorType
      → (PduCommShm → PduCommShm × HakoPduErrorType)
      → PduCommShm × HakoPduErrorType
  after_init c (impl, err) go_on =
      if is_ok err then go_on (record c { impl = impl }) else (record c { impl = impl }, err)

  unfoldable pub open_config : PduCommShm → PduDefinition → J.Value → PduCommShm × HakoPduErrorType
  open_config c defs config =
      with_text J config "protocol" (c, invalid_config) (c, invalid_json)
        (λ protocol.
          if not (protocol == codes "shm")
          then (c, invalid_config)
          else after_init c (init_impl_from_config c.impl config)
              (λ c'. with_robots c' defs (robots_of (J.member config (codes "io")))))

  abbrev loaded : PduCommShm → PduDefinition → Loaded J.Value → PduCommShm × HakoPduErrorType
  loaded c defs not_found = (c, file_not_found)
  loaded c defs malformed = (c, invalid_json)
  loaded c defs (parsed config) = open_config c defs config

  abbrev with_definition :
      PduCommShm → StdString → Option PduDefinition → PduCommShm × HakoPduErrorType
  with_definition c config_path none = (c, invalid_config)
  with_definition c config_path (some defs) = loaded c defs (J.load config_path)

  unfoldable pub open_shm : PduCommShm → StdString → PduCommShm × HakoPduErrorType
  open_shm c config_path = with_definition c config_path c.pdu_def

  module _ (H : HakoCore) where
    abbrev created : H.State × Bool → H.State × HakoPduErrorType
    created (s, true) = (s, ok)
    created (s, false) = (s, io_error)

    abbrev create_def :
        H.State → PduCommShmImp → StdString → Option PduDef → H.State × HakoPduErrorType
    create_def s impl robot none = (s, invalid_config)
    create_def s impl robot (some def) =
        created (create_pdu_lchannel H s impl robot def.channel_id def.pdu_size)

    abbrev proceed :
        H.State × HakoPduErrorType
        → (H.State → H.State × HakoPduErrorType)
        → H.State × HakoPduErrorType
    proceed (s, err) go_on = if is_ok err then go_on s else (s, err)

    unfoldable pub create_entries :
        PduDefinition
        → PduCommShmImp
        → StdString
        → List J.Value
        → H.State
        → H.State × HakoPduErrorType
    create_entries defs impl robot [] s = (s, ok)
    create_entries defs impl robot (pdu_entry ∷ rest) s =
        proceed
          (with_text J pdu_entry "name" (s, invalid_json) (s, invalid_json)
            (λ pdu_name. create_def s impl robot (resolve defs robot pdu_name)))
          (create_entries defs impl robot rest)

    abbrev create_of :
        PduDefinition
        → PduCommShmImp
        → StdString
        → H.State
        → Option (List J.Value)
        → H.State × HakoPduErrorType
    create_of defs impl robot s none = (s, invalid_json)
    create_of defs impl robot s (some entries) = create_entries defs impl robot entries s

    unfoldable pub create_robots :
        PduDefinition → PduCommShmImp → List J.Value → H.State → H.State × HakoPduErrorType
    create_robots defs impl [] s = (s, ok)
    create_robots defs impl (robot_def ∷ rest) s =
        proceed
          (with_text J robot_def "name" (s, invalid_json) (s, invalid_json)
            (λ robot. create_of defs impl robot s (elements_of (J.member robot_def (codes "pdu")))))
          (create_robots defs impl rest)

    abbrev Result : Type 0
    Result = H.State × PduCommShm × HakoPduErrorType

    abbrev created_all : PduCommShm → H.State × HakoPduErrorType → Result
    created_all c (s, err) = (s, c, err)

    abbrev channels_of :
        H.State → PduCommShm → PduDefinition → Option J.Value → Option PduCommShmImp → Result
    channels_of s c defs (some robots) (some impl) =
        created_all c (create_robots defs impl (J.elements robots) s)
    channels_of s c defs _ _ = (s, c, invalid_config)

    abbrev channels_after :
        H.State
        → PduCommShm
        → PduDefinition
        → J.Value
        → Option PduCommShmImp × HakoPduErrorType
        → Result
    channels_after s c defs config (impl, err) =
        if is_ok err
        then channels_of s (record c { impl = impl }) defs
            (robots_of (J.member config (codes "io"))) impl
        else (s, record c { impl = impl }, err)

    unfoldable pub create_config : H.State → PduCommShm → PduDefinition → J.Value → Result
    create_config s c defs config =
        with_text J config "protocol" (s, c, invalid_config) (s, c, invalid_json)
          (λ protocol.
            if not (protocol == codes "shm")
            then (s, c, invalid_config)
            else channels_after s c defs config (init_impl_from_config c.impl config))

    abbrev create_loaded : H.State → PduCommShm → PduDefinition → Loaded J.Value → Result
    create_loaded s c defs not_found = (s, c, file_not_found)
    create_loaded s c defs malformed = (s, c, invalid_json)
    create_loaded s c defs (parsed config) = create_config s c defs config

    abbrev create_with : H.State → PduCommShm → StdString → Option PduDefinition → Result
    create_with s c config_path none = (s, c, invalid_config)
    create_with s c config_path (some defs) = create_loaded s c defs (J.load config_path)

    unfoldable pub create_pdu_lchannels : H.State → PduCommShm → StdString → Result
    create_pdu_lchannels s c config_path = create_with s c config_path c.pdu_def
