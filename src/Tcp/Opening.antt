-- ===== src/Tcp/Opening.antt =====
-- raw_open of TcpComm in src/comm_tcp.cpp. The answer none is an exception of the JSON library.
use hakoniwa_pdu_endpoint.Prelude.{
  ℕ, Bool, true, false, not, ◌||◌, Option, none, some, List, ◌∷◌, if◌then◌else◌, is_some, StdString,
  codes, ◌==◌, str_Eq, map,
}
use hakoniwa_pdu_endpoint.Types.{HakoPduErrorType, ok, busy, io_error, invalid_argument, is_ok}
use hakoniwa_pdu_endpoint.Json.{Json, Loaded, not_found, malformed, parsed, contains, with_text}
use hakoniwa_pdu_endpoint.CommRaw.{PduCommRaw}
use hakoniwa_pdu_endpoint.CommRaw.Version.{configure_version}
use hakoniwa_pdu_endpoint.Sockets.{Posix, stream, parse_direction, resolve_address}
use hakoniwa_pdu_endpoint.Sockets.Options.{assign_all, stream_assignments, value_of, bind}
use hakoniwa_pdu_endpoint.Tcp.{
  Role, client, server, Options, TcpComm, configure_socket_options, raw_close,
}

module _ (J : Json) where
  -- What is assigned from "options", in order; "linger" is an object in it.
  unfoldable pub option_assignments : J.Value → List (Options → Option Options)
  option_assignments opts =
      (λ o. bind J (value_of J J.get_int opts "backlog" o.backlog) (λ v. record o { backlog = v }))
      ∷ (λ o.
          bind J (value_of J J.get_int opts "connect_timeout_ms" o.connect_timeout_ms)
            (λ v. record o { connect_timeout_ms = v }))
      ∷ map (λ f o. bind J (f o.stream) (λ s. record o { stream = s })) (stream_assignments J opts)

  module _ (Address : Type 0) where
    abbrev Configured : Type 0
    Configured = TcpComm Address × Option HakoPduErrorType

    abbrev pub with_options : TcpComm Address → Options × Bool → Configured
    with_options c (o, true) = (record c { options = o }, some ok)
    with_options c (o, false) = (record c { options = o }, none)

    abbrev pub options_member : TcpComm Address → Option J.Value → Configured
    options_member c none = (c, some ok)
    options_member c (some opts) = with_options c (assign_all (option_assignments opts) c.options)

    unfoldable pub configure_options : TcpComm Address → J.Value → Configured
    configure_options c config = options_member c (J.member config (codes "options"))

    unfoldable pub configure_role : TcpComm Address → J.Value → Configured
    configure_role c config =
        with_text J config "role" (c, some invalid_argument) (c, none)
          (λ role.
            if role == codes "server"
            then configure_options (record c { role = server }) config
            else if role == codes "client"
            then configure_options (record c { role = client }) config
            else (c, some invalid_argument))

    abbrev pub after_version :
        TcpComm Address → J.Value → PduCommRaw × HakoPduErrorType → Configured
    after_version c config (raw, err) =
        if is_ok err
        then configure_role (record c { raw = raw }) config
        else (record c { raw = raw }, some err)

    -- The document, but for the address.
    unfoldable pub configure : TcpComm Address → J.Value → Configured
    configure c config =
        with_text J config "protocol" (c, some invalid_argument) (c, none)
          (λ protocol.
            if not (protocol == codes "tcp")
            then (c, some invalid_argument)
            else if not (contains J config "direction") || not (contains J config "role")
            then (c, some invalid_argument)
            else with_text J config "direction" (c, none) (c, none)
                (λ direction.
                  let c' = record c { config_direction = parse_direction direction } in
                  after_version c' config (configure_version J c'.raw config)))

module _ (P : Posix) where
  abbrev Opened : Type 0
  Opened = (P.Kernel × TcpComm P.Address) × Option HakoPduErrorType

  -- Where a call of the system fails, the object is closed.
  abbrev pub or_close : TcpComm P.Address → P.Kernel × Bool → (P.Kernel → Opened) → Opened
  or_close c (k, true) go_on = go_on k
  or_close c (k, false) go_on = (raw_close P (k, c), some io_error)

  abbrev pub configured_socket : P.Kernel × HakoPduErrorType → P.Kernel × Bool
  configured_socket (k, err) = (k, is_ok err)

  abbrev pub then_listen : TcpComm P.Address → ℕ → P.Kernel → Opened
  then_listen c fd k = or_close c (P.listen k fd c.options.backlog) (λ k. ((k, c), some ok))

  abbrev pub then_bind : TcpComm P.Address → P.Address → ℕ → P.Kernel → Opened
  then_bind c address fd k = or_close c (P.bind k fd address) (then_listen c fd)

  unfoldable pub listen_on : TcpComm P.Address → P.Kernel → P.Address → ℕ → Opened
  listen_on c k address fd =
      or_close c (configured_socket (configure_socket_options P fd c.options k))
        (then_bind c address fd)

  abbrev pub with_socket : TcpComm P.Address → P.Address → P.Kernel × Option ℕ → Opened
  with_socket c address (k, none) = ((k, record c { listen_fd = none }), some io_error)
  with_socket c address (k, some fd) = listen_on (record c { listen_fd = some fd }) k address fd

  abbrev pub resolved_local : TcpComm P.Address → P.Kernel → Option (Option P.Address) → Opened
  resolved_local c k none = ((k, c), none)
  resolved_local c k (some none) = ((k, c), some invalid_argument)
  resolved_local c k (some (some address)) = with_socket c address (P.socket k address)

  abbrev pub resolved_remote : TcpComm P.Address → P.Kernel → Option (Option P.Address) → Opened
  resolved_remote c k none = ((k, c), none)
  resolved_remote c k (some none) = ((k, c), some invalid_argument)
  resolved_remote c k (some (some address)) =
      ((k, record c { remote_addr_info = some address }), some ok)

  module _ (J : Json) where
    abbrev pub local_member : TcpComm P.Address → P.Kernel → Option J.Value → Opened
    local_member c k none = ((k, c), some invalid_argument)
    local_member c k (some v) = resolved_local c k (resolve_address P J v stream)

    abbrev pub remote_member : TcpComm P.Address → P.Kernel → Option J.Value → Opened
    remote_member c k none = ((k, c), some invalid_argument)
    remote_member c k (some v) = resolved_remote c k (resolve_address P J v stream)

    unfoldable pub open_role : TcpComm P.Address → P.Kernel → J.Value → Role → Opened
    open_role c k config server = local_member c k (J.member config (codes "local"))
    open_role c k config client = remote_member c k (J.member config (codes "remote"))

    abbrev pub after_configure :
        P.Kernel → J.Value → TcpComm P.Address × Option HakoPduErrorType → Opened
    after_configure k config (c, none) = ((k, c), none)
    after_configure k config (c, some err) =
        if is_ok err then open_role c k config c.role else ((k, c), some err)

    abbrev pub loaded : P.Kernel → TcpComm P.Address → Loaded J.Value → Opened
    loaded k c not_found = ((k, c), some io_error)
    loaded k c malformed = ((k, c), some invalid_argument)
    loaded k c (parsed config) = after_configure k config (configure J P.Address c config)

    unfoldable pub raw_open : P.Kernel × TcpComm P.Address → StdString → Opened
    raw_open (k, c) config_path =
        if is_some c.client_fd || is_some c.listen_fd
        then ((k, c), some busy)
        else loaded k c (J.load config_path)
