-- ===== src/Udp/Opening.antt =====
-- raw_open of UdpComm in src/comm_udp.cpp. The answer none is an exception of the JSON library.
use hakoniwa_pdu_endpoint.Prelude.{
  ℕ, Bool, true, false, not, Option, none, some, List, [], ◌∷◌, if◌then◌else◌, is_some, StdString,
  codes, ◌==◌, str_Eq,
}
use hakoniwa_pdu_endpoint.Types.{
  HakoPduErrorType, ok, busy, io_error, invalid_argument, is_ok, is_in, is_out,
}
use hakoniwa_pdu_endpoint.Json.{Json, Loaded, not_found, malformed, parsed, with_text}
use hakoniwa_pdu_endpoint.CommRaw.{PduCommRaw}
use hakoniwa_pdu_endpoint.CommRaw.Version.{configure_version}
use hakoniwa_pdu_endpoint.Sockets.{Posix, datagram, parse_direction, resolve_address}
use hakoniwa_pdu_endpoint.Sockets.Options.{assign_all, value_of, bind, positive}
use hakoniwa_pdu_endpoint.Udp.{
  Options, default_options, UdpComm, World, configure_socket_options, configure_multicast,
  raw_close,
}

module _ (J : Json) where
  abbrev group_assignments : J.Value → Bool → List (Options → Option Options)
  group_assignments mc false = []
  group_assignments mc true =
      (λ o. bind J (value_of J J.get_string mc "group" []) (λ v. record o { multicast_group = v }))
      ∷ (λ o.
          bind J (value_of J J.get_string mc "interface" (codes "0.0.0.0"))
            (λ v. record o { multicast_interface = v }))
      ∷ (λ o. bind J (value_of J J.get_int mc "ttl" 1) (λ v. record o { ttl = v }))
      ∷ []

  -- The three others are read if the first turns multicast on.
  abbrev multicast_assignments : Option J.Value → Options → Option Options
  multicast_assignments none o = some o
  multicast_assignments (some mc) o = elim (value_of J J.get_bool mc "enabled" false) [
    | none ↦ none
    | some enabled ↦
        let (o', done) =
          assign_all (group_assignments mc enabled) (record o { multicast_enabled = enabled }) in
        if done then some o' else none
  ]

  unfoldable pub option_assignments : J.Value → List (Options → Option Options)
  option_assignments opts =
      (λ o.
        bind J (value_of J J.get_int opts "buffer_size" 8192) (λ v. record o { buffer_size = v }))
      ∷ (λ o.
          bind J (value_of J J.get_int opts "timeout_ms" 1000) (λ v. record o { timeout_ms = v }))
      ∷ (λ o. bind J (value_of J J.get_bool opts "blocking" true) (λ v. record o { blocking = v }))
      ∷ (λ o.
          bind J (value_of J J.get_bool opts "reuse_address" true)
            (λ v. record o { reuse_address = v }))
      ∷ (λ o.
          bind J (value_of J J.get_bool opts "broadcast" false) (λ v. record o { broadcast = v }))
      ∷ multicast_assignments (J.member opts (codes "multicast"))
      ∷ []

  abbrev all_assigned : Options × Bool → Option Options
  all_assigned (o, true) = some o
  all_assigned (o, false) = none

  abbrev options_member : Option J.Value → Option Options
  options_member none = some default_options
  options_member (some opts) = all_assigned (assign_all (option_assignments opts) default_options)

  abbrev normalized : Options → Options
  normalized o = if positive o.timeout_ms then o else record o { timeout_ms = 1000 }

  -- None if an exception leaves the function.
  unfoldable pub read_options : J.Value → Option Options
  read_options config = bind J (options_member (J.member config (codes "options"))) normalized

module _ (P : Posix) where
  abbrev pub Answered : Type 0
  Answered = World P × Option HakoPduErrorType

  -- Where a step fails, the object is closed.
  abbrev pub or_close :
      UdpComm P.Address → P.Kernel × HakoPduErrorType → (P.Kernel → Answered) → Answered
  or_close c (k, err) go_on = if is_ok err then go_on k else (raw_close P (k, c), some err)

  abbrev pub bind_answer : P.Kernel × Bool → P.Kernel × HakoPduErrorType
  bind_answer (k, true) = (k, ok)
  bind_answer (k, false) = (k, io_error)

  abbrev pub bind_local : ℕ → P.Kernel → Option P.Address → P.Kernel × HakoPduErrorType
  bind_local fd k none = (k, ok)
  bind_local fd k (some local) = bind_answer (P.bind k fd local)

  abbrev pub kept : Option P.Address → Option P.Address → Option P.Address
  kept none old = old
  kept (some new) old = some new

  abbrev pub with_multicast : UdpComm P.Address → ℕ → Options → P.Kernel → Answered
  with_multicast c fd o k =
      or_close c
        (if o.multicast_enabled then configure_multicast P fd o c.config_direction k else (k, ok))
        (λ k. ((k, c), some ok))

  abbrev pub with_bind :
      UdpComm P.Address → ℕ → Options → Option P.Address → Option P.Address → P.Kernel → Answered
  with_bind c fd o local remote k =
      or_close c (bind_local fd k local)
        (with_multicast (record c { dest_addr = kept remote c.dest_addr }) fd o)

  -- From the reading of the options on; the exception leaves the socket as it is.
  abbrev pub with_options :
      UdpComm P.Address
      → ℕ
      → P.Kernel
      → Option P.Address
      → Option P.Address
      → Option Options
      → Answered
  with_options c fd k local remote none = ((k, c), none)
  with_options c fd k local remote (some o) =
      or_close c (configure_socket_options P fd o k) (with_bind c fd o local remote)

  module _ (J : Json) where
    abbrev pub with_socket :
        UdpComm P.Address
        → J.Value
        → Option P.Address
        → Option P.Address
        → P.Kernel × Option ℕ
        → Answered
    with_socket c config local remote (k, none) =
        ((k, record c { socket_fd = none }), some io_error)
    with_socket c config local remote (k, some fd) =
        with_options (record c { socket_fd = some fd }) fd k local remote (read_options J config)

    abbrev pub with_addresses :
        UdpComm P.Address → P.Kernel → J.Value → Option P.Address → Option P.Address → Answered
    with_addresses c k config (some local) remote =
        with_socket c config (some local) remote (P.socket k local)
    with_addresses c k config none (some remote) =
        with_socket c config none (some remote) (P.socket k remote)
    with_addresses c k config none none = ((k, c), some invalid_argument)

    abbrev pub resolved_remote :
        UdpComm P.Address
        → P.Kernel
        → J.Value
        → Option P.Address
        → Bool
        → Option (Option P.Address)
        → Answered
    resolved_remote c k config local fixed none = ((k, c), none)
    resolved_remote c k config local fixed (some none) = ((k, c), some invalid_argument)
    resolved_remote c k config local fixed (some (some remote)) =
        with_addresses (if fixed then record c { has_fixed_remote = true } else c) k config local
          (some remote)

    -- "remote", which "out" needs and "inout" may have.
    abbrev pub remote_member :
        UdpComm P.Address → P.Kernel → J.Value → Option P.Address → Option J.Value → Answered
    remote_member c k config local none =
        if is_out c.config_direction
        then ((k, c), some invalid_argument)
        else with_addresses c k config local none
    remote_member c k config local (some v) =
        if is_in c.config_direction
        then with_addresses c k config local none
        else resolved_remote c k config local (not (is_out c.config_direction))
            (resolve_address P J v datagram)

    abbrev pub resolved_local :
        UdpComm P.Address → P.Kernel → J.Value → Option (Option P.Address) → Answered
    resolved_local c k config none = ((k, c), none)
    resolved_local c k config (some none) = ((k, c), some invalid_argument)
    resolved_local c k config (some (some local)) =
        remote_member c k config (some local) (J.member config (codes "remote"))

    abbrev pub local_member : UdpComm P.Address → P.Kernel → J.Value → Option J.Value → Answered
    local_member c k config none = ((k, c), some invalid_argument)
    local_member c k config (some v) = resolved_local c k config (resolve_address P J v datagram)

    unfoldable pub open_addresses : UdpComm P.Address → P.Kernel → J.Value → Answered
    open_addresses c k config =
        if is_out c.config_direction
        then remote_member c k config none (J.member config (codes "remote"))
        else local_member c k config (J.member config (codes "local"))

    abbrev pub after_version :
        UdpComm P.Address → P.Kernel → J.Value → PduCommRaw × HakoPduErrorType → Answered
    after_version c k config (raw, err) =
        if is_ok err
        then open_addresses (record c { raw = raw }) k config
        else ((k, record c { raw = raw }), some err)

    unfoldable pub open_config : UdpComm P.Address → P.Kernel → J.Value → Answered
    open_config c k config =
        with_text J config "protocol" ((k, c), some invalid_argument) ((k, c), none)
          (λ protocol.
            if not (protocol == codes "udp")
            then ((k, c), some invalid_argument)
            else with_text J config "direction" ((k, c), some invalid_argument) ((k, c), none)
                (λ direction.
                  let c' = record c { config_direction = parse_direction direction } in
                  after_version c' k config (configure_version J c'.raw config)))

    abbrev pub loaded : UdpComm P.Address → P.Kernel → Loaded J.Value → Answered
    loaded c k not_found = ((k, c), some io_error)
    loaded c k malformed = ((k, c), some invalid_argument)
    loaded c k (parsed config) = open_config c k config

    unfoldable pub raw_open : World P → StdString → Answered
    raw_open (k, c) config_path =
        if is_some c.socket_fd then ((k, c), some busy) else loaded c k (J.load config_path)
