-- ===== src/Udp/Outcome.antt =====
-- The descriptors that raw_open of UdpComm in src/comm_udp.cpp leaves open.
use hakoniwa_pdu_endpoint.Prelude.{
  ℕ, ◌≡◌, refl, ◌∙◌, inl, inr, Bool, true, false, not, Option, none, some, if◌then◌else◌, if-Any,
  is_some, StdString, codes, ◌==◌, str_Eq,
}
use hakoniwa_pdu_endpoint.Types.{HakoPduErrorType, ok, is_ok, is_in, is_out}
use hakoniwa_pdu_endpoint.Json.{Json, Loaded, not_found, malformed, parsed, with_text-Any}
use hakoniwa_pdu_endpoint.CommRaw.{PduCommRaw}
use hakoniwa_pdu_endpoint.CommRaw.Version.{configure_version}
use hakoniwa_pdu_endpoint.Sockets.{Posix, datagram, resolve_address, parse_direction}
use hakoniwa_pdu_endpoint.Sockets.Descriptors.{Opened, IsTable}
use hakoniwa_pdu_endpoint.Udp.{Options, UdpComm, configure_socket_options, configure_multicast}
use hakoniwa_pdu_endpoint.Udp.Released.{
  SocketOutcome, Holding, or_close-SocketOutcome, configure_socket_options_kept, bind_local_kept,
  configure_multicast_kept,
}
use hakoniwa_pdu_endpoint.Udp.Opening.{
  bind_local, kept, with_multicast, with_bind, with_options, with_socket, with_addresses,
  resolved_remote, remote_member, resolved_local, local_member, open_addresses, after_version,
  open_config, loaded, raw_open, read_options,
}

module _ (P : Posix) (T : IsTable P) where
  with_multicast-SocketOutcome :
      (k k' : P.Kernel) (new : ℕ) (c : UdpComm P.Address) (o : Options)
      → c.socket_fd ≡ some new
      → T.is_open k new ≡ false
      → Holding P T k new k'
      → SocketOutcome P T k (with_multicast P c new o k')
  unfolding SocketOutcome
  with_multicast-SocketOutcome k k' new c o h fresh holding =
      or_close-SocketOutcome P T k new c
        (if o.multicast_enabled
          then configure_multicast P new o c.config_direction k'
          else (k', ok))
        (λ k2. ((k2, c), some ok)) h fresh
        (if-Any (λ (r : P.Kernel × HakoPduErrorType). Holding P T k new r.0) o.multicast_enabled _ _
          (λ fd. configure_multicast_kept P T k' new o c.config_direction fd ∙ holding fd) holding)
        (λ k2 h2. inr (inl refl, (new, h, h2)))

  with_options-SocketOutcome :
      (k k' : P.Kernel) (new : ℕ) (c : UdpComm P.Address) (local remote : Option P.Address)
      (o : Option Options)
      → c.socket_fd ≡ some new
      → T.is_open k new ≡ false
      → Holding P T k new k'
      → SocketOutcome P T k (with_options P c new k' local remote o)
  unfolding SocketOutcome
  with_options-SocketOutcome k k' new c local remote none h fresh holding =
      inr (inr refl, (new, h, holding))
  with_options-SocketOutcome k k' new c local remote (some o) h fresh holding =
      or_close-SocketOutcome P T k new c (configure_socket_options P new o k')
        (with_bind P c new o local remote) h fresh
        (λ fd. configure_socket_options_kept P T k' new o fd ∙ holding fd)
        (λ k1 h1.
          or_close-SocketOutcome P T k new c (bind_local P new k1 local)
            (with_multicast P (record c { dest_addr = kept P remote c.dest_addr }) new o) h fresh
            (λ fd. bind_local_kept P T k1 new local fd ∙ h1 fd)
            (λ k2 h2.
              with_multicast-SocketOutcome k k2 new
                (record c { dest_addr = kept P remote c.dest_addr }) o h fresh h2))

  untouched :
      (k : P.Kernel) (c : UdpComm P.Address) (answer : Option HakoPduErrorType)
      → c.socket_fd ≡ none
      → SocketOutcome P T k ((k, c), answer)
  unfolding SocketOutcome
  untouched k c answer h = inl (h, λ fd. refl)

  module _ (J : Json) where
    with_socket-SocketOutcome :
        (k : P.Kernel) (c : UdpComm P.Address) (config : J.Value) (local remote : Option P.Address)
        (r : P.Kernel × Option ℕ)
        → Opened P.Kernel T.is_open k r
        → SocketOutcome P T k (with_socket P J c config local remote r)
    unfolding SocketOutcome
    with_socket-SocketOutcome k c config local remote (k', none) o = inl (refl, o)
    with_socket-SocketOutcome k c config local remote (k', some new) (fresh, h) =
        with_options-SocketOutcome k k' new (record c { socket_fd = some new }) local remote
          (read_options J config) refl fresh h

    with_addresses-SocketOutcome :
        (k : P.Kernel) (c : UdpComm P.Address) (config : J.Value) (local remote : Option P.Address)
        → c.socket_fd ≡ none
        → SocketOutcome P T k (with_addresses P J c k config local remote)
    with_addresses-SocketOutcome k c config (some local) remote h =
        with_socket-SocketOutcome k c config (some local) remote (P.socket k local)
          (T.opened k local)
    with_addresses-SocketOutcome k c config none (some remote) h =
        with_socket-SocketOutcome k c config none (some remote) (P.socket k remote)
          (T.opened k remote)
    with_addresses-SocketOutcome k c config none none h = untouched k c _ h

    resolved_remote-SocketOutcome :
        (k : P.Kernel) (c : UdpComm P.Address) (config : J.Value) (local : Option P.Address)
        (fixed : Bool) (o : Option (Option P.Address))
        → c.socket_fd ≡ none
        → SocketOutcome P T k (resolved_remote P J c k config local fixed o)
    resolved_remote-SocketOutcome k c config local fixed none h = untouched k c _ h
    resolved_remote-SocketOutcome k c config local fixed (some none) h = untouched k c _ h
    resolved_remote-SocketOutcome k c config local true (some (some remote)) h =
        with_addresses-SocketOutcome k (record c { has_fixed_remote = true }) config local
          (some remote) h
    resolved_remote-SocketOutcome k c config local false (some (some remote)) h =
        with_addresses-SocketOutcome k c config local (some remote) h

    remote_member-SocketOutcome :
        (k : P.Kernel) (c : UdpComm P.Address) (config : J.Value) (local : Option P.Address)
        (o : Option J.Value)
        → c.socket_fd ≡ none
        → SocketOutcome P T k (remote_member P J c k config local o)
    remote_member-SocketOutcome k c config local none h =
        if-Any (SocketOutcome P T k) (is_out c.config_direction) _ _ (untouched k c _ h)
          (with_addresses-SocketOutcome k c config local none h)
    remote_member-SocketOutcome k c config local (some v) h =
        if-Any (SocketOutcome P T k) (is_in c.config_direction) _ _
          (with_addresses-SocketOutcome k c config local none h)
          (resolved_remote-SocketOutcome k c config local (not (is_out c.config_direction))
            (resolve_address P J v datagram) h)

    local_member-SocketOutcome :
        (k : P.Kernel) (c : UdpComm P.Address) (config : J.Value) (o : Option J.Value)
        → c.socket_fd ≡ none
        → SocketOutcome P T k (local_member P J c k config o)
    local_member-SocketOutcome k c config none h = untouched k c _ h
    local_member-SocketOutcome k c config (some v) h = by_address (resolve_address P J v datagram)
      where
        by_address :
            (o : Option (Option P.Address)) → SocketOutcome P T k (resolved_local P J c k config o)
        by_address none = untouched k c _ h
        by_address (some none) = untouched k c _ h
        by_address (some (some local)) =
            remote_member-SocketOutcome k c config (some local) (J.member config (codes "remote")) h

    after_version-SocketOutcome :
        (k : P.Kernel) (c : UdpComm P.Address) (config : J.Value)
        (r : PduCommRaw × HakoPduErrorType)
        → c.socket_fd ≡ none
        → SocketOutcome P T k (after_version P J c k config r)
    unfolding open_addresses
    after_version-SocketOutcome k c config (raw, err) h =
        let c' = record c { raw = raw } in
        if-Any (SocketOutcome P T k) (is_ok err) _ _
          (if-Any (SocketOutcome P T k) (is_out c.config_direction) _ _
            (remote_member-SocketOutcome k c' config none (J.member config (codes "remote")) h)
            (local_member-SocketOutcome k c' config (J.member config (codes "local")) h))
          (untouched k c' _ h)

    open_config-SocketOutcome :
        (k : P.Kernel) (c : UdpComm P.Address) (config : J.Value)
        → c.socket_fd ≡ none
        → SocketOutcome P T k (open_config P J c k config)
    unfolding open_config
    open_config-SocketOutcome k c config h =
        with_text-Any J (SocketOutcome P T k) config "protocol" _ _ _ (untouched k c _ h)
          (untouched k c _ h)
          (λ protocol.
            if-Any (SocketOutcome P T k) (not (protocol == codes "udp")) _ _ (untouched k c _ h) (
              with_text-Any J (SocketOutcome P T k) config "direction" _ _ _ (untouched k c _ h)
                (untouched k c _ h)
                (λ direction.
                  after_version-SocketOutcome k
                    (record c { config_direction = parse_direction direction }) config
                    (configure_version J c.raw config) h)))

    loaded-SocketOutcome :
        (k : P.Kernel) (c : UdpComm P.Address) (o : Loaded J.Value)
        → c.socket_fd ≡ none
        → SocketOutcome P T k (loaded P J c k o)
    loaded-SocketOutcome k c not_found h = untouched k c _ h
    loaded-SocketOutcome k c malformed h = untouched k c _ h
    loaded-SocketOutcome k c (parsed config) h = open_config-SocketOutcome k c config h

    -- raw_open of an object without a socket, on whatever document and whatever call fails: it leaves no
    -- socket, neither in the object nor in the system, or its socket is the one descriptor more, and then
    -- it answered OK or was left by an exception.
    pub raw_open-SocketOutcome :
        (k : P.Kernel) (c : UdpComm P.Address) (config_path : StdString)
        → c.socket_fd ≡ none
        → SocketOutcome P T k (raw_open P J (k, c) config_path)
    unfolding raw_open
    raw_open-SocketOutcome k c config_path h =
        if-Any (SocketOutcome P T k) (is_some c.socket_fd) _ _ (untouched k c _ h)
          (loaded-SocketOutcome k c (J.load config_path) h)
