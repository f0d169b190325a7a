-- ===== src/Tcp/Outcome.antt =====
-- The descriptors that raw_open of src/comm_tcp.cpp leave open.
use hakoniwa_pdu_endpoint.Prelude.{
  ℕ, ◌≡◌, refl, sym, ap, ◌∙◌, ◌⊎◌, inl, inr, ◌||◌, Bool, true, false, Option, none, some,
  if◌then◌else◌, if-Any, nat_eq, nat_eq_iff, is_some, arith, StdString, codes,
}
use hakoniwa_pdu_endpoint.Types.{HakoPduErrorType, ok, busy, is_ok}
use hakoniwa_pdu_endpoint.Json.{Json, Loaded, not_found, malformed, parsed}
use hakoniwa_pdu_endpoint.Sockets.{Posix, stream, resolve_address}
use hakoniwa_pdu_endpoint.Sockets.Options.{socket_options, timeout_options}
use hakoniwa_pdu_endpoint.Sockets.Descriptors.{Opened, IsTable, apply_options_kept}
use hakoniwa_pdu_endpoint.Tcp.{
  Role, client, server, Options, TcpComm, World, configure_timeouts, then_timeouts,
  configure_socket_options,
}
use hakoniwa_pdu_endpoint.Tcp.Opening.{
  or_close, configured_socket, then_bind, then_listen, listen_on, with_socket, resolved_local,
  resolved_remote, local_member, remote_member, open_role, after_configure, loaded, configure,
  raw_open,
}
use hakoniwa_pdu_endpoint.Tcp.Leaks.{raw_close-Closed}
use hakoniwa_pdu_endpoint.Tcp.Links.{Links, configure-links}

module _ (P : Posix) (T : IsTable P) where
  -- The object has no descriptor, and the same ones are open as at first.
  pub record Clean (k : P.Kernel) (w : World P) : Type 0 where
    pub no_client : w.1.client_fd ≡ none
    pub no_listener : w.1.listen_fd ≡ none
    pub same : (fd : ℕ) → T.is_open w.0 fd ≡ T.is_open k fd

  -- The object has a listener, and this is the one descriptor that is open besides.
  pub record Listening (k : P.Kernel) (w : World P) : Type 0 where
    pub listener : ℕ
    pub its_own : w.1.listen_fd ≡ some listener
    pub no_client : w.1.client_fd ≡ none
    pub one_more :
        (fd : ℕ) → T.is_open w.0 fd ≡ (if nat_eq fd listener then true else T.is_open k fd)

  pub Outcome : P.Kernel → World P × Option HakoPduErrorType → Type 0
  Outcome k (w, answer) = Clean k w ⊎ ((answer ≡ some ok) × Listening k w)

  -- Exactly `new` is open besides.
  abbrev Holding : P.Kernel → ℕ → P.Kernel → Type 0
  Holding k new k' = (fd : ℕ) → T.is_open k' fd ≡ (if nat_eq fd new then true else T.is_open k fd)

  configure_timeouts_kept :
      (k : P.Kernel) (fd : ℕ) (o : Options) (fd' : ℕ)
      → T.is_open (configure_timeouts P fd o k).0 fd' ≡ T.is_open k fd'
  unfolding configure_timeouts
  configure_timeouts_kept k fd o fd' = apply_options_kept P T fd k (timeout_options o.stream) fd'

  then_timeouts_kept :
      (k : P.Kernel) (fd : ℕ) (o : Options) (fd' : ℕ) (r : P.Kernel × HakoPduErrorType)
      → T.is_open r.0 fd' ≡ T.is_open k fd'
      → T.is_open (then_timeouts P fd o r).0 fd' ≡ T.is_open k fd'
  then_timeouts_kept k fd o fd' (k', err) e =
      if-Any (λ (r : P.Kernel × HakoPduErrorType). T.is_open r.0 fd' ≡ T.is_open k fd') (is_ok err)
        _ _ (configure_timeouts_kept k' fd o fd' ∙ e) e

  pub configure_socket_options_kept :
      (k : P.Kernel) (fd : ℕ) (o : Options) (fd' : ℕ)
      → T.is_open (configure_socket_options P fd o k).0 fd' ≡ T.is_open k fd'
  unfolding configure_socket_options
  configure_socket_options_kept k fd o fd' =
      then_timeouts_kept k fd o fd' _ (apply_options_kept P T fd k (socket_options o.stream) fd')

  -- Where a call fails the listener is closed again.
  or_close-Outcome :
      (k : P.Kernel) (new : ℕ) (c : TcpComm P.Address) (r : P.Kernel × Bool)
      (go_on : P.Kernel → World P × Option HakoPduErrorType)
      → c.client_fd ≡ none
      → c.listen_fd ≡ some new
      → T.is_open k new ≡ false
      → Holding k new r.0
      → ((k' : P.Kernel) → Holding k new k' → Outcome k (go_on k'))
      → Outcome k (or_close P c r go_on)
  unfolding Outcome
  or_close-Outcome k new c (k', true) go_on hc hl fresh h f = f k' h
  or_close-Outcome k new c (k', false) go_on hc hl fresh h f =
      let closed = raw_close-Closed P T k' c in
      inl (record {
        no_client = closed.no_client;
        no_listener = closed.no_listener;
        same = λ fd.
            closed.others_kept fd
            ∙ rw (hc, hl, h fd) (given_back fd (nat_eq fd new) (T.is_open k fd) (new_one fd));
      })
    where
      new_one : (fd : ℕ) → nat_eq fd new ≡ true → T.is_open k fd ≡ false
      new_one fd e = ap (λ (n : ℕ). T.is_open k n) (ground (arith, e, nat_eq_iff fd new)) ∙ fresh

      given_back :
          (fd : ℕ) (b x : Bool)
          → (b ≡ true → x ≡ false)
          → (if b || false then false else if b then true else x) ≡ x
      given_back fd true x e = sym (e refl)
      given_back fd false x e = refl

  listen_on-Outcome :
      (k k' : P.Kernel) (new : ℕ) (c : TcpComm P.Address) (address : P.Address)
      → c.client_fd ≡ none
      → c.listen_fd ≡ some new
      → T.is_open k new ≡ false
      → Holding k new k'
      → Outcome k (listen_on P c k' address new)
  unfolding listen_on Outcome
  listen_on-Outcome k k' new c address hc hl fresh h =
      or_close-Outcome k new c (configured_socket P (configure_socket_options P new c.options k'))
        (then_bind P c address new) hc hl fresh
        (λ fd. configure_socket_options_kept k' new c.options fd ∙ h fd)
        (λ k1 h1.
          or_close-Outcome k new c (P.bind k1 new address) (then_listen P c new) hc hl fresh
            (λ fd. T.bind_kept k1 new address fd ∙ h1 fd)
            (λ k2 h2.
              or_close-Outcome k new c (P.listen k2 new c.options.backlog)
                (λ k3. ((k3, c), some ok)) hc hl fresh
                (λ fd. T.listen_kept k2 new c.options.backlog fd ∙ h2 fd)
                (λ k3 h3.
                  inr (
                    refl,
                    record { listener = new; its_own = hl; no_client = hc; one_more = h3 },
                  ))))

  with_socket-Outcome :
      (k : P.Kernel) (c : TcpComm P.Address) (address : P.Address) (r : P.Kernel × Option ℕ)
      → c.client_fd ≡ none
      → Opened P.Kernel T.is_open k r
      → Outcome k (with_socket P c address r)
  unfolding Outcome
  with_socket-Outcome k c address (k', none) hc o =
      inl (record { no_client = hc; no_listener = refl; same = o })
  with_socket-Outcome k c address (k', some new) hc (fresh, h) =
      listen_on-Outcome k k' new (record c { listen_fd = some new }) address hc refl fresh h

  -- Nothing was opened.
  untouched :
      (k : P.Kernel) (c : TcpComm P.Address) (answer : Option HakoPduErrorType)
      → c.client_fd ≡ none
      → c.listen_fd ≡ none
      → Outcome k ((k, c), answer)
  unfolding Outcome
  untouched k c answer hc hl = inl (record { no_client = hc; no_listener = hl; same = λ fd. refl })

  module _ (J : Json) where
    resolved_local-Outcome :
        (k : P.Kernel) (c : TcpComm P.Address) (o : Option (Option P.Address))
        → c.client_fd ≡ none
        → c.listen_fd ≡ none
        → Outcome k (resolved_local P c k o)
    resolved_local-Outcome k c none hc hl = untouched k c _ hc hl
    resolved_local-Outcome k c (some none) hc hl = untouched k c _ hc hl
    resolved_local-Outcome k c (some (some address)) hc hl =
        with_socket-Outcome k c address (P.socket k address) hc (T.opened k address)

    resolved_remote-Outcome :
        (k : P.Kernel) (c : TcpComm P.Address) (o : Option (Option P.Address))
        → c.client_fd ≡ none
        → c.listen_fd ≡ none
        → Outcome k (resolved_remote P c k o)
    resolved_remote-Outcome k c none hc hl = untouched k c _ hc hl
    resolved_remote-Outcome k c (some none) hc hl = untouched k c _ hc hl
    resolved_remote-Outcome k c (some (some address)) hc hl =
        untouched k (record c { remote_addr_info = some address }) _ hc hl

    local_member-Outcome :
        (k : P.Kernel) (c : TcpComm P.Address) (o : Option J.Value)
        → c.client_fd ≡ none
        → c.listen_fd ≡ none
        → Outcome k (local_member P J c k o)
    local_member-Outcome k c none hc hl = untouched k c _ hc hl
    local_member-Outcome k c (some v) hc hl =
        resolved_local-Outcome k c (resolve_address P J v stream) hc hl

    remote_member-Outcome :
        (k : P.Kernel) (c : TcpComm P.Address) (o : Option J.Value)
        → c.client_fd ≡ none
        → c.listen_fd ≡ none
        → Outcome k (remote_member P J c k o)
    remote_member-Outcome k c none hc hl = untouched k c _ hc hl
    remote_member-Outcome k c (some v) hc hl =
        resolved_remote-Outcome k c (resolve_address P J v stream) hc hl

    open_role-Outcome :
        (k : P.Kernel) (c : TcpComm P.Address) (config : J.Value) (role : Role)
        → c.client_fd ≡ none
        → c.listen_fd ≡ none
        → Outcome k (open_role P J c k config role)
    unfolding open_role
    open_role-Outcome k c config server hc hl =
        local_member-Outcome k c (J.member config (codes "local")) hc hl
    open_role-Outcome k c config client hc hl =
        remote_member-Outcome k c (J.member config (codes "remote")) hc hl

    after_configure-Outcome :
        (k : P.Kernel) (config : J.Value) (r : TcpComm P.Address × Option HakoPduErrorType)
        → r.0.client_fd ≡ none
        → r.0.listen_fd ≡ none
        → Outcome k (after_configure P J k config r)
    after_configure-Outcome k config (c, none) hc hl = untouched k c _ hc hl
    after_configure-Outcome k config (c, some err) hc hl =
        if-Any (Outcome k) (is_ok err) _ _ (open_role-Outcome k c config c.role hc hl)
          (untouched k c _ hc hl)

    loaded-Outcome :
        (k : P.Kernel) (c : TcpComm P.Address) (o : Loaded J.Value)
        → c.client_fd ≡ none
        → c.listen_fd ≡ none
        → Outcome k (loaded P J k c o)
    loaded-Outcome k c not_found hc hl = untouched k c _ hc hl
    loaded-Outcome k c malformed hc hl = untouched k c _ hc hl
    loaded-Outcome k c (parsed config) hc hl =
        let e = configure-links P.Address J c config in
        after_configure-Outcome k config (configure J P.Address c config)
          (ap (λ (l : Links). l.client_fd) e ∙ hc) (ap (λ (l : Links). l.listen_fd) e ∙ hl)

    -- raw_open of an object without descriptors, on whatever document and whatever call fails: it leaves
    -- no descriptor, neither in the object nor in the system, or it answered OK and the listener is the
    -- one descriptor more.
    pub raw_open-Outcome :
        (k : P.Kernel) (c : TcpComm P.Address) (config_path : StdString)
        → c.client_fd ≡ none
        → c.listen_fd ≡ none
        → Outcome k (raw_open P J (k, c) config_path)
    unfolding raw_open
    raw_open-Outcome k c config_path hc hl =
        if-Any (Outcome k) (is_some c.client_fd || is_some c.listen_fd) _ _
          (untouched k c (some busy) hc hl) (loaded-Outcome k c (J.load config_path) hc hl)
