-- ===== src/Udp/Released.antt =====
-- raw_close and the socket options of UdpComm in src/comm_udp.cpp, as to the descriptors that are open.
use hakoniwa_pdu_endpoint.Prelude.{
  ℕ, ◌≡◌, refl, sym, ap, ◌∙◌, ◌⊎◌, inl, ◌||◌, Bool, true, false, not, Option, none, some,
  if◌then◌else◌, if-Any, is_empty, nat_eq, nat_eq_iff, arith, str_Eq,
}
use hakoniwa_pdu_endpoint.Types.{HakoPduErrorType, ok, is_ok, Direction}
use hakoniwa_pdu_endpoint.Sockets.{Posix, add_membership}
use hakoniwa_pdu_endpoint.Sockets.Descriptors.{IsTable, apply_options_kept}
use hakoniwa_pdu_endpoint.Udp.{
  Options, UdpComm, World, socket_options, configure_socket_options, configure_multicast, set_ttl,
  joined, receives, raw_stop, raw_close, closing,
}
use hakoniwa_pdu_endpoint.Udp.Opening.{Answered, or_close, bind_answer, bind_local}

module _ (P : Posix) (T : IsTable P) where
  abbrev pub Same : P.Kernel → P.Kernel → Type 0
  Same k k' = (fd : ℕ) → T.is_open k' fd ≡ T.is_open k fd

  abbrev pub Holding : P.Kernel → ℕ → P.Kernel → Type 0
  Holding k new k' = (fd : ℕ) → T.is_open k' fd ≡ (if nat_eq fd new then true else T.is_open k fd)

  -- No socket, neither in the object nor in the system; or one more, after OK or an exception.
  unfoldable pub SocketOutcome : P.Kernel → World P × Option HakoPduErrorType → Type 0
  SocketOutcome k ((k', c), answer) =
      ((c.socket_fd ≡ none) × Same k k')
      ⊎ (((answer ≡ some ok) ⊎ (answer ≡ none))
          × ((new : ℕ) × (c.socket_fd ≡ some new) × Holding k new k'))

  raw_stop_kept :
      (k : P.Kernel) (c : UdpComm P.Address)
      → Same k (raw_stop P (k, c)).0 × ((raw_stop P (k, c)).1.socket_fd ≡ c.socket_fd)
  unfolding raw_stop
  raw_stop_kept k c = by_flags c.is_running_flag c.has_thread c.socket_fd
    where
      by_flags :
          (running has_thread : Bool) (o : Option ℕ)
          → let w =
              raw_stop P (
                k,
                record c { is_running_flag = running; has_thread = has_thread; socket_fd = o },
              ) in
            Same k w.0 × (w.1.socket_fd ≡ o)
      by_flags false t o = (λ fd. refl, refl)
      by_flags true false o = (λ fd. refl, refl)
      by_flags true true none = (λ fd. refl, refl)
      by_flags true true (some n) = (λ fd. T.shutdown_kept k n fd, refl)

  raw_close-SocketOutcome :
      (k k' : P.Kernel) (new : ℕ) (c : UdpComm P.Address) (err : HakoPduErrorType)
      → c.socket_fd ≡ some new
      → T.is_open k new ≡ false
      → Holding k new k'
      → SocketOutcome k (raw_close P (k', c), some err)
  unfolding SocketOutcome raw_close
  raw_close-SocketOutcome k k' new c err h fresh holding =
      let s = raw_stop_kept k' c in
      inl (
        refl,
        λ fd.
            ap (λ (o : Option ℕ). T.is_open (closing P (raw_stop P (k', c)).0 o) fd) (s.1 ∙ h)
            ∙ T.closed _ new fd
            ∙ given_back fd (nat_eq fd new) _ (T.is_open k fd) (s.0 fd ∙ holding fd) (new_one fd),
      )
    where
      new_one : (fd : ℕ) → nat_eq fd new ≡ true → T.is_open k fd ≡ false
      new_one fd e = ap (λ (n : ℕ). T.is_open k n) (ground (arith, e, nat_eq_iff fd new)) ∙ fresh

      given_back :
          (fd : ℕ) (b x y : Bool)
          → x ≡ (if b then true else y)
          → (b ≡ true → y ≡ false)
          → (if b then false else x) ≡ y
      given_back fd true x y e f = sym (f refl)
      given_back fd false x y e f = e

  pub or_close-SocketOutcome :
      (k : P.Kernel) (new : ℕ) (c : UdpComm P.Address) (r : P.Kernel × HakoPduErrorType)
      (go_on : P.Kernel → Answered P)
      → c.socket_fd ≡ some new
      → T.is_open k new ≡ false
      → Holding k new r.0
      → ((k' : P.Kernel) → Holding k new k' → SocketOutcome k (go_on k'))
      → SocketOutcome k (or_close P c r go_on)
  or_close-SocketOutcome k new c (k', err) go_on h fresh holding f =
      if-Any (SocketOutcome k) (is_ok err) _ _ (f k' holding)
        (raw_close-SocketOutcome k k' new c err h fresh holding)

  pub configure_socket_options_kept :
      (k : P.Kernel) (fd : ℕ) (o : Options) → Same k (configure_socket_options P fd o k).0
  unfolding configure_socket_options
  configure_socket_options_kept k fd o fd' = apply_options_kept P T fd k (socket_options o) fd'

  pub bind_local_kept :
      (k : P.Kernel) (fd : ℕ) (o : Option P.Address) → Same k (bind_local P fd k o).0
  bind_local_kept k fd none fd' = refl
  bind_local_kept k fd (some local) fd' = by_answer (P.bind k fd local) (T.bind_kept k fd local fd')
    where
      by_answer :
          (r : P.Kernel × Bool)
          → T.is_open r.0 fd' ≡ T.is_open k fd'
          → T.is_open (bind_answer P r).0 fd' ≡ T.is_open k fd'
      by_answer (k', true) e = e
      by_answer (k', false) e = e

  set_ttl_kept :
      (k : P.Kernel) (fd : ℕ) (o : Options) (d : Direction) → Same k (set_ttl P fd o d k).0
  set_ttl_kept k fd o d fd' = apply_options_kept P T fd k _ fd'

  joined_kept :
      (k : P.Kernel) (fd : ℕ) (o : Options) (d : Direction) (r : P.Kernel × Bool)
      → Same k r.0
      → Same k (joined P fd o d r).0
  joined_kept k fd o d (k', true) e fd' = set_ttl_kept k' fd o d fd' ∙ e fd'
  joined_kept k fd o d (k', false) e fd' = e fd'

  pub configure_multicast_kept :
      (k : P.Kernel) (fd : ℕ) (o : Options) (d : Direction)
      → Same k (configure_multicast P fd o d k).0
  unfolding configure_multicast
  configure_multicast_kept k fd o d =
      if-Any Kept (is_empty o.multicast_group) _ _ (λ fd'. refl)
        (if-Any Kept (receives P d) _ _
          (if-Any Kept (not (P.is_ipv4 o.multicast_group) || not (P.is_ipv4 o.multicast_interface))
            _ _ (λ fd'. refl)
            (joined_kept k fd o d _ (λ fd'.
              T.option_kept k fd (add_membership o.multicast_group o.multicast_interface) fd')))
          (set_ttl_kept k fd o d))
    where
      Kept : P.Kernel × HakoPduErrorType → Type 0
      Kept r = Same k r.0
