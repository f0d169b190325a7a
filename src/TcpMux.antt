-- ===== src/TcpMux.antt =====
-- src/comm_tcp_mux.cpp and include/hakoniwa/pdu/comm/comm_tcp_mux.hpp: TcpCommMultiplexer, which accepts
-- connections and hands each out as a session. A lock makes each take and each push one step.
pub mod Session
pub mod Ended
pub mod Accounts
use hakoniwa_pdu_endpoint.Prelude.{
  ℕ, ◌+◌, ◌%◌, ◌^◌, Bool, true, false, not, ◌||◌, Option, none, some, List, [], ◌∷◌, ◌++◌, map,
  if◌then◌else◌, is_some, StdString, codes, ◌==◌, str_Eq,
}
use hakoniwa_pdu_endpoint.Types.{HakoPduErrorType, ok, busy, io_error, invalid_argument, is_ok}
use hakoniwa_pdu_endpoint.Json.{Json, Loaded, not_found, malformed, parsed, contains, with_text}
use hakoniwa_pdu_endpoint.Sockets.{Posix, stream, resolve_address}
use hakoniwa_pdu_endpoint.Sockets.Options.{
  StreamOptions, default_options, assign_all, stream_assignments, value_of, bind, socket_options,
  apply_options,
}
use hakoniwa_pdu_endpoint.TcpMux.Session.{TcpSessionComm, new_session}

pub record Options : Type 0 where
  pub backlog : ℕ
  pub stream : StreamOptions

pub record TcpCommMultiplexer : Type 0 where
  pub listen_fd : Option ℕ
  pub is_running : Bool
  pub has_thread : Bool
  pub options : Options
  pub expected_clients : ℕ
  pub connected_clients : ℕ
  pub pending_sessions : List TcpSessionComm

unfoldable pub new_mux : TcpCommMultiplexer
new_mux = record {
  listen_fd = none;
  is_running = false;
  has_thread = false;
  options = record { backlog = 5; stream = default_options };
  expected_clients = 0;
  connected_clients = 0;
  pending_sessions = [];
}

unfoldable pub connected_count : TcpCommMultiplexer → ℕ
connected_count m = m.connected_clients

unfoldable pub expected_count : TcpCommMultiplexer → ℕ
expected_count m = m.expected_clients

unfoldable pub take_sessions : TcpCommMultiplexer → TcpCommMultiplexer × List TcpSessionComm
take_sessions m = (record m { pending_sessions = [] }, m.pending_sessions)

module _ (P : Posix) where
  abbrev pub World : Type 0
  World = P.Kernel × TcpCommMultiplexer

  abbrev pub Opened : Type 0
  Opened = (P.Kernel × TcpCommMultiplexer) × Option HakoPduErrorType

  abbrev pub closing : P.Kernel → Option ℕ → P.Kernel
  closing k none = k
  closing k (some fd) = P.close k fd

  abbrev pub shutting : P.Kernel → Option ℕ → P.Kernel
  shutting k none = k
  shutting k (some fd) = P.shutdown k fd

  -- `join` waits for the end of accept_loop_.
  unfoldable pub stop : World → World
  stop (k, m) = if not m.is_running then (k, m) else (
    closing (shutting k m.listen_fd) m.listen_fd,
    record m { is_running = false; listen_fd = none; has_thread = false },
  )

  abbrev pub close_listener : World → World
  close_listener (k, m) = (closing k m.listen_fd, record m { listen_fd = none })

  unfoldable pub close : World → World
  close w = close_listener (stop w)

  unfoldable pub start : World → World × HakoPduErrorType
  start (k, m) =
      if m.is_running
      then ((k, m), busy)
      else ((k, record m { is_running = true; has_thread = true }), ok)

  unfoldable pub configure_socket_options : ℕ → Options → P.Kernel → P.Kernel × HakoPduErrorType
  configure_socket_options fd o k = apply_options P fd k (socket_options o.stream)

  -- One turn of accept_loop_; on a descriptor of -1 `accept` fails.
  abbrev pub accepted : TcpCommMultiplexer → P.Kernel × Option ℕ → World
  accepted m (k, none) = (k, m)
  accepted m (k, some fd) = (
    k,
    record m {
      pending_sessions = m.pending_sessions ++ (new_session fd ∷ []);
      connected_clients = (m.connected_clients + 1) % 2 ^ 64;
    },
  )

  abbrev pub accept_on : TcpCommMultiplexer → P.Kernel → Option ℕ → P.Kernel × Option ℕ
  accept_on m k none = (k, none)
  accept_on m k (some fd) = P.accept k fd

  unfoldable pub accept_turn : World → World
  accept_turn (k, m) = accepted m (accept_on m k m.listen_fd)

  -- Where a call of the system fails, the object is closed.
  abbrev or_close : TcpCommMultiplexer → P.Kernel × Bool → (P.Kernel → Opened) → Opened
  or_close m (k, true) go_on = go_on k
  or_close m (k, false) go_on = (close (k, m), some io_error)

  abbrev configured_socket : P.Kernel × HakoPduErrorType → P.Kernel × Bool
  configured_socket (k, err) = (k, is_ok err)

  unfoldable pub listen_on : TcpCommMultiplexer → P.Kernel → P.Address → ℕ → Opened
  listen_on m k address fd =
      or_close m (configured_socket (configure_socket_options fd m.options k)) (λ k.
        or_close m (P.bind k fd address)
          (λ k. or_close m (P.listen k fd m.options.backlog) (λ k. ((k, m), some ok))))

  abbrev with_socket : TcpCommMultiplexer → P.Address → P.Kernel × Option ℕ → Opened
  with_socket m address (k, none) = ((k, record m { listen_fd = none }), some io_error)
  with_socket m address (k, some fd) = listen_on (record m { listen_fd = some fd }) k address fd

  abbrev resolved : TcpCommMultiplexer → P.Kernel → Option (Option P.Address) → Opened
  resolved m k none = ((k, m), none)
  resolved m k (some none) = ((k, m), some invalid_argument)
  resolved m k (some (some address)) = with_socket m address (P.socket k address)

  module _ (J : Json) where
    unfoldable pub option_assignments : J.Value → List (Options → Option Options)
    option_assignments opts =
        (λ o.
          bind J (value_of J J.get_int opts "backlog" o.backlog) (λ v. record o { backlog = v }))
        ∷ map (λ f o. bind J (f o.stream) (λ s. record o { stream = s }))
            (stream_assignments J opts)

    abbrev with_options : TcpCommMultiplexer → P.Kernel → J.Value → Options × Bool → Opened
    with_options m k local (o, false) = ((k, record m { options = o }), none)
    with_options m k local (o, true) =
        resolved (record m { options = o }) k (resolve_address P J local stream)

    abbrev options_member : TcpCommMultiplexer → P.Kernel → J.Value → Option J.Value → Opened
    options_member m k local none = with_options m k local (m.options, true)
    options_member m k local (some opts) =
        with_options m k local (assign_all (option_assignments opts) m.options)

    abbrev with_expected : TcpCommMultiplexer → P.Kernel → J.Value → J.Value → Option ℕ → Opened
    with_expected m k config local none = ((k, m), none)
    with_expected m k config local (some n) =
        options_member (record m { expected_clients = n }) k local
          (J.member config (codes "options"))

    abbrev with_members :
        TcpCommMultiplexer → P.Kernel → J.Value → Option J.Value → Option J.Value → Opened
    with_members m k config (some local) (some expected) =
        with_expected m k config local (J.get_size expected)
    with_members m k config _ _ = ((k, m), some invalid_argument)

    unfoldable pub open_config : TcpCommMultiplexer → P.Kernel → J.Value → Opened
    open_config m k config =
        with_text J config "protocol" ((k, m), some invalid_argument) ((k, m), none)
          (λ protocol.
            if not (protocol == codes "tcp")
            then ((k, m), some invalid_argument)
            else with_members m k config (J.member config (codes "local"))
                (J.member config (codes "expected_clients")))

    abbrev loaded : TcpCommMultiplexer → P.Kernel → Loaded J.Value → Opened
    loaded m k not_found = ((k, m), some io_error)
    loaded m k malformed = ((k, m), some invalid_argument)
    loaded m k (parsed config) = open_config m k config

    -- The answer none is an exception of the JSON library.
    unfoldable pub open_mux : World → StdString → Opened
    open_mux (k, m) config_path =
        if is_some m.listen_fd then ((k, m), some busy) else loaded m k (J.load config_path)
