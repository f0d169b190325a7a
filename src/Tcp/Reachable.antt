-- ===== src/Tcp/Reachable.antt =====
-- Every reachable TcpComm of src/comm_tcp.cpp is sound, and what this means to its owner.
use hakoniwa_pdu_endpoint.Prelude.{
  ℕ, ◌≡◌, refl, sym, subst, Bool, true, false, ◌||◌, Option, none, some, if-Any, is_some, StdString,
  codes, arith,
}
use hakoniwa_pdu_endpoint.Types.{HakoPduErrorType, ok, is_ok}
use hakoniwa_pdu_endpoint.Json.{Json, Loaded, not_found, malformed, parsed}
use hakoniwa_pdu_endpoint.Sockets.{Posix, stream, resolve_address}
use hakoniwa_pdu_endpoint.Tcp.{
  Role, client, server, TcpComm, World, new_tcp, configure_socket_options,
}
use hakoniwa_pdu_endpoint.Tcp.Opening.{
  or_close, then_bind, then_listen, listen_on, with_socket, resolved_local, resolved_remote,
  local_member, remote_member, open_role, after_configure, loaded, configure, raw_open,
  configured_socket,
}
use hakoniwa_pdu_endpoint.Tcp.Links.{links, Links, configure-links}
use hakoniwa_pdu_endpoint.Tcp.Invariant.{
  IsSound, Sound, raw_stop-Sound, raw_close-Sound, raw_start-Sound, server_accept-Sound,
  server_disconnect-Sound, client_disconnect-Sound, client_connect-Sound,
}
use hakoniwa_pdu_endpoint.Tcp.Steps.{
  Step, opens, starts, stops, closes, accepts, leaves, connects, drops, goes_on, Reach, created,
  later,
}

module _ (P : Posix) where
  abbrev AnswerSound : World P × Option HakoPduErrorType → Type 0
  AnswerSound r = Sound P r.0

  or_close-Sound :
      (c : TcpComm P.Address) (r : P.Kernel × Bool)
      (go_on : P.Kernel → World P × Option HakoPduErrorType)
      → IsSound (links P.Address c)
      → ((k : P.Kernel) → AnswerSound (go_on k))
      → AnswerSound (or_close P c r go_on)
  or_close-Sound c (k, true) go_on s f = f k
  or_close-Sound c (k, false) go_on s f = raw_close-Sound P (k, c) s

  listen_on-Sound :
      (c : TcpComm P.Address) (k : P.Kernel) (address : P.Address) (fd : ℕ)
      → IsSound (links P.Address c)
      → AnswerSound (listen_on P c k address fd)
  unfolding listen_on
  listen_on-Sound c k address fd s =
      or_close-Sound c (configured_socket P (configure_socket_options P fd c.options k))
        (then_bind P c address fd) s
        (λ k. or_close-Sound c (P.bind k fd address) (then_listen P c fd) s (λ k.
          or_close-Sound c (P.listen k fd c.options.backlog) (λ k. ((k, c), some ok)) s (λ k. s)))

  relisten : (l : Links) (o : Option ℕ) → IsSound l → IsSound (record l { listen_fd = o })
  relisten l o s = record {
    threaded = s.threaded;
    idle = s.idle;
    connected_runs = s.connected_runs;
    server_connected = s.server_connected;
  }

  with_socket-Sound :
      (c : TcpComm P.Address) (address : P.Address) (r : P.Kernel × Option ℕ)
      → IsSound (links P.Address c)
      → AnswerSound (with_socket P c address r)
  with_socket-Sound c address (k, none) s = relisten (links P.Address c) none s
  with_socket-Sound c address (k, some fd) s =
      listen_on-Sound (record c { listen_fd = some fd }) k address fd
        (relisten (links P.Address c) (some fd) s)

  module _ (J : Json) where
    open_role-Sound :
        (c : TcpComm P.Address) (k : P.Kernel) (config : J.Value) (role : Role)
        → IsSound (links P.Address c)
        → AnswerSound (open_role P J c k config role)
    unfolding open_role
    open_role-Sound c k config server s = by_local (J.member config (codes "local"))
      where
        by_address : (o : Option (Option P.Address)) → AnswerSound (resolved_local P c k o)
        by_address none = s
        by_address (some none) = s
        by_address (some (some address)) = with_socket-Sound c address (P.socket k address) s

        by_local : (o : Option J.Value) → AnswerSound (local_member P J c k o)
        by_local none = s
        by_local (some v) = by_address (resolve_address P J v stream)
    open_role-Sound c k config client s = by_remote (J.member config (codes "remote"))
      where
        by_address : (o : Option (Option P.Address)) → AnswerSound (resolved_remote P c k o)
        by_address none = s
        by_address (some none) = s
        by_address (some (some address)) = s

        by_remote : (o : Option J.Value) → AnswerSound (remote_member P J c k o)
        by_remote none = s
        by_remote (some v) = by_address (resolve_address P J v stream)

    raw_open-Sound :
        (w : World P) (config_path : StdString) → Sound P w → Sound P (raw_open P J w config_path).0
    unfolding raw_open
    raw_open-Sound (k, c) config_path s =
        if-Any AnswerSound (is_some c.client_fd || is_some c.listen_fd) _ _ s
          (by_document (J.load config_path))
      where
        by_configuration :
            (config : J.Value) (r : TcpComm P.Address × Option HakoPduErrorType)
            → links P.Address r.0 ≡ links P.Address c
            → AnswerSound (after_configure P J k config r)
        by_configuration config (c', none) e = subst IsSound (sym e) s
        by_configuration config (c', some err) e =
            let s' = subst IsSound (sym e) s in
            if-Any AnswerSound (is_ok err) _ _ (open_role-Sound c' k config c'.role s') s'

        by_document : (o : Loaded J.Value) → AnswerSound (loaded P J k c o)
        by_document not_found = s
        by_document malformed = s
        by_document (parsed config) =
            by_configuration config (configure J P.Address c config)
              (configure-links P.Address J c config)

    Step-Sound : {w w' : World P} → Step P J w w' → Sound P w → Sound P w'
    Step-Sound (opens w config_path) s = raw_open-Sound w config_path s
    Step-Sound (starts w) s = raw_start-Sound P w s
    Step-Sound (stops w) s = raw_stop-Sound P w s
    Step-Sound (closes w) s = raw_close-Sound P w s
    Step-Sound (accepts w t h n) s = server_accept-Sound P w h s
    Step-Sound (leaves w t) s = server_disconnect-Sound P w s
    Step-Sound (connects w t h n) s = client_connect-Sound P w h t s
    Step-Sound (drops w t) s = client_disconnect-Sound P w t s
    Step-Sound (goes_on k k' c) s = s

    new_tcp-Sound : (k : P.Kernel) → Sound P (k, new_tcp P.Address)
    unfolding new_tcp
    new_tcp-Sound k = record {
      threaded = refl;
      idle = λ e. refl;
      connected_runs = λ e. absurd (ground (arith, e));
      server_connected = λ e e'. absurd (ground (arith, e'));
    }

    -- In every state that the owner's calls and the thread's steps lead to, in any order: the flag is set
    -- just when there is a thread; without the flag there is no connection; the object counts as connected
    -- only while the flag is set, and with a server's thread only while it has a connection.
    pub Reach-Sound : {w : World P} → Reach P J w → Sound P w
    Reach-Sound (created k) = new_tcp-Sound k
    Reach-Sound (later r s) = Step-Sound s (Reach-Sound r)
