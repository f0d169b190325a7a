-- ===== src/Tcp/Dropped.antt =====
-- client_loop of src/comm_tcp.cpp from a connection to its end: what the calls of the owner then answer.
use hakoniwa_pdu_endpoint.Prelude.{
  ℕ, ◌≡◌, refl, sym, ap, ◌∙◌, subst, if-Any, Bool, true, false, Option, none, some, List, [], ◌∷◌,
  if◌then◌else◌, nat_eq, arith,
}
use hakoniwa_pdu_endpoint.Types.{HakoPduErrorType, not_running, is_ok}
use hakoniwa_pdu_endpoint.Cache.Span.{Bytes}
use hakoniwa_pdu_endpoint.Packet.Wire.{Endian}
use hakoniwa_pdu_endpoint.Sockets.{Posix}
use hakoniwa_pdu_endpoint.Sockets.Output.{wrote}
use hakoniwa_pdu_endpoint.Sockets.Descriptors.{IsTable, RecvKeeps}
use hakoniwa_pdu_endpoint.Tcp.{TcpComm, World, raw_is_running, raw_send, closing}
use hakoniwa_pdu_endpoint.Tcp.Framing.{
  LoopEnd, flag_cleared, broken_off, loop_starved, client_receive,
}
use hakoniwa_pdu_endpoint.Tcp.Kept.{server_receive_kept}
use hakoniwa_pdu_endpoint.Tcp.Messages.{Message}
use hakoniwa_pdu_endpoint.Tcp.SameLoop.{client_receive-server_receive}
use hakoniwa_pdu_endpoint.Tcp.Threads.{
  connected, client_connect, client_disconnect, connect_to, client_socket, connect_tried,
  connect_with_timeout, client_turn, listen_to, left_by, turned, client_loop,
}

module _ (P : Posix) where
  -- A connection sets is_connected_ and leaves is_running_flag_ as it is.
  unfoldable Connected : TcpComm P.Address → World P × Bool → Type 0
  Connected c (w, false) = Unit
  Connected c (w, true) = (w.1.is_connected ≡ true) × (w.1.is_running_flag ≡ c.is_running_flag)

  client_connect-Connected : (w : World P) → Connected w.1 (client_connect P w)
  unfolding client_connect Connected
  client_connect-Connected (k, c) = by_address c.remote_addr_info
    where
      by_end :
          (fd : ℕ) (k : P.Kernel) (err : HakoPduErrorType)
          → Connected c (connect_tried P c fd (k, err))
      by_end fd k err =
          if-Any (Connected c) (is_ok err) (connected P fd (k, c), true)
            ((P.close k fd, record c { client_fd = none }), false) (refl, refl) tt

      by_socket :
          (remote : P.Address) (r : P.Kernel × Option ℕ)
          → Connected c (client_socket P c (some remote) r)
      by_socket remote (k', none) = tt
      by_socket remote (k', some fd) =
          let r = connect_with_timeout P fd (some remote) c.options k' in by_end fd r.0 r.1

      by_address : (o : Option P.Address) → Connected c (connect_to P c k o)
      by_address none = tt
      by_address (some remote) = by_socket remote (P.socket k remote)

  module _ (T : IsTable P) where
    -- The owner is told that the object runs, but it cannot send; the descriptor of the connection is closed, and no other.
    pub record Stale (at : World P) (fd : ℕ) (w : World P) : Type 0 where
      pub still_running : raw_is_running P w.1 ≡ true
      pub refused : (n : ℕ) (bytes : Bytes) → raw_send P n w bytes ≡ (w.0, wrote not_running)
      pub freed : (n : ℕ) → T.is_open w.0 n ≡ (if nat_eq n fd then false else T.is_open at.0 n)

    client_disconnect-Stale :
        (k k' : P.Kernel) (c : TcpComm P.Address) (fd : ℕ)
        → c.client_fd ≡ some fd
        → c.is_running_flag ≡ true
        → c.is_connected ≡ true
        → ((n : ℕ) → T.is_open k' n ≡ T.is_open k n)
        → Stale (k, c) fd (client_disconnect P (k', c))
    unfolding client_disconnect raw_is_running raw_send
    client_disconnect-Stale k k' c fd h running is_connected same = record {
      still_running = rw (running, is_connected) refl;
      refused = λ n bytes. refl;
      freed = λ n.
          ap (λ (o : Option ℕ). T.is_open (closing P k' o) n) h
          ∙ T.closed k' fd n
          ∙ ap (λ (b : Bool). if nat_eq n fd then false else b) (same n);
    }

    module _ (R : RecvKeeps P T) (e : Endian) (fuel : ℕ) where
      client_turn-Stale :
          (k : P.Kernel) (c : TcpComm P.Address) (fd rounds : ℕ)
          → c.client_fd ≡ some fd
          → c.is_running_flag ≡ true
          → c.is_connected ≡ true
          → (client_receive P e c.raw fuel fd rounds k).2 ≡ broken_off
          → Stale
              (k, c)
              fd
              (turned P e fuel
                (client_loop P e fuel [])
                (client_turn P e fuel rounds ((k, c), true))).0
      unfolding client_loop
      client_turn-Stale k c fd rounds h running is_connected ended =
          subst
            (λ (o : Option ℕ).
              Stale (k, c) fd
                (turned P e fuel (client_loop P e fuel [])
                  (left_by P e fuel (client_disconnect P) (listen_to P e fuel rounds k c o))).0)
            (sym h)
            (by_end (client_receive P e c.raw fuel fd rounds k) ended (λ n.
              ap (λ (r : P.Kernel × List Message × LoopEnd). T.is_open r.0 n)
                (client_receive-server_receive P e c.raw fuel fd rounds k)
              ∙ server_receive_kept P T R n e c.raw fuel fd rounds k))
        where
          by_end :
              (r : P.Kernel × List Message × LoopEnd)
              → r.2 ≡ broken_off
              → ((n : ℕ) → T.is_open r.0 n ≡ T.is_open k n)
              → Stale
                  (k, c)
                  fd
                  (turned P e fuel
                    (client_loop P e fuel [])
                    (left_by P e fuel (client_disconnect P) ((r.0, c), r.1, r.2))).0
          by_end (k', calls, broken_off) o same =
              client_disconnect-Stale k k' c fd h running is_connected same
          by_end (k', calls, flag_cleared) o same = absurd (ground (arith, o))
          by_end (k', calls, loop_starved) o same = absurd (ground (arith, o))

      -- A running client whose connect succeeds and whose packet loop then breaks off, as when the peer disconnects:
      -- after this turn of the client loop raw_is_running still answers true, raw_send answers NOT_RUNNING and
      -- makes no call, and of the descriptors just that of the connection was closed.
      pub raw_send-client_loop :
          (w : World P) (fd rounds : ℕ)
          → w.1.is_running_flag ≡ true
          → (client_connect P w).1 ≡ true
          → (client_connect P w).0.1.client_fd ≡ some fd
          → (client_receive P e
              (client_connect P w).0.1.raw
              fuel
              fd
              rounds
              (client_connect P w).0.0).2
            ≡ broken_off
          → Stale (client_connect P w).0 fd (client_loop P e fuel (rounds ∷ []) w).0
      unfolding client_loop Connected
      raw_send-client_loop w fd rounds running made h ended =
          by_connect (client_connect P w) (client_connect-Connected w) made h ended
        where
          by_connect :
              (r : World P × Bool)
              → Connected w.1 r
              → r.1 ≡ true
              → r.0.1.client_fd ≡ some fd
              → (client_receive P e r.0.1.raw fuel fd rounds r.0.0).2 ≡ broken_off
              → Stale r.0 fd
                  (turned P e fuel (client_loop P e fuel []) (client_turn P e fuel rounds r)).0
          by_connect (w', false) m made h ended = absurd (ground (arith, made))
          by_connect ((k, c), true) (is_connected, flag) made h ended =
              client_turn-Stale k c fd rounds h (flag ∙ running) is_connected ended
