-- ===== src/Tcp/Invariant.antt =====
-- What holds of a TcpComm of src/comm_tcp.cpp whatever its owner calls and its thread does.
use hakoniwa_pdu_endpoint.Prelude.{
  ℕ, ◌≡◌, refl, Bool, true, false, Option, none, some, if-Any, is_some, arith,
}
use hakoniwa_pdu_endpoint.Types.{HakoPduErrorType, is_ok}
use hakoniwa_pdu_endpoint.Sockets.{Posix}
use hakoniwa_pdu_endpoint.Tcp.{Role, client, server, TcpComm, World, raw_start, raw_stop, raw_close}
use hakoniwa_pdu_endpoint.Tcp.Threads.{
  accepted, accept_on, server_accept, server_disconnect, connect_tried, client_socket, connect_to,
  client_connect, client_disconnect,
}
use hakoniwa_pdu_endpoint.Tcp.Links.{links, Links}

-- A thread is there while the flag is set; without it the object has no connection; a server's object
-- counts as connected only while it has one.
pub record IsSound (l : Links) : Type 0 where
  pub threaded : l.is_running_flag ≡ is_some l.thread
  pub idle : l.is_running_flag ≡ false → l.client_fd ≡ none
  pub connected_runs : l.is_connected ≡ true → l.is_running_flag ≡ true
  pub server_connected : l.thread ≡ some server → l.is_connected ≡ true → is_some l.client_fd ≡ true

module _ (P : Posix) where
  abbrev pub Sound : World P → Type 0
  Sound w = IsSound (links P.Address w.1)

  pub raw_stop-Sound : (w : World P) → Sound w → Sound (raw_stop P w)
  unfolding raw_stop
  raw_stop-Sound (k, c) s = by_flag c.is_running_flag c.thread s
    where
      by_flag :
          (running : Bool) (thread : Option Role)
          → Sound (k, record c { is_running_flag = running; thread = thread })
          → Sound (raw_stop P (k, record c { is_running_flag = running; thread = thread }))
      by_flag false thread s = s
      by_flag true none s = absurd (ground (arith, s.threaded))
      by_flag true (some role) s = record {
        threaded = refl;
        idle = λ e. refl;
        connected_runs = λ e. e;
        server_connected = λ e e'. absurd (ground (arith, e'));
      }

  raw_stop-not_running : (w : World P) → (raw_stop P w).1.is_running_flag ≡ false
  unfolding raw_stop
  raw_stop-not_running (k, c) = by_flag c.is_running_flag c.thread
    where
      by_flag :
          (running : Bool) (thread : Option Role)
          → (raw_stop P
              (k, record c { is_running_flag = running; thread = thread })).1.is_running_flag
            ≡ false
      by_flag false thread = refl
      by_flag true none = refl
      by_flag true (some role) = refl

  -- An object that does not run, with whatever connection.
  stopped-IsSound :
      (l : Links)
      → IsSound l
      → l.is_running_flag ≡ false
      → IsSound (record l { client_fd = none; listen_fd = none })
  stopped-IsSound l s h = record {
    threaded = s.threaded;
    idle = λ e. refl;
    connected_runs = s.connected_runs;
    server_connected = λ e e'. absurd (ground (arith, h, s.connected_runs e'));
  }

  pub raw_close-Sound : (w : World P) → Sound w → Sound (raw_close P w)
  unfolding raw_close
  raw_close-Sound w s =
      stopped-IsSound (links P.Address (raw_stop P w).1) (raw_stop-Sound w s)
        (raw_stop-not_running w)

  pub raw_start-Sound : (w : World P) → Sound w → Sound (raw_start P w).0
  unfolding raw_start
  raw_start-Sound (k, c) s = by_flag c.is_running_flag s
    where
      by_flag :
          (running : Bool)
          → Sound (k, record c { is_running_flag = running })
          → Sound (raw_start P (k, record c { is_running_flag = running })).0
      by_flag true s = s
      by_flag false s = record {
        threaded = refl;
        idle = λ e. absurd (ground (arith, e));
        connected_runs = λ e. refl;
        server_connected = λ e e'. absurd (ground (arith, s.connected_runs e'));
      }

  -- The steps of the server's thread.
  accept_on-Sound :
      (k : P.Kernel) (c : TcpComm P.Address) (o : Option ℕ)
      → c.is_running_flag ≡ true
      → Sound (k, c)
      → Sound (accept_on P c k o).0
  accept_on-Sound k c none h s = s
  accept_on-Sound k c (some listener) h s = by_answer (P.accept k listener)
    where
      by_answer : (r : P.Kernel × Option ℕ) → Sound (accepted P c r).0
      by_answer (k', none) = s
      by_answer (k', some fd) = record {
        threaded = s.threaded;
        idle = λ e. absurd (ground (arith, e, h));
        connected_runs = λ e. h;
        server_connected = λ e e'. refl;
      }

  pub server_accept-Sound :
      (w : World P) → w.1.is_running_flag ≡ true → Sound w → Sound (server_accept P w).0
  unfolding server_accept
  server_accept-Sound (k, c) h s = accept_on-Sound k c c.listen_fd h s

  pub server_disconnect-Sound : (w : World P) → Sound w → Sound (server_disconnect P w)
  unfolding server_disconnect
  server_disconnect-Sound (k, c) s = record {
    threaded = s.threaded;
    idle = λ e. refl;
    connected_runs = λ e. absurd (ground (arith, e));
    server_connected = λ e e'. absurd (ground (arith, e'));
  }

  -- The steps of the client's thread, which forgets no flag but the descriptor.
  pub client_disconnect-Sound :
      (w : World P) → w.1.thread ≡ some client → Sound w → Sound (client_disconnect P w)
  unfolding client_disconnect
  client_disconnect-Sound (k, c) h s = record {
    threaded = s.threaded;
    idle = λ e. refl;
    connected_runs = s.connected_runs;
    server_connected = λ e e'. absurd (ground (arith, h, e));
  }

  pub client_connect-Sound :
      (w : World P)
      → w.1.is_running_flag ≡ true
      → w.1.thread ≡ some client
      → Sound w
      → Sound (client_connect P w).0
  unfolding client_connect
  client_connect-Sound (k, c) h t s = by_remote c.remote_addr_info
    where
      unconnected : (k : P.Kernel) → Sound (k, record c { client_fd = none })
      unconnected k = record {
        threaded = s.threaded;
        idle = λ e. refl;
        connected_runs = s.connected_runs;
        server_connected = λ e e'. absurd (ground (arith, t, e));
      }

      by_attempt : (fd : ℕ) (r : P.Kernel × HakoPduErrorType) → Sound (connect_tried P c fd r).0
      by_attempt fd (k, err) =
          if-Any (λ (r : World P × Bool). Sound r.0) (is_ok err) _ _
            (record {
              threaded = s.threaded;
              idle = λ e. absurd (ground (arith, e, h));
              connected_runs = λ e. h;
              server_connected = λ e e'. refl;
            })
            (unconnected (P.close k fd))

      by_socket : (o : Option P.Address) (r : P.Kernel × Option ℕ) → Sound (client_socket P c o r).0
      by_socket o (k, none) = unconnected k
      by_socket o (k, some fd) = by_attempt fd _

      by_remote : (o : Option P.Address) → Sound (connect_to P c k o).0
      by_remote none = unconnected k
      by_remote (some remote) = by_socket (some remote) (P.socket k remote)
