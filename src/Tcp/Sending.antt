-- ===== src/Tcp/Sending.antt =====
-- raw_is_running, raw_send and the restart of TcpComm in src/comm_tcp.cpp: what the answers mean.
use hakoniwa_pdu_endpoint.Prelude.{
  ℕ, ◌≡◌, refl, ap, ◌∙◌, Bool, true, false, ◌&&◌, Option, none, some, is_some, List, [], ◌∷◌, ◌++◌,
  arith,
}
use hakoniwa_pdu_endpoint.Types.{ok, Direction, dir_in, dir_out, dir_inout, invalid_argument, is_in}
use hakoniwa_pdu_endpoint.Json.{Json}
use hakoniwa_pdu_endpoint.Cache.Span.{Bytes}
use hakoniwa_pdu_endpoint.Packet.Wire.{Endian}
use hakoniwa_pdu_endpoint.Sockets.{Posix}
use hakoniwa_pdu_endpoint.Sockets.Output.{wrote, write_data}
use hakoniwa_pdu_endpoint.Tcp.{
  Role, server, TcpComm, World, raw_is_running, raw_send, send_on, raw_start, raw_stop,
}
use hakoniwa_pdu_endpoint.Tcp.Messages.{Message}
use hakoniwa_pdu_endpoint.Tcp.Threads.{accept_on, server_accept, server_turn, turned, server_loop}
use hakoniwa_pdu_endpoint.Tcp.Steps.{Reach}
use hakoniwa_pdu_endpoint.Tcp.Reachable.{Reach-Sound}

module _ (P : Posix) where
  -- raw_send works on a connection: it refuses an endpoint that only receives, and else writes there.
  pub record SendsOn (w : World P) (fuel : ℕ) (bytes : Bytes) : Type 0 where
    pub connection : ℕ
    pub its_own : w.1.client_fd ≡ some connection
    pub refused :
        w.1.config_direction ≡ dir_in → raw_send P fuel w bytes ≡ (w.0, wrote invalid_argument)
    pub written :
        is_in w.1.config_direction ≡ false
        → raw_send P fuel w bytes ≡ write_data P connection fuel w.0 bytes

  sends_on :
      (k : P.Kernel) (c : TcpComm P.Address) (fuel : ℕ) (bytes : Bytes) (o : Option ℕ)
      → c.client_fd ≡ o
      → is_some o ≡ true
      → SendsOn (k, c) fuel bytes
  unfolding raw_send
  sends_on k c fuel bytes none e h = absurd (ground (arith, h))
  sends_on k c fuel bytes (some fd) e h = record {
    connection = fd;
    its_own = e;
    refused = λ d. rw (e, d) refl;
    written = λ d. rw e (not_in c.config_direction d);
  }
    where
      not_in :
          (d : Direction)
          → is_in d ≡ false
          → send_on P fuel bytes k (some fd) d ≡ write_data P fd fuel k bytes
      not_in dir_in h = absurd (ground (arith, h))
      not_in dir_out h = refl
      not_in dir_inout h = refl

  module _ (J : Json) where
    -- In every reachable state with a server's thread: if raw_is_running answers true, raw_send has a
    -- connection to write to, and answers INVALID_ARGUMENT just for the direction "in".
    pub raw_is_running-SendsOn :
        (w : World P) (fuel : ℕ) (bytes : Bytes)
        → Reach P J w
        → w.1.thread ≡ some server
        → raw_is_running P w.1 ≡ true
        → SendsOn w fuel bytes
    unfolding raw_is_running
    raw_is_running-SendsOn (k, c) fuel bytes r t h =
        sends_on k c fuel bytes c.client_fd refl
          ((Reach-Sound P J r).server_connected t (connected c.is_running_flag c.is_connected h))
      where
        connected : (a b : Bool) → (a && b) ≡ true → b ≡ true
        connected true b h = h
        connected false b h = absurd (ground (arith, h))

  unheard : (w : World P) → w.1.listen_fd ≡ none → server_accept P w ≡ (w, false)
  unfolding server_accept
  unheard (k, c) h = ap (accept_on P c k) h

  deaf :
      (e : Endian) (fuel : ℕ) (rounds : List ℕ) (w : World P)
      → w.1.listen_fd ≡ none
      → server_loop P e fuel rounds w ≡ (w, [])
  unfolding server_loop
  deaf e fuel [] w h = refl
  deaf e fuel (n ∷ rounds) w h =
      ap
        (λ (r : World P × Bool).
          turned P e fuel (server_loop P e fuel rounds) (server_turn P e fuel n r))
        (unheard w h)
      ∙ ap (λ (r : World P × List Message). (r.0, [] ++ r.1)) (deaf e fuel rounds w h)

  -- A running object that is stopped and started again answers OK, but its server loop, however often it
  -- turns, changes nothing and makes no call of the callback: the listener is gone.
  pub server_loop-raw_start :
      (e : Endian) (fuel : ℕ) (rounds : List ℕ) (w : World P)
      → w.1.is_running_flag ≡ true
      → ((raw_start P (raw_stop P w)).1 ≡ ok)
        × (server_loop P e fuel rounds (raw_start P (raw_stop P w)).0
            ≡ ((raw_start P (raw_stop P w)).0, []))
  unfolding raw_start raw_stop
  server_loop-raw_start e fuel rounds (k, c) h = by_flag c.is_running_flag c.thread h
    where
      Deaf : World P → Type 0
      Deaf w =
          ((raw_start P (raw_stop P w)).1 ≡ ok)
          × (server_loop P e fuel rounds (raw_start P (raw_stop P w)).0
              ≡ ((raw_start P (raw_stop P w)).0, []))

      restarted : Option Role → World P
      restarted thread =
          (raw_start P (raw_stop P (k, record c { is_running_flag = true; thread = thread }))).0

      by_flag :
          (running : Bool) (thread : Option Role)
          → running ≡ true
          → Deaf (k, record c { is_running_flag = running; thread = thread })
      by_flag false thread h = absurd (ground (arith, h))
      by_flag true none h = (refl, deaf e fuel rounds (restarted none) refl)
      by_flag true (some role) h = (refl, deaf e fuel rounds (restarted (some role)) refl)
