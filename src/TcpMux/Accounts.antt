-- ===== src/TcpMux/Accounts.antt =====
-- The accounts of TcpCommMultiplexer in src/comm_tcp_mux.cpp: every connection that was accepted is handed
-- out once, or still waits.
use hakoniwa_pdu_endpoint.Prelude.{
  ℕ, ◌+◌, ◌%◌, ◌^◌, ◌≡◌, sym, ap, ◌∙◌, arith, Option, none, some, List, [], ◌∷◌, ◌++◌, map, length,
  append_assoc, append-nil,
}
use hakoniwa_pdu_endpoint.Sockets.{Posix}
use hakoniwa_pdu_endpoint.TcpMux.Session.{TcpSessionComm, new_session}
use hakoniwa_pdu_endpoint.TcpMux.{
  TcpCommMultiplexer, World, connected_count, take_sessions, accept_turn, accept_on, accepted,
}

-- What the accept thread and the owner do in turns.
pub data Turn : Type 0 where
  accepting taking : Turn

module _ (P : Posix) where
  abbrev as_list : Option ℕ → List ℕ
  as_list none = []
  as_list (some fd) = fd ∷ []

  -- The object after the turns, the descriptors that `accept` gave, and the sessions that were taken.
  unfoldable pub run : List Turn → World P → World P × List ℕ × List TcpSessionComm
  run [] w = (w, [], [])
  run (accepting ∷ turns) (k, m) =
      let (w', fds, taken) = run turns (accept_turn P (k, m)) in
      (w', as_list (accept_on P m k m.listen_fd).1 ++ fds, taken)
  run (taking ∷ turns) (k, m) =
      let (m', sessions) = take_sessions m in
      let (w', fds, taken) = run turns (k, m') in (w', fds, sessions ++ taken)

  -- After the turns, what the sessions and the count were before them.
  pub record Balanced (m : TcpCommMultiplexer) (r : World P × List ℕ × List TcpSessionComm)
      : Type 0 where
    pub sessions : r.2 ++ r.0.1.pending_sessions ≡ m.pending_sessions ++ map new_session r.1
    pub count : connected_count r.0.1 % 2 ^ 64 ≡ (connected_count m + length r.1) % 2 ^ 64

  -- Whatever the order of accepting and taking, the sessions taken and those that wait are those that waited
  -- at first and one for each connection accepted since, in the order of accepting, and the count grows
  -- by the connections, modulo 2 ^ 64.
  pub run-Balanced :
      (turns : List Turn) (k : P.Kernel) (m : TcpCommMultiplexer) → Balanced m (run turns (k, m))
  unfolding run accept_turn take_sessions connected_count
  run-Balanced [] k m = record {
    sessions = sym (append-nil m.pending_sessions);
    count = omega arith;
  }
  run-Balanced (taking ∷ turns) k m =
      let b = run-Balanced turns k (record m { pending_sessions = [] }) in
      record {
        sessions = append_assoc m.pending_sessions _ _ ∙ ap (◌++◌ m.pending_sessions) b.sessions;
        count = b.count;
      }
  run-Balanced (accepting ∷ turns) k m =
      by_answer (accept_on P m k m.listen_fd) (λ w. run-Balanced turns w.0 w.1)
    where
      by_answer :
          (r : P.Kernel × Option ℕ)
          → ((w : World P) → Balanced w.1 (run turns w))
          → Balanced m (
            (run turns (accepted P m r)).0,
            as_list r.1 ++ (run turns (accepted P m r)).1,
            (run turns (accepted P m r)).2,
          )
      by_answer (k', none) f = f (k', m)
      by_answer (k', some fd) f =
          let b = f (accepted P m (k', some fd)) in
          record {
            sessions = b.sessions ∙ append_assoc m.pending_sessions (new_session fd ∷ []) _;
            count = b.count ∙ omega arith;
          }
