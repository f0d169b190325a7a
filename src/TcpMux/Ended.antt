-- ===== src/TcpMux/Ended.antt =====
-- A session of src/comm_tcp_mux.cpp whose packet loop ended by itself.
use hakoniwa_pdu_endpoint.Prelude.{ℕ, ◌≡◌, true, false, none, if◌then◌else◌, nat_eq}
use hakoniwa_pdu_endpoint.Sockets.{Posix}
use hakoniwa_pdu_endpoint.Sockets.Descriptors.{IsTable}
use hakoniwa_pdu_endpoint.TcpMux.Session.{TcpSessionComm, raw_is_running, raw_close}

module _ (P : Posix) (T : IsTable P) where
  -- The session does not run, and closing it then closes its descriptor and no other, with the thread not joined.
  pub record Unjoined (k : P.Kernel) (fd : ℕ) (w : P.Kernel × TcpSessionComm) : Type 0 where
    pub stopped : raw_is_running P w.1 ≡ false
    pub no_descriptor : (raw_close P w).1.fd ≡ none
    pub closed :
        (n : ℕ) → T.is_open (raw_close P w).0 n ≡ (if nat_eq n fd then false else T.is_open k n)
    pub not_joined : (raw_close P w).1.has_thread ≡ true
