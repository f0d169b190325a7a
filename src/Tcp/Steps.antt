-- ===== src/Tcp/Steps.antt =====
-- A TcpComm of src/comm_tcp.cpp under the calls of its owner and the steps of its thread, in any order.
use hakoniwa_pdu_endpoint.Prelude.{◌≡◌, true, none, some, StdString}
use hakoniwa_pdu_endpoint.Json.{Json}
use hakoniwa_pdu_endpoint.Sockets.{Posix}
use hakoniwa_pdu_endpoint.Tcp.{
  client, server, TcpComm, World, new_tcp, raw_start, raw_stop, raw_close,
}
use hakoniwa_pdu_endpoint.Tcp.Opening.{raw_open}
use hakoniwa_pdu_endpoint.Tcp.Threads.{
  server_accept, server_disconnect, client_connect, client_disconnect,
}

pub data Step (P : Posix) (J : Json) : World P → World P → Type 0 where
  opens : (w : World P) (config_path : StdString) → Step P J w (raw_open P J w config_path).0
  starts : (w : World P) → Step P J w (raw_start P w).0
  stops : (w : World P) → Step P J w (raw_stop P w)
  closes : (w : World P) → Step P J w (raw_close P w)
  -- The thread is at the head of its outer loop, or in its inner loop and leaves it.
  accepts :
      (w : World P)
      → w.1.thread ≡ some server
      → w.1.is_running_flag ≡ true
      → w.1.client_fd ≡ none
      → Step P J w (server_accept P w).0
  leaves : (w : World P) → w.1.thread ≡ some server → Step P J w (server_disconnect P w)
  connects :
      (w : World P)
      → w.1.thread ≡ some client
      → w.1.is_running_flag ≡ true
      → w.1.client_fd ≡ none
      → Step P J w (client_connect P w).0
  drops : (w : World P) → w.1.thread ≡ some client → Step P J w (client_disconnect P w)
  -- Traffic, and whatever else goes on in the system.
  goes_on : (k k' : P.Kernel) (c : TcpComm P.Address) → Step P J (k, c) (k', c)

pub data Reach (P : Posix) (J : Json) : World P → Type 0 where
  created : (k : P.Kernel) → Reach P J (k, new_tcp P.Address)
  later : {w w' : World P} → Reach P J w → Step P J w w' → Reach P J w'
