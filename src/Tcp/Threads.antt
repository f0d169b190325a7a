-- ===== src/Tcp/Threads.antt =====
-- server_loop, client_loop and connect_with_timeout of src/comm_tcp.cpp.
use hakoniwa_pdu_endpoint.Prelude.{
  ℕ, Bool, true, false, not, Option, none, some, List, [], ◌∷◌, ◌++◌, if◌then◌else◌, nat_eq,
}
use hakoniwa_pdu_endpoint.Types.{HakoPduErrorType, ok, io_error, timeout, invalid_argument, is_ok}
use hakoniwa_pdu_endpoint.Packet.Wire.{Endian}
use hakoniwa_pdu_endpoint.Sockets.{Posix}
use hakoniwa_pdu_endpoint.Tcp.{TcpComm, World, Options, configure_socket_options, close_client}
use hakoniwa_pdu_endpoint.Tcp.Framing.{
  server_receive, client_receive, LoopEnd, broken_off, loop_starved,
}
use hakoniwa_pdu_endpoint.Tcp.Messages.{Message}

module _ (P : Posix) where
  -- connect_with_timeout after `poll`, and after `connect`.
  abbrev connected_at_last : ℕ → ℕ → P.Kernel × Bool → P.Kernel × HakoPduErrorType
  connected_at_last fd flags (k, false) = (k, io_error)
  connected_at_last fd flags (k, true) = ((P.set_flags k fd flags).0, ok)

  abbrev polled : ℕ → ℕ → P.Kernel × Bool → P.Kernel × HakoPduErrorType
  polled fd flags (k, false) = (k, timeout)
  polled fd flags (k, true) = connected_at_last fd flags (P.no_so_error k fd)

  abbrev connecting : ℕ → ℕ → Options → P.Kernel × Option ℕ → P.Kernel × HakoPduErrorType
  connecting fd flags o (k, none) = ((P.set_flags k fd flags).0, ok)
  connecting fd flags o (k, some errno) =
      if not (nat_eq errno P.einprogress)
      then (k, io_error)
      else polled fd flags (P.poll_writable k fd o.connect_timeout_ms)

  abbrev nonblocking : ℕ → ℕ → P.Address → Options → P.Kernel × Bool → P.Kernel × HakoPduErrorType
  nonblocking fd flags remote o (k, false) = (k, io_error)
  nonblocking fd flags remote o (k, true) = connecting fd flags o (P.connect k fd remote)

  abbrev with_flags : ℕ → P.Address → Options → P.Kernel → Option ℕ → P.Kernel × HakoPduErrorType
  with_flags fd remote o k none = (k, io_error)
  with_flags fd remote o k (some flags) =
      nonblocking fd flags remote o (P.set_flags k fd (P.with_nonblock flags))

  unfoldable pub connect_with_timeout :
      ℕ → Option P.Address → Options → P.Kernel → P.Kernel × HakoPduErrorType
  connect_with_timeout fd none o k = (k, invalid_argument)
  connect_with_timeout fd (some remote) o k = with_flags fd remote o k (P.get_flags k fd)

  abbrev pub connected : ℕ → World P → World P
  connected fd (k, c) = (
    (configure_socket_options P fd c.options k).0,
    record c { client_fd = some fd; is_connected = true },
  )

  -- The outer loop of server_loop up to the connection; on a descriptor of -1 `accept` fails.
  abbrev pub accepted : TcpComm P.Address → P.Kernel × Option ℕ → World P × Bool
  accepted c (k, none) = ((k, c), false)
  accepted c (k, some fd) = (connected fd (k, c), true)

  abbrev pub accept_on : TcpComm P.Address → P.Kernel → Option ℕ → World P × Bool
  accept_on c k none = ((k, c), false)
  accept_on c k (some fd) = accepted c (P.accept k fd)

  unfoldable pub server_accept : World P → World P × Bool
  server_accept (k, c) = accept_on c k c.listen_fd

  -- What follows the inner loop.
  unfoldable pub server_disconnect : World P → World P
  server_disconnect (k, c) = close_client P (k, record c { is_connected = false })

  abbrev pub connect_tried : TcpComm P.Address → ℕ → P.Kernel × HakoPduErrorType → World P × Bool
  connect_tried c fd (k, err) =
      if is_ok err
      then (connected fd (k, c), true)
      else ((P.close k fd, record c { client_fd = none }), false)

  abbrev pub client_socket :
      TcpComm P.Address → Option P.Address → P.Kernel × Option ℕ → World P × Bool
  client_socket c remote (k, none) = ((k, record c { client_fd = none }), false)
  client_socket c remote (k, some fd) =
      connect_tried c fd (connect_with_timeout fd remote c.options k)

  -- The outer loop of client_loop up to the connection, less the pauses. Without an address the family is
  -- AF_UNSPEC, for which `socket` fails.
  abbrev pub connect_to : TcpComm P.Address → P.Kernel → Option P.Address → World P × Bool
  connect_to c k none = ((k, record c { client_fd = none }), false)
  connect_to c k (some remote) = client_socket c (some remote) (P.socket k remote)

  unfoldable pub client_connect : World P → World P × Bool
  client_connect (k, c) = connect_to c k c.remote_addr_info

  unfoldable pub client_disconnect : World P → World P
  client_disconnect w = close_client P w

  module _ (e : Endian) (fuel : ℕ) where
    -- The calls of a connection, and why its inner loop ended.
    abbrev Served : Type 0
    Served = World P × List Message × LoopEnd

    abbrev served : TcpComm P.Address → P.Kernel × List Message × LoopEnd → Served
    served c (k, calls, why) = ((k, c), calls, why)

    -- With so many rounds of the inner loop; on a descriptor of -1 the first `recv` fails.
    abbrev pub serve : ℕ → P.Kernel → TcpComm P.Address → Option ℕ → Served
    serve rounds k c none = ((k, c), [], broken_off)
    serve rounds k c (some fd) = served c (server_receive P e c.raw fuel fd rounds k)

    abbrev pub listen_to : ℕ → P.Kernel → TcpComm P.Address → Option ℕ → Served
    listen_to rounds k c none = ((k, c), [], broken_off)
    listen_to rounds k c (some fd) = served c (client_receive P e c.raw fuel fd rounds k)

    -- A thread whose fuel ran out has not left its inner loop.
    abbrev pub left_by : (World P → World P) → Served → Served
    left_by disconnect (w, calls, loop_starved) = (w, calls, loop_starved)
    left_by disconnect (w, calls, why) = (disconnect w, calls, why)

    -- Without a connection the outer loop goes on.
    abbrev pub server_turn : ℕ → World P × Bool → Served
    server_turn rounds (w, false) = (w, [], broken_off)
    server_turn rounds ((k, c), true) = left_by server_disconnect (serve rounds k c c.client_fd)

    abbrev pub client_turn : ℕ → World P × Bool → Served
    client_turn rounds (w, false) = (w, [], broken_off)
    client_turn rounds ((k, c), true) = left_by client_disconnect (listen_to rounds k c c.client_fd)

    -- The outer loop ends with the flag, which the inner loop found cleared.
    abbrev pub turned : (World P → World P × List Message) → Served → World P × List Message
    turned again (w, calls, broken_off) = let (w', calls') = again w in (w', calls ++ calls')
    turned again (w, calls, why) = (w, calls)

    -- The loops, while the flag is set: for each turn of the outer loop how many rounds the inner one makes
    -- at most, until it finds the flag cleared.
    unfoldable pub server_loop : List ℕ → World P → World P × List Message
    server_loop [] w = (w, [])
    server_loop (rounds ∷ more) w = turned (server_loop more) (server_turn rounds (server_accept w))

    unfoldable pub client_loop : List ℕ → World P → World P × List Message
    client_loop [] w = (w, [])
    client_loop (rounds ∷ more) w =
        turned (client_loop more) (client_turn rounds (client_connect w))
