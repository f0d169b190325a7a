-- ===== src/Examples/Transports.antt =====
-- The transports at concrete inputs.
use hakoniwa_pdu_endpoint.Prelude.{
  ℕ, ◌+◌, ◌≤◌, ◌≡◌, refl, arith, true, false, some, none, [], ◌∷◌, length, codes, List,
}
use hakoniwa_pdu_endpoint.Types.{ok, dir_inout}
use hakoniwa_pdu_endpoint.Packet.Wire.{little, big}
use hakoniwa_pdu_endpoint.CommRaw.{PduCommRaw}
use hakoniwa_pdu_endpoint.CommRaw.Delivery.{IsSendable}
use hakoniwa_pdu_endpoint.CommRaw.Version.{configure_version}
use hakoniwa_pdu_endpoint.Sockets.{parse_direction, resolve_address}
use hakoniwa_pdu_endpoint.Sockets.Stream.{Filled, read_data, read_data-Filled}
use hakoniwa_pdu_endpoint.Sockets.Output.{Written, write_data, write_data-Written}
use hakoniwa_pdu_endpoint.Sockets.Options.{
  default_options, apply_options, socket_options, timeout_options,
}
use hakoniwa_pdu_endpoint.Tcp
use hakoniwa_pdu_endpoint.Tcp.{
  TcpComm, World, new_tcp, raw_start, raw_stop, raw_close, raw_is_running, raw_send, server,
}
use hakoniwa_pdu_endpoint.Tcp.Framing.{client_receive, server_receive}
use hakoniwa_pdu_endpoint.Tcp.SameLoop.{client_receive-server_receive}
use hakoniwa_pdu_endpoint.Tcp.Messages.{Message, stream_of, Delivers, server_receive-stream_of}
use hakoniwa_pdu_endpoint.Tcp.Opening
use hakoniwa_pdu_endpoint.Tcp.Leaks.{Closed, raw_close-Closed}
use hakoniwa_pdu_endpoint.Tcp.Outcome.{Outcome, raw_open-Outcome}
use hakoniwa_pdu_endpoint.Tcp.Threads.{server_accept, server_loop}
use hakoniwa_pdu_endpoint.Tcp.Steps.{Reach, created, later, opens, starts, accepts}
use hakoniwa_pdu_endpoint.Tcp.Invariant.{Sound}
use hakoniwa_pdu_endpoint.Tcp.Reachable.{Reach-Sound}
use hakoniwa_pdu_endpoint.Tcp.Sending.{SendsOn, raw_is_running-SendsOn, server_loop-raw_start}
use hakoniwa_pdu_endpoint.Udp.{UdpComm, new_udp}
use hakoniwa_pdu_endpoint.Udp
use hakoniwa_pdu_endpoint.Udp.Opening.{raw_open}
use hakoniwa_pdu_endpoint.Udp.Released.{SocketOutcome}
use hakoniwa_pdu_endpoint.Udp.Outcome.{raw_open-SocketOutcome}
use hakoniwa_pdu_endpoint.Tcp.MessagesV1.{server_receive-stream_of_v1}
use hakoniwa_pdu_endpoint.Udp.Traffic.{datagrams, messages, recv_loop-datagrams, raw_send-recv_turn}
use hakoniwa_pdu_endpoint.TcpMux.{TcpCommMultiplexer}
use hakoniwa_pdu_endpoint.TcpMux.Accounts.{Balanced, accepting, taking, run, run-Balanced}
use hakoniwa_pdu_endpoint.Examples.Documents.{documents, key}
use hakoniwa_pdu_endpoint.Examples.Network.{
  System, network, network-IsStream, network-IsMailbox, network-IsTable, network-IsSink,
}

abbrev v2_comm : PduCommRaw
v2_comm = record { packet_version = codes "v2"; has_callback = true }

key-IsSendable : IsSendable key
key-IsSendable = record {
  plain = ground arith;
  name_fits = omega arith;
  channel_fits = omega arith;
}

abbrev system : List ℕ → ℕ → System
system stream lag = record {
  stream = stream;
  lag = lag;
  outbox = [];
  mail = [];
  has_socket = false;
  has_connection = false;
}

read_data-Filled_example :
    Filled network 4
      (network-IsStream 4)
      (system (7 ∷ 8 ∷ 9 ∷ []) 1)
      2
      []
      (read_data network 4 5 (system (7 ∷ 8 ∷ 9 ∷ []) 1) 2)
read_data-Filled_example =
    read_data-Filled network 4 (network-IsStream 4) 5 (system (7 ∷ 8 ∷ 9 ∷ []) 1) 2 (omega arith)
      (omega arith)

write_data-Written_example :
    Written network 4
      (network-IsSink 4)
      (system [] 0)
      (7 ∷ 8 ∷ [])
      (write_data network 4 5 (system [] 0) (7 ∷ 8 ∷ []))
write_data-Written_example =
    write_data-Written network 4 (network-IsSink 4) 5 (system [] 0) (7 ∷ 8 ∷ []) (omega arith)

abbrev two_messages : List Message
two_messages = (key, 1 ∷ 2 ∷ []) ∷ (key, []) ∷ []

abbrev sent_system : System
sent_system = system (stream_of big v2_comm two_messages (5 ∷ [])) 3

server_receive-stream_of_example :
    Delivers network 4
      (network-IsStream 4)
      little
      v2_comm
      400
      two_messages
      (5 ∷ [])
      1
      (length two_messages + 1)
      sent_system
server_receive-stream_of_example =
    server_receive-stream_of network 4 (network-IsStream 4) little v2_comm 400 big v2_comm 310 1
      two_messages (5 ∷ []) sent_system refl refl refl
      ((key-IsSendable, omega arith, omega arith), ((key-IsSendable, omega arith, omega arith), tt))
      (omega arith) refl

client_receive-server_receive_example :
    client_receive network little v2_comm 9 4 2 (system [] 1)
    ≡ server_receive network little v2_comm 9 4 2 (system [] 1)
client_receive-server_receive_example =
    client_receive-server_receive network little v2_comm 9 4 2 (system [] 1)

no_client_yet : (new_tcp ℕ).client_fd ≡ none
unfolding new_tcp
no_client_yet = refl

no_listener_yet : (new_tcp ℕ).listen_fd ≡ none
unfolding new_tcp
no_listener_yet = refl

raw_open-Outcome_example :
    Outcome network network-IsTable
      (system [] 0)
      (Opening.raw_open network documents (system [] 0, new_tcp ℕ) (codes "taken.json"))
raw_open-Outcome_example =
    raw_open-Outcome network network-IsTable documents (system [] 0) (new_tcp ℕ)
      (codes "taken.json") no_client_yet no_listener_yet

abbrev connected : TcpComm ℕ
connected = record {
  raw = v2_comm;
  role = server;
  options = record { backlog = 5; connect_timeout_ms = 1000; stream = default_options };
  listen_fd = some 3;
  client_fd = some 4;
  thread = some server;
  is_running_flag = true;
  config_direction = dir_inout;
  remote_addr_info = none;
  is_connected = true;
}

abbrev busy_system : System
busy_system = record (system [] 0) { has_socket = true; has_connection = true }

raw_close-Closed_example :
    Closed network network-IsTable busy_system connected
      (raw_close network (busy_system, connected))
raw_close-Closed_example = raw_close-Closed network network-IsTable busy_system connected

server_loop-raw_start_example :
    ((raw_start network (raw_stop network (busy_system, connected))).1 ≡ ok)
    × (server_loop network little 9
          (2 ∷ 2 ∷ [])
          (raw_start network (raw_stop network (busy_system, connected))).0
        ≡ ((raw_start network (raw_stop network (busy_system, connected))).0, []))
server_loop-raw_start_example =
    server_loop-raw_start network little 9 (2 ∷ 2 ∷ []) (busy_system, connected) refl

-- An object that was opened as a server, started, and accepted a connection.
abbrev opened_world : World network
opened_world = (Opening.raw_open network documents (system [] 0, new_tcp ℕ) (codes "tcp.json")).0

abbrev started_world : World network
started_world = (raw_start network opened_world).0

abbrev accepted_world : World network
accepted_world = (server_accept network started_world).0

is_started :
    (started_world.1.thread ≡ some server)
    × (started_world.1.is_running_flag ≡ true)
    × (started_world.1.client_fd ≡ none)
unfolding raw_start Opening.raw_open Opening.configure Opening.configure_role
    Opening.configure_options Opening.open_role Opening.listen_on Tcp.configure_socket_options
    Tcp.configure_timeouts apply_options socket_options timeout_options configure_version
    parse_direction resolve_address new_tcp
is_started = (refl, refl, refl)

is_accepted :
    (accepted_world.1.thread ≡ some server) × (raw_is_running network accepted_world.1 ≡ true)
unfolding raw_start Opening.raw_open Opening.configure Opening.configure_role
    Opening.configure_options Opening.open_role Opening.listen_on Tcp.configure_socket_options
    Tcp.configure_timeouts apply_options socket_options timeout_options configure_version
    parse_direction resolve_address new_tcp server_accept raw_is_running
is_accepted = (refl, refl)

accepted-Reach : Reach network documents accepted_world
accepted-Reach =
    later
      (later (later (created (system [] 0)) (opens (system [] 0, new_tcp ℕ) (codes "tcp.json")))
        (starts opened_world))
      (accepts started_world is_started.0 is_started.1 is_started.2)

Reach-Sound_example : Sound network accepted_world
Reach-Sound_example = Reach-Sound network documents accepted-Reach

raw_is_running-SendsOn_example : SendsOn network accepted_world 9 (1 ∷ 2 ∷ [])
raw_is_running-SendsOn_example =
    raw_is_running-SendsOn network documents accepted_world 9 (1 ∷ 2 ∷ []) accepted-Reach
      is_accepted.0 is_accepted.1

abbrev udp : UdpComm ℕ
udp = record {
  raw = v2_comm;
  socket_fd = some 3;
  dest_addr = none;
  has_fixed_remote = false;
  last_client_addr = none;
  config_direction = dir_inout;
  has_thread = true;
  is_running_flag = true;
}

abbrev two_from : List (Message × ℕ)
two_from = ((key, 1 ∷ []), 7000) ∷ ((key, []), 7001) ∷ []

abbrev mailed : System
mailed = record (system [] 0) { mail = datagrams network little big v2_comm two_from }

recv_loop-datagrams_example :
    ((Udp.recv_loop network little 3 (mailed, udp)).1 ≡ messages network little two_from)
    × ((Udp.recv_loop network little 3 (mailed, udp)).0.0.mail ≡ [])
recv_loop-datagrams_example =
    recv_loop-datagrams network little 3 (network-IsMailbox 3) big v2_comm two_from 3 mailed udp
      refl refl refl refl ((key-IsSendable, omega arith), ((key-IsSendable, omega arith), tt)) refl
      two_waiting
  where
    two_waiting : length mailed.mail + 0 ≤ 3
    two_waiting = unfold datagrams in omega arith

abbrev one_mail : System
one_mail = record (system [] 0) { mail = (1 ∷ [], 7000) ∷ [] }

raw_send-recv_turn_example :
    Udp.raw_send network (Udp.recv_turn network little (one_mail, udp)).0 (2 ∷ [])
    ≡ Udp.sent_to network (network.send_to (system [] 0) 3 (2 ∷ []) 7000)
raw_send-recv_turn_example =
    raw_send-recv_turn network little one_mail (system [] 0) udp 3 (1 ∷ []) 7000 2 [] refl refl refl
      refl

abbrev mux : TcpCommMultiplexer
mux = record {
  listen_fd = some 3;
  is_running = true;
  has_thread = true;
  options = record { backlog = 5; stream = default_options };
  expected_clients = 2;
  connected_clients = 0;
  pending_sessions = [];
}

run-Balanced_example :
    Balanced network mux (run network (accepting ∷ taking ∷ accepting ∷ []) (system [] 0, mux))
run-Balanced_example = run-Balanced network (accepting ∷ taking ∷ accepting ∷ []) (system [] 0) mux

new_udp_socket : (new_udp ℕ).socket_fd ≡ none
unfolding new_udp
new_udp_socket = refl

raw_open-SocketOutcome_example :
    SocketOutcome network network-IsTable
      (system [] 0)
      (raw_open network documents (system [] 0, new_udp ℕ) (codes "udp.json"))
raw_open-SocketOutcome_example =
    raw_open-SocketOutcome network network-IsTable documents (system [] 0) (new_udp ℕ)
      (codes "udp.json") new_udp_socket

abbrev v1_comm : PduCommRaw
v1_comm = record { packet_version = codes "v1"; has_callback = true }

abbrev sent_system_v1 : System
sent_system_v1 = system (stream_of big v1_comm two_messages (5 ∷ [])) 3

server_receive-stream_of_v1_example :
    Delivers network 4
      (network-IsStream 4)
      little
      v1_comm
      400
      two_messages
      (5 ∷ [])
      1
      (length two_messages + 1)
      sent_system_v1
server_receive-stream_of_v1_example =
    server_receive-stream_of_v1 network 4 (network-IsStream 4) little v1_comm 400 big v1_comm 40 1
      two_messages (5 ∷ []) sent_system_v1 refl refl refl
      (
        (key-IsSendable, omega arith, omega arith, refl),
        ((key-IsSendable, omega arith, omega arith, refl), tt),
      )
      (omega arith) refl
