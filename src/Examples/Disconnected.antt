-- ===== src/Examples/Disconnected.antt =====
-- Connections that break off, at concrete inputs: the peer has sent nothing more.
use hakoniwa_pdu_endpoint.Prelude.{ℕ, ◌≡◌, refl, true, false, some, none, [], ◌∷◌, codes}
use hakoniwa_pdu_endpoint.Types.{dir_inout}
use hakoniwa_pdu_endpoint.Packet.Wire.{little}
use hakoniwa_pdu_endpoint.CommRaw.{PduCommRaw}
use hakoniwa_pdu_endpoint.Sockets.Options.{
  default_options, apply_options, socket_options, timeout_options,
}
use hakoniwa_pdu_endpoint.Sockets.Stream.{read_loop, read_data}
use hakoniwa_pdu_endpoint.Tcp
use hakoniwa_pdu_endpoint.Tcp.{TcpComm, World, client}
use hakoniwa_pdu_endpoint.Tcp.Framing.{client_receive, client_packet, client_v2_packet, broken_off}
use hakoniwa_pdu_endpoint.Tcp.Threads.{client_connect, connect_with_timeout, client_loop}
use hakoniwa_pdu_endpoint.Tcp.Dropped.{Stale, raw_send-client_loop}
use hakoniwa_pdu_endpoint.TcpMux.Session.{TcpSessionComm}
use hakoniwa_pdu_endpoint.Examples.Network.{System, network, network-IsTable, network-RecvKeeps}

abbrev quiet_system : System
quiet_system = record {
  stream = [];
  lag = 1;
  outbox = [];
  mail = [];
  has_socket = false;
  has_connection = false;
}

abbrev v2_comm : PduCommRaw
v2_comm = record { packet_version = codes "v2"; has_callback = true }

-- A started client.
abbrev calling : TcpComm ℕ
calling = record {
  raw = v2_comm;
  role = client;
  options = record { backlog = 5; connect_timeout_ms = 1000; stream = default_options };
  listen_fd = none;
  client_fd = none;
  thread = some client;
  is_running_flag = true;
  config_direction = dir_inout;
  remote_addr_info = some 7000;
  is_connected = false;
}

abbrev calling_world : World network
calling_world = (quiet_system, calling)

is_made : (client_connect network calling_world).1 ≡ true
unfolding client_connect connect_with_timeout
is_made = refl

is_third : (client_connect network calling_world).0.1.client_fd ≡ some 3
unfolding client_connect connect_with_timeout
is_third = refl

breaks_off :
    (client_receive network little
      (client_connect network calling_world).0.1.raw
      9
      3
      2
      (client_connect network calling_world).0.0).2
    ≡ broken_off
unfolding client_connect connect_with_timeout client_receive client_packet client_v2_packet
    read_data read_loop apply_options Tcp.configure_socket_options Tcp.configure_timeouts
    socket_options timeout_options
breaks_off = refl

raw_send-client_loop_example :
    Stale network network-IsTable
      (client_connect network calling_world).0
      3
      (client_loop network little 9 (2 ∷ []) calling_world).0
raw_send-client_loop_example =
    raw_send-client_loop network network-IsTable network-RecvKeeps little 9 calling_world 3 2 refl
      is_made is_third breaks_off

abbrev session : TcpSessionComm
session = record {
  raw = v2_comm;
  fd = some 4;
  is_running = false;
  has_thread = false;
  config_direction = dir_inout;
  options = default_options;
}

abbrev connected_system : System
connected_system = record quiet_system { has_connection = true }
