-- ===== src/Tcp.antt =====
-- src/comm_tcp.cpp and include/hakoniwa/pdu/comm/comm_tcp.hpp: TcpComm, the transport over one TCP
-- connection, as a server or as a client. What the file system, the JSON library and the system do is a
-- parameter. A call of a method runs as a whole; the thread's steps stand in Tcp.Threads.
pub mod Framing
pub mod SameLoop
pub mod Delivery
pub mod Messages
pub mod MessagesV1
pub mod Opening
pub mod Threads
pub mod Steps
pub mod Links
pub mod Leaks
pub mod Kept
pub mod Dropped
pub mod Outcome
pub mod Invariant
pub mod Reachable
pub mod Sending
use hakoniwa_pdu_endpoint.Prelude.{
  ℕ, Bool, true, false, not, ◌&&◌, ◌||◌, Option, none, some, List, [], ◌∷◌, if◌then◌else◌, is_some,
  StdString, codes, ◌==◌, str_Eq, map,
}
use hakoniwa_pdu_endpoint.Types.{
  HakoPduErrorType, ok, busy, io_error, invalid_argument, not_running, is_ok, Direction, dir_in,
  dir_out, dir_inout,
}
use hakoniwa_pdu_endpoint.Json.{Json, not_found, malformed, parsed, contains, with_text}
use hakoniwa_pdu_endpoint.Cache.Span.{Bytes}
use hakoniwa_pdu_endpoint.CommRaw
use hakoniwa_pdu_endpoint.CommRaw.{PduCommRaw}
use hakoniwa_pdu_endpoint.CommRaw.Version.{configure_version}
use hakoniwa_pdu_endpoint.Sockets.{Posix, stream, parse_direction, resolve_address}
use hakoniwa_pdu_endpoint.Sockets.Options.{
  StreamOptions, default_options, assign_all, stream_assignments, value_of, bind, socket_options,
  timeout_options, apply_options,
}
use hakoniwa_pdu_endpoint.Sockets.Output.{WriteEnd, wrote, write_data}

pub data Role : Type 0 where
  client server : Role

-- `stream` has the options that the two other classes have as well.
pub record Options : Type 0 where
  pub backlog : ℕ
  pub connect_timeout_ms : ℕ
  pub stream : StreamOptions

-- A descriptor of -1 is none; `thread` is the loop that comm_thread_ runs, if it is joinable.
pub record TcpComm (Address : Type 0) : Type 0 where
  pub raw : PduCommRaw
  pub role : Role
  pub options : Options
  pub listen_fd : Option ℕ
  pub client_fd : Option ℕ
  pub thread : Option Role
  pub is_running_flag : Bool
  pub config_direction : Direction
  pub remote_addr_info : Option Address
  pub is_connected : Bool

unfoldable pub new_tcp : (Address : Type 0) → TcpComm Address
new_tcp Address = record {
  raw = CommRaw.init;
  role = client;
  options = record { backlog = 5; connect_timeout_ms = 1000; stream = default_options };
  listen_fd = none;
  client_fd = none;
  thread = none;
  is_running_flag = false;
  config_direction = dir_inout;
  remote_addr_info = none;
  is_connected = false;
}

module _ (P : Posix) where
  abbrev pub Tcp : Type 0
  Tcp = TcpComm P.Address

  -- The system and the object after a call.
  abbrev pub World : Type 0
  World = P.Kernel × TcpComm P.Address

  unfoldable pub configure_timeouts : ℕ → Options → P.Kernel → P.Kernel × HakoPduErrorType
  configure_timeouts fd o k = apply_options P fd k (timeout_options o.stream)

  abbrev pub then_timeouts : ℕ → Options → P.Kernel × HakoPduErrorType → P.Kernel × HakoPduErrorType
  then_timeouts fd o (k, err) = if is_ok err then configure_timeouts fd o k else (k, err)

  unfoldable pub configure_socket_options : ℕ → Options → P.Kernel → P.Kernel × HakoPduErrorType
  configure_socket_options fd o k =
      then_timeouts fd o (apply_options P fd k (socket_options o.stream))

  -- The calls on a descriptor, unless it is -1.
  abbrev pub closing : P.Kernel → Option ℕ → P.Kernel
  closing k none = k
  closing k (some fd) = P.close k fd

  abbrev pub shutting : P.Kernel → Option ℕ → P.Kernel
  shutting k none = k
  shutting k (some fd) = P.shutdown k fd

  abbrev pub stop_listening : World → World
  stop_listening (k, c) =
      (closing (shutting k c.listen_fd) c.listen_fd, record c { listen_fd = none })

  abbrev pub shutdown_client : World → World
  shutdown_client (k, c) = (shutting k c.client_fd, c)

  abbrev pub close_client : World → World
  close_client (k, c) = (closing k c.client_fd, record c { client_fd = none })

  abbrev pub close_listener : World → World
  close_listener (k, c) = (closing k c.listen_fd, record c { listen_fd = none })

  -- The thread finds the flag cleared and its connection shut down: it closes this connection and ends.
  abbrev pub joined : World → Option Role → World
  joined (k, c) none = (k, c)
  joined (k, c) (some role) = (closing k c.client_fd, record c { client_fd = none; thread = none })

  abbrev pub join : World → World
  join (k, c) = joined (k, c) c.thread

  abbrev pub disconnected : World → World
  disconnected (k, c) = (k, record c { is_connected = false })

  unfoldable pub raw_stop : World → World
  raw_stop (k, c) =
      if not c.is_running_flag
      then (k, c)
      else disconnected
          (join (shutdown_client (stop_listening (k, record c { is_running_flag = false }))))

  unfoldable pub raw_close : World → World
  raw_close w = close_listener (close_client (raw_stop w))

  unfoldable pub raw_start : World → World × HakoPduErrorType
  raw_start (k, c) =
      if c.is_running_flag
      then ((k, c), busy)
      else ((k, record c { is_running_flag = true; thread = some c.role }), ok)

  unfoldable pub raw_is_running : Tcp → Bool
  raw_is_running c = c.is_running_flag && c.is_connected

  abbrev pub send_on : ℕ → Bytes → P.Kernel → Option ℕ → Direction → P.Kernel × WriteEnd
  send_on fuel bytes k none d = (k, wrote not_running)
  send_on fuel bytes k (some fd) dir_in = (k, wrote invalid_argument)
  send_on fuel bytes k (some fd) d = write_data P fd fuel k bytes

  -- The fuel is that of write_data.
  unfoldable pub raw_send : ℕ → World → Bytes → P.Kernel × WriteEnd
  raw_send fuel (k, c) bytes = send_on fuel bytes k c.client_fd c.config_direction
