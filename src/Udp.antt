-- ===== src/Udp.antt =====
-- src/comm_udp.cpp and include/hakoniwa/pdu/comm/comm_udp.hpp: UdpComm, the transport over datagrams. An
-- address of length 0 is none, as is a descriptor of -1.
pub mod Opening
pub mod Traffic
pub mod Released
pub mod Outcome
use hakoniwa_pdu_endpoint.Prelude.{
  ℕ, zero, suc, ◌/◌, ◌%◌, ◌*◌, ◌^◌, Bool, true, false, not, ◌&&◌, ◌||◌, Option, none, some, List,
  [], ◌∷◌, ◌++◌, is_empty, if◌then◌else◌, StdString, codes, is_some,
}
use hakoniwa_pdu_endpoint.Types.{
  HakoPduErrorType, ok, io_error, invalid_argument, PduResolvedKey, Direction, dir_in, dir_out,
  dir_inout, is_in, is_out,
}
use hakoniwa_pdu_endpoint.Cache.Span.{Bytes}
use hakoniwa_pdu_endpoint.Packet.Wire.{Endian}
use hakoniwa_pdu_endpoint.CommRaw
use hakoniwa_pdu_endpoint.CommRaw.{PduCommRaw, on_raw_data_received}
use hakoniwa_pdu_endpoint.Sockets.{
  Posix, SocketOption, reuse_addr, broadcast_on, recv_buffer, recv_timeout, send_timeout,
  non_blocking, add_membership, multicast_ttl, Sent, sent_bytes, send_failed, ReceivedFrom,
  received_from, recv_from_failed, map_errno_to_error,
}
use hakoniwa_pdu_endpoint.Sockets.Options.{when, positive, apply_options}

pub record Options : Type 0 where
  pub buffer_size : ℕ
  pub timeout_ms : ℕ
  pub blocking : Bool
  pub reuse_address : Bool
  pub broadcast : Bool
  pub multicast_enabled : Bool
  pub multicast_group : StdString
  pub multicast_interface : StdString
  pub ttl : ℕ

abbrev pub default_options : Options
default_options = record {
  buffer_size = 8192;
  timeout_ms = 1000;
  blocking = true;
  reuse_address = true;
  broadcast = false;
  multicast_enabled = false;
  multicast_group = [];
  multicast_interface = codes "0.0.0.0";
  ttl = 1;
}

pub record UdpComm (Address : Type 0) : Type 0 where
  pub raw : PduCommRaw
  pub socket_fd : Option ℕ
  pub dest_addr : Option Address
  pub has_fixed_remote : Bool
  pub last_client_addr : Option Address
  pub config_direction : Direction
  -- Whether recv_thread_ is joinable.
  pub has_thread : Bool
  pub is_running_flag : Bool

unfoldable pub new_udp : (Address : Type 0) → UdpComm Address
new_udp Address = record {
  raw = CommRaw.init;
  socket_fd = none;
  dest_addr = none;
  has_fixed_remote = false;
  last_client_addr = none;
  config_direction = dir_inout;
  has_thread = false;
  is_running_flag = false;
}

-- The options that `configure_socket_options` asks for, in its order.
unfoldable pub socket_options : Options → List SocketOption
socket_options o =
    let seconds = o.timeout_ms / 1000 in
    let microseconds = o.timeout_ms % 1000 * 1000 in
    when o.reuse_address reuse_addr (
      when o.broadcast broadcast_on (
        when (positive o.buffer_size) (recv_buffer o.buffer_size) (
          recv_timeout seconds microseconds
          ∷ send_timeout seconds microseconds
          ∷ when (not o.blocking) non_blocking [])))

module _ (P : Posix) where
  abbrev pub World : Type 0
  World = P.Kernel × UdpComm P.Address

  unfoldable pub configure_socket_options : ℕ → Options → P.Kernel → P.Kernel × HakoPduErrorType
  configure_socket_options fd o k = apply_options P fd k (socket_options o)

  abbrev pub receives : Direction → Bool
  receives d = is_in d || not (is_out d)

  abbrev pub sends : Direction → Bool
  sends d = not (is_in d)

  abbrev pub set_ttl : ℕ → Options → Direction → P.Kernel → P.Kernel × HakoPduErrorType
  set_ttl fd o d k = apply_options P fd k (if sends d then multicast_ttl o.ttl ∷ [] else [])

  abbrev pub joined : ℕ → Options → Direction → P.Kernel × Bool → P.Kernel × HakoPduErrorType
  joined fd o d (k, true) = set_ttl fd o d k
  joined fd o d (k, false) = (k, io_error)

  unfoldable pub configure_multicast :
      ℕ → Options → Direction → P.Kernel → P.Kernel × HakoPduErrorType
  configure_multicast fd o d k =
      if is_empty o.multicast_group
      then (k, invalid_argument)
      else if receives d
      then (if not (P.is_ipv4 o.multicast_group) || not (P.is_ipv4 o.multicast_interface)
          then (k, invalid_argument)
          else joined fd o d
              (P.set_option k fd (add_membership o.multicast_group o.multicast_interface)))
      else set_ttl fd o d k

  abbrev pub closing : P.Kernel → Option ℕ → P.Kernel
  closing k none = k
  closing k (some fd) = P.close k fd

  abbrev pub shutting : P.Kernel → Option ℕ → P.Kernel
  shutting k none = k
  shutting k (some fd) = P.shutdown k fd

  abbrev pub stopped : World → World
  stopped (k, c) =
      if c.has_thread
      then (shutting k c.socket_fd, record c { is_running_flag = false; has_thread = false })
      else (k, record c { is_running_flag = false })

  unfoldable pub raw_stop : World → World
  raw_stop (k, c) = if not c.is_running_flag then (k, c) else stopped (k, c)

  abbrev pub forgotten : World → World
  forgotten (k, c) = (
    closing k c.socket_fd,
    record c {
      socket_fd = none;
      has_fixed_remote = false;
      dest_addr = none;
      last_client_addr = none;
    },
  )

  unfoldable pub raw_close : World → World
  raw_close w = forgotten (raw_stop w)

  unfoldable pub raw_start : World → World × HakoPduErrorType
  raw_start (k, c) =
      if not (is_some c.socket_fd) || c.is_running_flag
      then ((k, c), invalid_argument)
      else if is_out c.config_direction
      then ((k, record c { is_running_flag = true }), ok)
      else ((k, record c { is_running_flag = true; has_thread = true }), ok)

  unfoldable pub raw_is_running : UdpComm P.Address → Bool
  raw_is_running c = c.is_running_flag

  abbrev pub sent_to : P.Kernel × Sent → P.Kernel × HakoPduErrorType
  sent_to (k, sent_bytes n) = (k, ok)
  sent_to (k, send_failed e) = (k, map_errno_to_error P e)

  abbrev send_to :
      P.Kernel → ℕ → Bytes → Option P.Address → HakoPduErrorType → P.Kernel × HakoPduErrorType
  send_to k fd bytes none missing = (k, missing)
  send_to k fd bytes (some target) missing = sent_to (P.send_to k fd bytes target)

  -- An address that is missing is IO_ERROR where nothing was received yet, and INVALID_ARGUMENT else.
  abbrev pub send_on : UdpComm P.Address → P.Kernel → Bytes → Option ℕ → P.Kernel × HakoPduErrorType
  send_on c k bytes none = (k, invalid_argument)
  send_on c k bytes (some fd) =
      if is_empty bytes || is_in c.config_direction
      then (k, invalid_argument)
      else if c.has_fixed_remote
      then send_to k fd bytes c.dest_addr invalid_argument
      else if not (is_out c.config_direction)
      then send_to k fd bytes c.last_client_addr io_error
      else send_to k fd bytes c.dest_addr invalid_argument

  unfoldable pub raw_send : World → Bytes → P.Kernel × HakoPduErrorType
  raw_send (k, c) bytes = send_on c k bytes c.socket_fd

  -- The sender is kept for the answer, in the direction "inout" without a fixed remote address.
  abbrev pub from_sender : UdpComm P.Address → P.Address → UdpComm P.Address
  from_sender c from =
      if not (is_in c.config_direction) && not (is_out c.config_direction) && not c.has_fixed_remote
      then record c { last_client_addr = some from }
      else c

  module _ (e : Endian) where
    abbrev pub as_list : Option (PduResolvedKey × Bytes) → List (PduResolvedKey × Bytes)
    as_list none = []
    as_list (some call) = call ∷ []

    abbrev pub calls_of : PduCommRaw → Bytes → List (PduResolvedKey × Bytes)
    calls_of c raw = as_list (on_raw_data_received e c raw)

    -- Every error leads to the next turn while the flag is set.
    abbrev pub turned :
        UdpComm P.Address
        → P.Kernel × ReceivedFrom P.Address
        → World × List (PduResolvedKey × Bytes)
    turned c (k, recv_from_failed errno) = ((k, c), [])
    turned c (k, received_from bytes from) = ((k, from_sender c from), calls_of c.raw bytes)

    abbrev pub turn_on :
        UdpComm P.Address → P.Kernel → Option ℕ → World × List (PduResolvedKey × Bytes)
    turn_on c k none = ((k, c), [])
    turn_on c k (some fd) = turned c (P.recv_from k fd 65536)

    -- One turn of recv_loop; on a descriptor of -1 `recvfrom` fails.
    unfoldable pub recv_turn : World → World × List (PduResolvedKey × Bytes)
    recv_turn (k, c) = turn_on c k c.socket_fd

    -- As many turns as find the flag set, and the calls of the callback in their order.
    unfoldable pub recv_loop : ℕ → World → World × List (PduResolvedKey × Bytes)
    recv_loop zero w = (w, [])
    recv_loop (suc rounds) w =
        let (w', calls) = recv_turn w in
        let (w'', more) = recv_loop rounds w' in (w'', calls ++ more)
