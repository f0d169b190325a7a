-- ===== src/Sockets.antt =====
-- src/socket_utils.cpp, and the calls of the operating system that the transports make. The system is
-- outside the repository: its state and its calls are a parameter. A descriptor is a number, and -1 is
-- none.
pub mod Stream
pub mod Output
pub mod Options
pub mod Descriptors
use hakoniwa_pdu_endpoint.Prelude.{
  ℕ, ◌^◌, Bool, true, false, ◌||◌, ◌&&◌, Option, none, some, if◌then◌else◌, nat_eq, ltb, StdString,
  codes, ◌==◌, str_Eq,
}
use hakoniwa_pdu_endpoint.Types.{
  HakoPduErrorType, ok, timeout, io_error, Direction, dir_in, dir_out, dir_inout,
}
use hakoniwa_pdu_endpoint.Json.{Json, contains}
use hakoniwa_pdu_endpoint.Cache.Span.{Bytes}

-- `recv`: the bytes it stored, none of them where the peer has closed; or errno.
pub data Received : Type 0 where
  received : Bytes → Received
  recv_failed : ℕ → Received

-- `send`: how many bytes it took, or errno.
pub data Sent : Type 0 where
  sent_bytes : ℕ → Sent
  send_failed : ℕ → Sent

-- `recvfrom`: a datagram with its sender, or errno.
pub data ReceivedFrom (A : Type 0) : Type 0 where
  received_from : Bytes → A → ReceivedFrom A
  recv_from_failed : ℕ → ReceivedFrom A

-- The options that the code sets, with the values it passes.
pub data SocketOption : Type 0 where
  reuse_addr keep_alive tcp_no_delay broadcast_on : SocketOption
  -- O_NONBLOCK, by fcntl.
  non_blocking : SocketOption
  recv_buffer send_buffer linger_for : ℕ → SocketOption
  -- Seconds and microseconds.
  recv_timeout send_timeout : ℕ → ℕ → SocketOption
  add_membership : StdString → StdString → SocketOption
  multicast_ttl : ℕ → SocketOption

pub data SocketType : Type 0 where
  stream datagram : SocketType

pub record Posix : Type 1 where
  pub Kernel : Type 0
  pub Address : Type 0
  pub eagain : ℕ
  pub ewouldblock : ℕ
  pub eintr : ℕ
  -- Name, port and type.
  pub getaddrinfo : StdString → ℕ → SocketType → Option Address
  pub socket : Kernel → Address → Kernel × Option ℕ
  pub set_option : Kernel → ℕ → SocketOption → Kernel × Bool
  pub bind : Kernel → ℕ → Address → Kernel × Bool
  pub listen : Kernel → ℕ → ℕ → Kernel × Bool
  pub accept : Kernel → ℕ → Kernel × Option ℕ
  -- fcntl: the flags, and flags with O_NONBLOCK.
  pub get_flags : Kernel → ℕ → Option ℕ
  pub set_flags : Kernel → ℕ → ℕ → Kernel × Bool
  pub with_nonblock : ℕ → ℕ
  -- None is success.
  pub connect : Kernel → ℕ → Address → Kernel × Option ℕ
  pub einprogress : ℕ
  -- Whether the descriptor became writable in that many milliseconds.
  pub poll_writable : Kernel → ℕ → ℕ → Kernel × Bool
  -- Whether SO_ERROR could be read and is 0.
  pub no_so_error : Kernel → ℕ → Kernel × Bool
  pub recv : Kernel → ℕ → ℕ → Kernel × Received
  pub send : Kernel → ℕ → Bytes → Kernel × Sent
  pub recv_from : Kernel → ℕ → ℕ → Kernel × ReceivedFrom Address
  pub send_to : Kernel → ℕ → Bytes → Address → Kernel × Sent
  -- Whether inet_pton reads an IPv4 address from the text.
  pub is_ipv4 : StdString → Bool
  pub shutdown : Kernel → ℕ → Kernel
  pub close : Kernel → ℕ → Kernel

unfoldable pub parse_direction : StdString → Direction
parse_direction direction =
    if direction == codes "in"
    then dir_in
    else if direction == codes "out"
    then dir_out
    else dir_inout

module _ (P : Posix) where
  abbrev pub would_block : ℕ → Bool
  would_block error_number = nat_eq error_number P.eagain || nat_eq error_number P.ewouldblock

  unfoldable pub map_errno_to_error : ℕ → HakoPduErrorType
  map_errno_to_error error_number = if would_block error_number then timeout else io_error

  -- The outer none is an exception of the JSON library, the inner none INVALID_ARGUMENT.
  unfoldable pub resolve_address : (J : Json) → J.Value → SocketType → Option (Option P.Address)
  resolve_address J v socket_type = elim (J.member v (codes "address")) [
    | none ↦ some none
    | some a ↦ elim (J.member v (codes "port")) [
      | none ↦ some none
      | some p ↦ elim (J.get_string a) [
        | none ↦ none
        | some address ↦ elim (J.get_int p) [
          | none ↦ none
          | some port ↦ some (P.getaddrinfo address port socket_type)
        ]
      ]
    ]
  ]
