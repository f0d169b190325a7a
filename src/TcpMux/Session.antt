-- ===== src/TcpMux/Session.antt =====
-- TcpSessionComm of src/comm_tcp_mux.cpp: the transport over a connection that a TcpCommMultiplexer
-- accepted. Its packet loop and its loops over recv and send are word for word those of src/comm_tcp.cpp.
use hakoniwa_pdu_endpoint.Prelude.{
  ℕ, Bool, true, false, not, Option, none, some, List, [], ◌++◌, if◌then◌else◌, StdString, codes,
  ◌==◌, str_Eq,
}
use hakoniwa_pdu_endpoint.Types.{
  HakoPduErrorType, ok, busy, io_error, invalid_argument, not_running, is_ok, Direction, dir_inout,
  is_in,
}
use hakoniwa_pdu_endpoint.Json.{Json, Loaded, not_found, malformed, parsed, with_text}
use hakoniwa_pdu_endpoint.Cache.Span.{Bytes}
use hakoniwa_pdu_endpoint.Packet.Wire.{Endian}
use hakoniwa_pdu_endpoint.CommRaw
use hakoniwa_pdu_endpoint.CommRaw.{PduCommRaw}
use hakoniwa_pdu_endpoint.CommRaw.Version.{configure_version}
use hakoniwa_pdu_endpoint.Sockets.{Posix, parse_direction}
use hakoniwa_pdu_endpoint.Sockets.Options.{
  StreamOptions, default_options, assign_all, stream_assignments, socket_options, timeout_options,
  apply_options,
}
use hakoniwa_pdu_endpoint.Sockets.Output.{WriteEnd, wrote, write_data}
use hakoniwa_pdu_endpoint.Tcp.Framing.{LoopEnd, broken_off, loop_starved, server_receive}
use hakoniwa_pdu_endpoint.Tcp.Messages.{Message}

pub record TcpSessionComm : Type 0 where
  pub raw : PduCommRaw
  pub fd : Option ℕ
  pub is_running : Bool
  -- Whether recv_thread_ is joinable.
  pub has_thread : Bool
  pub config_direction : Direction
  pub options : StreamOptions

unfoldable pub new_session : ℕ → TcpSessionComm
new_session fd = record {
  raw = CommRaw.init;
  fd = some fd;
  is_running = false;
  has_thread = false;
  config_direction = dir_inout;
  options = default_options;
}

module _ (P : Posix) where
  abbrev pub Held : Type 0
  Held = P.Kernel × TcpSessionComm

  abbrev pub Answered : Type 0
  Answered = (P.Kernel × TcpSessionComm) × Option HakoPduErrorType

  unfoldable pub configure_socket_options :
      ℕ → StreamOptions → P.Kernel → P.Kernel × HakoPduErrorType
  configure_socket_options fd o k = apply_options P fd k (socket_options o ++ timeout_options o)

  abbrev configured : TcpSessionComm → P.Kernel × HakoPduErrorType → Answered
  configured s (k, err) = ((k, s), some err)

  abbrev with_options : TcpSessionComm → ℕ → P.Kernel → StreamOptions × Bool → Answered
  with_options s fd k (o, false) = ((k, record s { options = o }), none)
  with_options s fd k (o, true) =
      configured (record s { options = o }) (configure_socket_options fd o k)

  module _ (J : Json) where
    abbrev options_member : TcpSessionComm → ℕ → P.Kernel → Option J.Value → Answered
    options_member s fd k none = with_options s fd k (s.options, true)
    options_member s fd k (some opts) =
        with_options s fd k (assign_all (stream_assignments J opts) s.options)

    abbrev after_version :
        TcpSessionComm → ℕ → P.Kernel → J.Value → PduCommRaw × HakoPduErrorType → Answered
    after_version s fd k config (raw, err) =
        if is_ok err
        then options_member (record s { raw = raw }) fd k (J.member config (codes "options"))
        else ((k, record s { raw = raw }), some err)

    abbrev with_direction : TcpSessionComm → ℕ → P.Kernel → J.Value → Answered
    with_direction s fd k config = after_version s fd k config (configure_version J s.raw config)

    -- A missing "direction" keeps the one that is set.
    unfoldable pub open_config : TcpSessionComm → ℕ → P.Kernel → J.Value → Answered
    open_config s fd k config =
        with_text J config "protocol" ((k, s), some invalid_argument) ((k, s), none)
          (λ protocol.
            if not (protocol == codes "tcp")
            then ((k, s), some invalid_argument)
            else with_text J config "direction" (with_direction s fd k config) ((k, s), none)
                (λ direction.
                  with_direction (record s { config_direction = parse_direction direction }) fd k
                    config))

    abbrev loaded : TcpSessionComm → ℕ → P.Kernel → Loaded J.Value → Answered
    loaded s fd k not_found = ((k, s), some io_error)
    loaded s fd k malformed = ((k, s), some invalid_argument)
    loaded s fd k (parsed config) = open_config s fd k config

    abbrev open_on : TcpSessionComm → P.Kernel → StdString → Option ℕ → Answered
    open_on s k config_path none = ((k, s), some io_error)
    open_on s k config_path (some fd) = loaded s fd k (J.load config_path)

    -- The answer none is an exception of the JSON library.
    unfoldable pub raw_open : Held → StdString → Answered
    raw_open (k, s) config_path = open_on s k config_path s.fd

  abbrev pub closing : P.Kernel → Option ℕ → P.Kernel
  closing k none = k
  closing k (some fd) = P.close k fd

  abbrev pub shutting : P.Kernel → Option ℕ → P.Kernel
  shutting k none = k
  shutting k (some fd) = P.shutdown k fd

  -- `join` waits for the thread's end.
  unfoldable pub raw_stop : Held → Held
  raw_stop (k, s) =
      if not s.is_running
      then (k, s)
      else (shutting k s.fd, record s { is_running = false; has_thread = false })

  abbrev pub close_fd : Held → Held
  close_fd (k, s) = (closing k s.fd, record s { fd = none })

  unfoldable pub raw_close : Held → Held
  raw_close w = close_fd (raw_stop w)

  unfoldable pub raw_start : Held → Held × HakoPduErrorType
  raw_start (k, s) =
      if s.is_running
      then ((k, s), busy)
      else ((k, record s { is_running = true; has_thread = true }), ok)

  unfoldable pub raw_is_running : TcpSessionComm → Bool
  raw_is_running s = s.is_running

  abbrev send_on : ℕ → Bytes → P.Kernel → Direction → Option ℕ → P.Kernel × WriteEnd
  send_on fuel bytes k d none = (k, wrote not_running)
  send_on fuel bytes k d (some fd) =
      if is_in d then (k, wrote invalid_argument) else write_data P fd fuel k bytes

  unfoldable pub raw_send : ℕ → Held → Bytes → P.Kernel × WriteEnd
  raw_send fuel (k, s) bytes = send_on fuel bytes k s.config_direction s.fd

  module _ (e : Endian) (fuel : ℕ) where
    -- A thread whose fuel ran out has not left its loop.
    abbrev pub left : TcpSessionComm → LoopEnd → TcpSessionComm
    left s loop_starved = s
    left s why = record s { is_running = false }

    abbrev pub received :
        TcpSessionComm → P.Kernel × List Message × LoopEnd → Held × List Message × LoopEnd
    received s (k, calls, why) = ((k, left s why), calls, why)

    abbrev pub recv_on : TcpSessionComm → P.Kernel → ℕ → Option ℕ → Held × List Message × LoopEnd
    recv_on s k rounds none = ((k, left s broken_off), [], broken_off)
    recv_on s k rounds (some fd) = received s (server_receive P e s.raw fuel fd rounds k)

    -- The thread, from its start to its end, and why it ended; on a descriptor of -1 the first `recv` fails.
    unfoldable pub recv_loop : ℕ → Held → Held × List Message × LoopEnd
    recv_loop rounds (k, s) = recv_on s k rounds s.fd
