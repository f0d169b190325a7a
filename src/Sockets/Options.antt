-- ===== src/Sockets/Options.antt =====
-- The socket options that the TCP classes share: `struct Options` of src/comm_tcp_mux.cpp, which
-- include/hakoniwa/pdu/comm/comm_tcp.hpp extends, how the document sets them, and the calls of setsockopt.
use hakoniwa_pdu_endpoint.Prelude.{
  ℕ, ◌*◌, ◌/◌, ◌%◌, ◌^◌, Bool, true, false, not, ◌&&◌, Option, none, some, List, [], ◌∷◌,
  if◌then◌else◌, ltb, String, codes,
}
use hakoniwa_pdu_endpoint.Types.{HakoPduErrorType, ok, io_error}
use hakoniwa_pdu_endpoint.Json.{Json}
use hakoniwa_pdu_endpoint.Sockets.{
  Posix, SocketOption, reuse_addr, keep_alive, tcp_no_delay, non_blocking, recv_buffer, send_buffer,
  linger_for, recv_timeout, send_timeout,
}

-- An `int` is its bit pattern in 32 bits.
abbrev pub not_negative : ℕ → Bool
not_negative n = ltb n (2 ^ 31)

abbrev pub positive : ℕ → Bool
positive n = ltb 0 n && not_negative n

pub record StreamOptions : Type 0 where
  pub read_timeout_ms : ℕ
  pub write_timeout_ms : ℕ
  pub blocking : Bool
  pub reuse_address : Bool
  pub keepalive : Bool
  pub no_delay : Bool
  pub recv_buffer_size : ℕ
  pub send_buffer_size : ℕ
  pub linger_enabled : Bool
  pub linger_timeout_sec : ℕ

abbrev pub default_options : StreamOptions
default_options = record {
  read_timeout_ms = 1000;
  write_timeout_ms = 1000;
  blocking = true;
  reuse_address = true;
  keepalive = true;
  no_delay = true;
  recv_buffer_size = 8192;
  send_buffer_size = 8192;
  linger_enabled = false;
  linger_timeout_sec = 0;
}

-- Assignments one after the other, until one throws (none): the value then, and whether all were done.
unfoldable pub assign_all {ℓ} : {A : Type ℓ} → List (A → Option A) → A → A × Bool
assign_all [] a = (a, true)
assign_all (f ∷ fs) a = elim (f a) [ none ↦ (a, false) | some a' ↦ assign_all fs a' ]

module _ (J : Json) where
  -- `opts.value(key, present)`, which throws unless `opts` is an object and the entry of the type.
  abbrev pub value_of {ℓ} : {A : Type ℓ} → (J.Value → Option A) → J.Value → String → A → Option A
  value_of get opts key present =
      if J.is_object opts
      then elim (J.member opts (codes key)) [ none ↦ some present | some v ↦ get v ]
      else none

  abbrev pub bind {ℓ κ} : {A : Type ℓ} {B : Type κ} → Option A → (A → B) → Option B
  bind none f = none
  bind (some a) f = some (f a)

  -- The assignments to `linger_enabled` and `linger_timeout_sec`.
  abbrev linger_assignments : Option J.Value → List (StreamOptions → Option StreamOptions)
  linger_assignments none = []
  linger_assignments (some linger) =
      (λ o.
        bind (value_of J.get_bool linger "enabled" o.linger_enabled)
          (λ v. record o { linger_enabled = v }))
      ∷ (λ o.
          bind (value_of J.get_int linger "timeout_sec" o.linger_timeout_sec)
            (λ v. record o { linger_timeout_sec = v }))
      ∷ []

  unfoldable pub stream_assignments : J.Value → List (StreamOptions → Option StreamOptions)
  stream_assignments opts =
      (λ o.
        bind (value_of J.get_int opts "read_timeout_ms" o.read_timeout_ms)
          (λ v. record o { read_timeout_ms = v }))
      ∷ (λ o.
          bind (value_of J.get_int opts "write_timeout_ms" o.write_timeout_ms)
            (λ v. record o { write_timeout_ms = v }))
      ∷ (λ o.
          bind (value_of J.get_bool opts "blocking" o.blocking) (λ v. record o { blocking = v }))
      ∷ (λ o.
          bind (value_of J.get_bool opts "reuse_address" o.reuse_address)
            (λ v. record o { reuse_address = v }))
      ∷ (λ o.
          bind (value_of J.get_bool opts "keepalive" o.keepalive) (λ v. record o { keepalive = v }))
      ∷ (λ o.
          bind (value_of J.get_bool opts "no_delay" o.no_delay) (λ v. record o { no_delay = v }))
      ∷ (λ o.
          bind (value_of J.get_int opts "recv_buffer_size" o.recv_buffer_size)
            (λ v. record o { recv_buffer_size = v }))
      ∷ (λ o.
          bind (value_of J.get_int opts "send_buffer_size" o.send_buffer_size)
            (λ v. record o { send_buffer_size = v }))
      ∷ linger_assignments (J.member opts (codes "linger"))

abbrev pub when : Bool → SocketOption → List SocketOption → List SocketOption
when b o os = if b then o ∷ os else os

-- The options that `configure_socket_options` asks for, in its order.
unfoldable pub socket_options : StreamOptions → List SocketOption
socket_options o = when o.reuse_address reuse_addr (
    when o.keepalive keep_alive (
      when o.no_delay tcp_no_delay (
        when (positive o.recv_buffer_size) (recv_buffer o.recv_buffer_size) (
          when (positive o.send_buffer_size) (send_buffer o.send_buffer_size)
            (when o.linger_enabled (linger_for o.linger_timeout_sec) [])))))

-- Those of `configure_timeouts`.
unfoldable pub timeout_options : StreamOptions → List SocketOption
timeout_options o =
    when (not_negative o.read_timeout_ms)
      (recv_timeout (o.read_timeout_ms / 1000) (o.read_timeout_ms % 1000 * 1000))
      (when (not_negative o.write_timeout_ms)
        (send_timeout (o.write_timeout_ms / 1000) (o.write_timeout_ms % 1000 * 1000))
        (when (not o.blocking) non_blocking []))

module _ (P : Posix) (fd : ℕ) where
  abbrev pub set_nonblocking : P.Kernel → Option ℕ → P.Kernel × Bool
  set_nonblocking k none = (k, false)
  set_nonblocking k (some flags) = P.set_flags k fd (P.with_nonblock flags)

  abbrev pub apply_option : P.Kernel → SocketOption → P.Kernel × Bool
  apply_option k non_blocking = set_nonblocking k (P.get_flags k fd)
  apply_option k o = P.set_option k fd o

  abbrev pub unless_failed :
      P.Kernel × Bool → (P.Kernel → P.Kernel × HakoPduErrorType) → P.Kernel × HakoPduErrorType
  unless_failed (k, true) go_on = go_on k
  unless_failed (k, false) go_on = (k, io_error)

  -- The calls in order, up to the first that fails.
  unfoldable pub apply_options : P.Kernel → List SocketOption → P.Kernel × HakoPduErrorType
  apply_options k [] = (k, ok)
  apply_options k (o ∷ os) = unless_failed (apply_option k o) (λ k'. apply_options k' os)
