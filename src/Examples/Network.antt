-- ===== src/Examples/Network.antt =====
-- A small system: one connection whose bytes come singly after some EAGAINs, a mailbox, and the descriptors
-- 3 (a socket) and 4 (an accepted connection).
use hakoniwa_pdu_endpoint.Prelude.{
  ℕ, zero, suc, ◌+◌, ◌<◌, ◌≡◌, refl, arith, inl, Bool, true, false, not, Option, none, some, List,
  [], ◌∷◌, ◌++◌, if◌then◌else◌, nat_eq, length,
}
use hakoniwa_pdu_endpoint.Cache.Span.{Bytes}
use hakoniwa_pdu_endpoint.Sockets.{
  Posix, Received, received, recv_failed, Sent, sent_bytes, ReceivedFrom, received_from,
  recv_from_failed,
}
use hakoniwa_pdu_endpoint.Sockets.Stream.{IsStream, Arrives}
use hakoniwa_pdu_endpoint.Sockets.Output.{IsSink, Takes}
use hakoniwa_pdu_endpoint.Sockets.Descriptors.{IsTable, Opened, RecvKeeps}
use hakoniwa_pdu_endpoint.Udp.Traffic
use hakoniwa_pdu_endpoint.Udp.Traffic.{IsMailbox}

pub record System : Type 0 where
  pub stream : Bytes
  pub lag : ℕ
  pub outbox : Bytes
  pub mail : List (Bytes × ℕ)
  pub has_socket : Bool
  pub has_connection : Bool

abbrev incoming : System → Bytes → System × Received
incoming k [] = (k, received [])
incoming k (b ∷ bs) = (record k { stream = bs }, received (b ∷ []))

abbrev lagging : System → ℕ → Bytes → System × Received
lagging k zero bs = incoming k bs
lagging k (suc n) bs = (record k { lag = n }, recv_failed 11)

abbrev outgoing : System → Bytes → System × Sent
outgoing k [] = (k, sent_bytes 0)
outgoing k (b ∷ bs) = (record k { outbox = k.outbox ++ (b ∷ []) }, sent_bytes 1)

abbrev delivered : System → List (Bytes × ℕ) → System × ReceivedFrom ℕ
delivered k [] = (k, recv_from_failed 11)
delivered k ((bytes, from) ∷ mail) = (record k { mail = mail }, received_from bytes from)

abbrev new_socket : System → Bool → System × Option ℕ
new_socket k true = (k, none)
new_socket k false = (record k { has_socket = true }, some 3)

abbrev new_connection : System → Bool → System × Option ℕ
new_connection k true = (k, none)
new_connection k false = (record k { has_connection = true }, some 4)

abbrev pub has_open : System → ℕ → Bool
has_open k fd =
    if nat_eq fd 3 then k.has_socket else if nat_eq fd 4 then k.has_connection else false

abbrev pub network : Posix
network = record {
  Kernel = System;
  Address = ℕ;
  eagain = 11;
  ewouldblock = 11;
  eintr = 4;
  getaddrinfo = λ name port type. some port;
  socket = λ k a. new_socket k k.has_socket;
  set_option = λ k fd o. (k, true);
  -- Port 80 is taken.
  bind = λ k fd a. (k, not (nat_eq a 80));
  listen = λ k fd n. (k, true);
  accept = λ k fd. new_connection k k.has_connection;
  get_flags = λ k fd. some 0;
  set_flags = λ k fd flags. (k, true);
  with_nonblock = λ flags. flags + 2048;
  connect = λ k fd a. (k, none);
  einprogress = 115;
  poll_writable = λ k fd ms. (k, true);
  no_so_error = λ k fd. (k, true);
  recv = λ k fd n. lagging k k.lag k.stream;
  send = λ k fd bytes. outgoing k bytes;
  recv_from = λ k fd n. delivered k k.mail;
  send_to = λ k fd bytes a. (k, sent_bytes (length bytes));
  is_ipv4 = λ text. true;
  shutdown = λ k fd. k;
  close = λ k fd. record k {
    has_socket = if nat_eq fd 3 then false else k.has_socket;
    has_connection = if nat_eq fd 4 then false else k.has_connection;
  };
}

abbrev pub network-IsStream : (fd : ℕ) → IsStream network fd
network-IsStream fd = record {
  unread = λ k. k.stream;
  waits = λ k. k.lag;
  arrives = λ k n pos some_left. by_lag k n k.lag k.stream refl refl pos some_left;
}
  where
    by_lag :
        (k : System) (n lag : ℕ) (bs : Bytes)
        → k.lag ≡ lag
        → k.stream ≡ bs
        → 0 < n
        → 0 < length bs
        → Arrives network (λ k. k.stream) (λ k. k.lag) k n (lagging k lag bs)
    by_lag k n zero [] l e pos left = absurd (omega arith)
    by_lag k n zero (b ∷ bs) l e pos left = (omega arith, omega arith, e, omega arith)
    by_lag k n (suc lag) bs l e pos left = (refl, refl, omega (arith, l))

abbrev pub network-IsMailbox : (fd : ℕ) → IsMailbox network fd
network-IsMailbox fd = record {
  inbox = λ k. k.mail;
  waits = λ k. 0;
  arrives = λ k. by_mail k k.mail refl;
}
  where
    by_mail :
        (k : System) (mail : List (Bytes × ℕ))
        → k.mail ≡ mail
        → Traffic.Arrives network (λ k. k.mail) (λ k. 0) k (delivered k mail)
    by_mail k [] e = (refl, inl e, omega arith)
    by_mail k ((bytes, from) ∷ mail) e = (e, omega arith)

pub network-IsTable : IsTable network
network-IsTable = record {
  is_open = has_open;
  opened = λ k a. by_socket k k.has_socket refl;
  accepted = λ k fd. by_connection k k.has_connection refl;
  closed = λ k fd fd'. ground arith;
  option_kept = λ k fd o fd'. refl;
  flags_kept = λ k fd flags fd'. refl;
  bind_kept = λ k fd a fd'. refl;
  listen_kept = λ k fd n fd'. refl;
  shutdown_kept = λ k fd fd'. refl;
}
  where
    by_socket :
        (k : System) (b : Bool) → k.has_socket ≡ b → Opened System has_open k (new_socket k b)
    by_socket k true e = λ fd. refl
    by_socket k false e = (e, λ fd. ground arith)

    by_connection :
        (k : System) (b : Bool)
        → k.has_connection ≡ b
        → Opened System has_open k (new_connection k b)
    by_connection k true e = λ fd. refl
    by_connection k false e = (e, λ fd. ground arith)

pub network-RecvKeeps : RecvKeeps network network-IsTable
unfolding network-IsTable
network-RecvKeeps = record { recv_kept = λ k fd n fd'. by_lag k k.lag k.stream fd' }
  where
    by_lag :
        (k : System) (lag : ℕ) (bs : Bytes) (fd : ℕ)
        → has_open (lagging k lag bs).0 fd ≡ has_open k fd
    by_lag k zero [] fd = refl
    by_lag k zero (b ∷ bs) fd = refl
    by_lag k (suc n) bs fd = refl

abbrev pub network-IsSink : (fd : ℕ) → IsSink network fd
network-IsSink fd = record {
  outbox = λ k. k.outbox;
  blocks = λ k. 0;
  takes = λ k bs pos. by_bytes k bs pos;
}
  where
    by_bytes :
        (k : System) (bs : Bytes)
        → 0 < length bs
        → Takes network (λ k. k.outbox) (λ k. 0) k bs (outgoing k bs)
    by_bytes k [] pos = absurd (omega arith)
    by_bytes k (b ∷ bs) pos = (omega arith, omega arith, refl, omega arith)
