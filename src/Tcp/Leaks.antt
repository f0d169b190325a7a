-- ===== src/Tcp/Leaks.antt =====
-- The descriptors that raw_close of src/comm_tcp.cpp leave open.
use hakoniwa_pdu_endpoint.Prelude.{
  ℕ, ◌≡◌, refl, ap, ◌∙◌, ◌||◌, Bool, true, false, Option, none, some, if◌then◌else◌, nat_eq,
}
use hakoniwa_pdu_endpoint.Sockets.{Posix}
use hakoniwa_pdu_endpoint.Sockets.Descriptors.{IsTable}
use hakoniwa_pdu_endpoint.Tcp.{Role, TcpComm, World, raw_stop, raw_close, closing, shutting}

module _ (P : Posix) (T : IsTable P) where
  shutting_kept :
      (k : P.Kernel) (o : Option ℕ) (fd : ℕ) → T.is_open (shutting P k o) fd ≡ T.is_open k fd
  shutting_kept k none fd = refl
  shutting_kept k (some n) fd = T.shutdown_kept k n fd

  -- Whether a descriptor is the one that the object holds.
  abbrev pub is_held : Option ℕ → ℕ → Bool
  is_held none fd = false
  is_held (some n) fd = nat_eq fd n

  closing-is_held :
      (k : P.Kernel) (o : Option ℕ) (fd : ℕ)
      → T.is_open (closing P k o) fd ≡ (if is_held o fd then false else T.is_open k fd)
  closing-is_held k none fd = refl
  closing-is_held k (some n) fd = T.closed k n fd

  -- The object gave both descriptors back.
  pub record Closed (k : P.Kernel) (c : TcpComm P.Address) (w : World P) : Type 0 where
    pub no_client : w.1.client_fd ≡ none
    pub no_listener : w.1.listen_fd ≡ none
    pub not_running : w.1.is_running_flag ≡ false
    pub others_kept :
        (fd : ℕ)
        → T.is_open w.0 fd
          ≡ (if is_held c.listen_fd fd || is_held c.client_fd fd then false else T.is_open k fd)

  two_closed :
      (a b x y z : Bool)
      → x ≡ (if a then false else y)
      → y ≡ (if b then false else z)
      → x ≡ (if a || b then false else z)
  two_closed true b x y z p q = p
  two_closed false b x y z p q = p ∙ q

  two_closed_turned :
      (a b x y z : Bool)
      → x ≡ (if b then false else y)
      → y ≡ (if a then false else z)
      → x ≡ (if a || b then false else z)
  two_closed_turned true true x y z p q = p
  two_closed_turned true false x y z p q = p ∙ q
  two_closed_turned false b x y z p q = p ∙ ap (λ (c : Bool). if b then false else c) q

  -- raw_close closes the descriptors that the object holds and no others, whether or not its thread runs,
  -- and leaves it with none and not running.
  pub raw_close-Closed : (k : P.Kernel) (c : TcpComm P.Address) → Closed k c (raw_close P (k, c))
  unfolding raw_close raw_stop
  raw_close-Closed k c = by_flag c.is_running_flag c.thread
    where
      unlistened : P.Kernel
      unlistened = closing P (shutting P k c.listen_fd) c.listen_fd

      stopped :
          (fd : ℕ)
          → T.is_open (closing P (shutting P unlistened c.client_fd) c.client_fd) fd
            ≡ (if is_held c.listen_fd fd || is_held c.client_fd fd then false else T.is_open k fd)
      stopped fd =
          two_closed_turned (is_held c.listen_fd fd) (is_held c.client_fd fd) _
            (T.is_open unlistened fd) (T.is_open k fd)
            (closing-is_held (shutting P unlistened c.client_fd) c.client_fd fd
              ∙ ap (λ (b : Bool). if is_held c.client_fd fd then false else b)
                  (shutting_kept unlistened c.client_fd fd))
            (closing-is_held (shutting P k c.listen_fd) c.listen_fd fd
              ∙ ap (λ (b : Bool). if is_held c.listen_fd fd then false else b)
                  (shutting_kept k c.listen_fd fd))

      by_flag :
          (running : Bool) (thread : Option Role)
          → Closed k c (raw_close P (k, record c { is_running_flag = running; thread = thread }))
      by_flag false thread = record {
        no_client = refl;
        no_listener = refl;
        not_running = refl;
        others_kept = λ fd.
            two_closed (is_held c.listen_fd fd) (is_held c.client_fd fd) _ _ (T.is_open k fd)
              (closing-is_held (closing P k c.client_fd) c.listen_fd fd)
              (closing-is_held k c.client_fd fd);
      }
      by_flag true none = record {
        no_client = refl;
        no_listener = refl;
        not_running = refl;
        others_kept = λ fd. stopped fd;
      }
      by_flag true (some role) = record {
        no_client = refl;
        no_listener = refl;
        not_running = refl;
        others_kept = λ fd. stopped fd;
      }
