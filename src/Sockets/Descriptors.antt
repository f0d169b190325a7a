-- ===== src/Sockets/Descriptors.antt =====
-- What the system promises about descriptors, of which the transports keep account: `socket` and `accept`
-- give out ones that were not open, `close` closes, and the other calls leave them alone.
use hakoniwa_pdu_endpoint.Prelude.{
  ℕ, ◌≡◌, refl, ◌∙◌, Bool, true, false, Option, none, some, List, [], ◌∷◌, if◌then◌else◌, nat_eq,
}
use hakoniwa_pdu_endpoint.Types.{HakoPduErrorType}
use hakoniwa_pdu_endpoint.Sockets.{Posix, SocketOption, non_blocking}
use hakoniwa_pdu_endpoint.Sockets.Options.{
  set_nonblocking, apply_option, apply_options, unless_failed,
}

-- One more descriptor is open, one that was not.
abbrev pub Opened : (K : Type 0) → (K → ℕ → Bool) → K → K × Option ℕ → Type 0
Opened K is_open k (k', none) = (fd : ℕ) → is_open k' fd ≡ is_open k fd
Opened K is_open k (k', some new) =
    (is_open k new ≡ false)
    × ((fd : ℕ) → is_open k' fd ≡ (if nat_eq fd new then true else is_open k fd))

pub record IsTable (P : Posix) : Type 0 where
  pub is_open : P.Kernel → ℕ → Bool
  pub opened : (k : P.Kernel) (a : P.Address) → Opened P.Kernel is_open k (P.socket k a)
  pub accepted : (k : P.Kernel) (fd : ℕ) → Opened P.Kernel is_open k (P.accept k fd)
  pub closed :
      (k : P.Kernel) (fd fd' : ℕ)
      → is_open (P.close k fd) fd' ≡ (if nat_eq fd' fd then false else is_open k fd')
  pub option_kept :
      (k : P.Kernel) (fd : ℕ) (o : SocketOption) (fd' : ℕ)
      → is_open (P.set_option k fd o).0 fd' ≡ is_open k fd'
  pub flags_kept :
      (k : P.Kernel) (fd flags fd' : ℕ) → is_open (P.set_flags k fd flags).0 fd' ≡ is_open k fd'
  pub bind_kept :
      (k : P.Kernel) (fd : ℕ) (a : P.Address) (fd' : ℕ)
      → is_open (P.bind k fd a).0 fd' ≡ is_open k fd'
  pub listen_kept : (k : P.Kernel) (fd n fd' : ℕ) → is_open (P.listen k fd n).0 fd' ≡ is_open k fd'
  pub shutdown_kept : (k : P.Kernel) (fd fd' : ℕ) → is_open (P.shutdown k fd) fd' ≡ is_open k fd'

-- `recv` neither opens nor closes a descriptor.
pub record RecvKeeps (P : Posix) (T : IsTable P) : Type 0 where
  pub recv_kept : (k : P.Kernel) (fd n fd' : ℕ) → T.is_open (P.recv k fd n).0 fd' ≡ T.is_open k fd'

module _ (P : Posix) (T : IsTable P) (fd : ℕ) where
  set_nonblocking_kept :
      (k : P.Kernel) (flags : Option ℕ) (fd' : ℕ)
      → T.is_open (set_nonblocking P fd k flags).0 fd' ≡ T.is_open k fd'
  set_nonblocking_kept k none fd' = refl
  set_nonblocking_kept k (some flags) fd' = T.flags_kept k fd (P.with_nonblock flags) fd'

  apply_option_kept :
      (k : P.Kernel) (o : SocketOption) (fd' : ℕ)
      → T.is_open (apply_option P fd k o).0 fd' ≡ T.is_open k fd'
  apply_option_kept k non_blocking fd' = set_nonblocking_kept k (P.get_flags k fd) fd'
  apply_option_kept k o fd' = T.option_kept k fd o fd'

  unless_failed_kept :
      (k : P.Kernel) (r : P.Kernel × Bool) (go_on : P.Kernel → P.Kernel × HakoPduErrorType)
      (fd' : ℕ)
      → T.is_open r.0 fd' ≡ T.is_open k fd'
      → ((k' : P.Kernel) → T.is_open (go_on k').0 fd' ≡ T.is_open k' fd')
      → T.is_open (unless_failed P fd r go_on).0 fd' ≡ T.is_open k fd'
  unless_failed_kept k (k', true) go_on fd' e f = f k' ∙ e
  unless_failed_kept k (k', false) go_on fd' e f = e

  pub apply_options_kept :
      (k : P.Kernel) (os : List SocketOption) (fd' : ℕ)
      → T.is_open (apply_options P fd k os).0 fd' ≡ T.is_open k fd'
  unfolding apply_options
  apply_options_kept k [] fd' = refl
  apply_options_kept k (o ∷ os) fd' =
      unless_failed_kept k (apply_option P fd k o) _ fd' (apply_option_kept k o fd')
        (λ k'. apply_options_kept k' os fd')
