-- ===== src/Sockets/Stream.antt =====
-- read_data of src/comm_tcp.cpp: the loop that fills a buffer from a stream socket.
use hakoniwa_pdu_endpoint.Prelude.{
  ℕ, zero, suc, ◌+◌, ◌-◌, ◌≤◌, ◌<◌, ◌≡◌, refl, sym, ap, ◌∙◌, arith, true, [], ◌∷◌, ◌++◌,
  if◌then◌else◌, subst, length, length-append, append_assoc, append-nil,
}
use hakoniwa_pdu_endpoint.Types.{HakoPduErrorType, io_error}
use hakoniwa_pdu_endpoint.Cache.Span.{Bytes}
use hakoniwa_pdu_endpoint.Sockets.{
  Posix, Received, received, recv_failed, would_block, map_errno_to_error,
}

-- The buffer is full, the read failed, or the fuel ran out.
pub data ReadEnd : Type 0 where
  filled : Bytes → ReadEnd
  read_failed : HakoPduErrorType → ReadEnd
  read_starved : ReadEnd

module _ (P : Posix) (fd : ℕ) where
  abbrev Reading : Type 0
  Reading = P.Kernel × ReadEnd

  -- One turn of the loop after `recv`: go on with the bytes that came, or try again, or give up.
  abbrev pub after_recv : P.Kernel → Received → (Bytes → Reading) → Reading → Reading
  after_recv k (received []) go_on again = (k, read_failed io_error)
  after_recv k (received (b ∷ bs)) go_on again = go_on (b ∷ bs)
  after_recv k (recv_failed e) go_on again =
      if would_block P e then again else (k, read_failed (map_errno_to_error P e))

  -- `left` is size - total_received.
  unfoldable pub read_loop : ℕ → P.Kernel → ℕ → Bytes → Reading
  read_loop fuel k zero got = (k, filled got)
  read_loop zero k (suc n) got = (k, read_starved)
  read_loop (suc fuel) k (suc n) got =
      let (k', r) = P.recv k fd (suc n) in
      after_recv k' r (λ bs. read_loop fuel k' (suc n - length bs) (got ++ bs))
        (read_loop fuel k' (suc n) got)

  unfoldable pub read_data : ℕ → P.Kernel → ℕ → Reading
  unfolding read_loop
  read_data fuel k size = read_loop fuel k size []

-- What a stream socket promises while bytes of the peer are unread: `recv` answers with some of them,
-- in order, or with EAGAIN, this only so many times.
abbrev pub Arrives :
    (P : Posix) → (P.Kernel → Bytes) → (P.Kernel → ℕ) → P.Kernel → ℕ → P.Kernel × Received → Type 0
Arrives P unread waits k n (k', received bs) =
    (0 < length bs) × (length bs ≤ n) × (unread k ≡ bs ++ unread k') × (waits k' ≤ waits k)
Arrives P unread waits k n (k', recv_failed e) =
    (would_block P e ≡ true) × (unread k' ≡ unread k) × (waits k' < waits k)

pub record IsStream (P : Posix) (fd : ℕ) : Type 0 where
  pub unread : P.Kernel → Bytes
  pub waits : P.Kernel → ℕ
  pub arrives :
      (k : P.Kernel) (n : ℕ)
      → 0 < n
      → 0 < length (unread k)
      → Arrives P unread waits k n (P.recv k fd n)

module _ (P : Posix) (fd : ℕ) (S : IsStream P fd) where
  -- The buffer was filled with the front of what was unread, and the rest still is.
  pub record Filled (k : P.Kernel) (n : ℕ) (got : Bytes) (r : P.Kernel × ReadEnd) : Type 0 where
    pub front : Bytes
    pub front_size : length front ≡ n
    pub answer : r.1 ≡ filled (got ++ front)
    pub split : S.unread k ≡ front ++ S.unread r.0
    pub fewer_waits : S.waits r.0 ≤ S.waits k

  read_more :
      (k k' : P.Kernel) (n : ℕ) (bs got : Bytes) (r : P.Kernel × ReadEnd)
      → S.unread k ≡ bs ++ S.unread k'
      → S.waits k' ≤ S.waits k
      → length bs ≤ n
      → Filled k' (n - length bs) (got ++ bs) r
      → Filled k n got r
  read_more k k' n bs got r e w le f = record {
    front = bs ++ f.front;
    front_size = omega (arith, length-append bs f.front, f.front_size);
    answer = f.answer ∙ ap filled (append_assoc got bs f.front);
    split = e ∙ ap (◌++◌ bs) f.split ∙ sym (append_assoc bs f.front (S.unread r.0));
    fewer_waits = omega (arith, f.fewer_waits);
  }

  read_again :
      (k k' : P.Kernel) (n : ℕ) (got : Bytes) (r : P.Kernel × ReadEnd)
      → S.unread k' ≡ S.unread k
      → S.waits k' < S.waits k
      → Filled k' n got r
      → Filled k n got r
  read_again k k' n got r e w f = record {
    front = f.front;
    front_size = f.front_size;
    answer = f.answer;
    split = sym e ∙ f.split;
    fewer_waits = omega (arith, f.fewer_waits);
  }

  read_nothing : (k : P.Kernel) (n : ℕ) (got : Bytes) → n ≡ 0 → Filled k n got (k, filled got)
  read_nothing k n got e = record {
    front = [];
    front_size = sym e;
    answer = ap filled (sym (append-nil got));
    split = refl;
    fewer_waits = omega arith;
  }

  received-Filled :
      (k : P.Kernel) (n : ℕ) (got : Bytes) (r : P.Kernel × Received)
      (go_on : Bytes → P.Kernel × ReadEnd) (again : P.Kernel × ReadEnd)
      → Arrives P S.unread S.waits k n r
      → ((bs : Bytes)
          → 0 < length bs
          → length bs ≤ n
          → S.unread k ≡ bs ++ S.unread r.0
          → S.waits r.0 ≤ S.waits k
          → Filled r.0 (n - length bs) (got ++ bs) (go_on bs))
      → (S.unread r.0 ≡ S.unread k → S.waits r.0 < S.waits k → Filled r.0 n got again)
      → Filled k n got (after_recv P fd r.0 r.1 go_on again)
  received-Filled k n got (k', received []) go_on again a f g = absurd (omega (arith, a.0))
  received-Filled k n got (k', received (b ∷ bs)) go_on again (pos, le, e, w) f g =
      read_more k k' n (b ∷ bs) got (go_on (b ∷ bs)) e w le (f (b ∷ bs) pos le e w)
  received-Filled k n got (k', recv_failed x) go_on again (e, u, w) f g =
      subst (λ c. Filled k n got (if c then again else (k', read_failed (map_errno_to_error P x))))
        (sym e) (read_again k k' n got again u w (g u w))

  -- With enough fuel for each byte and each wait the loop fills its buffer, however the bytes arrive.
  pub read_loop-Filled :
      (fuel : ℕ) (k : P.Kernel) (left : ℕ) (got : Bytes)
      → left ≤ length (S.unread k)
      → left + S.waits k ≤ fuel
      → Filled k left got (read_loop P fd fuel k left got)
  unfolding read_loop
  read_loop-Filled zero k zero got le h = read_nothing k 0 got refl
  read_loop-Filled (suc fuel) k zero got le h = read_nothing k 0 got refl
  read_loop-Filled zero k (suc n) got le h = absurd (omega arith)
  read_loop-Filled (suc fuel) k (suc n) got le h =
      let (k', _) = P.recv k fd (suc n) in
      received-Filled k (suc n) got (P.recv k fd (suc n)) _ _
        (S.arrives k (suc n) (omega arith) (omega arith))
        (λ bs pos lb e w.
          read_loop-Filled fuel k' (suc n - length bs) (got ++ bs)
            (omega (arith, ap length e, length-append bs (S.unread k'))) (omega arith))
        (λ u w. read_loop-Filled fuel k' (suc n) got (omega (arith, ap length u)) (omega arith))

  pub read_data-Filled :
      (fuel : ℕ) (k : P.Kernel) (size : ℕ)
      → size ≤ length (S.unread k)
      → size + S.waits k ≤ fuel
      → Filled k size [] (read_data P fd fuel k size)
  unfolding read_data
  read_data-Filled fuel k size le h = read_loop-Filled fuel k size [] le h
