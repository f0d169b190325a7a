-- ===== src/Sockets/Output.antt =====
-- write_data of src/comm_tcp.cpp: the loop that hands a buffer to a stream socket.
use hakoniwa_pdu_endpoint.Prelude.{
  ℕ, zero, suc, ◌+◌, ◌≤◌, ◌<◌, ◌≡◌, refl, sym, ap, ◌∙◌, arith, subst, true, [], ◌∷◌, ◌++◌,
  if◌then◌else◌, length, take, drop, append_assoc, append-nil, take-drop, length-drop,
}
use hakoniwa_pdu_endpoint.Types.{HakoPduErrorType, ok, io_error}
use hakoniwa_pdu_endpoint.Cache.Span.{Bytes}
use hakoniwa_pdu_endpoint.Sockets.{
  Posix, Sent, sent_bytes, send_failed, would_block, map_errno_to_error,
}

-- What the function returns, or the end of the fuel.
pub data WriteEnd : Type 0 where
  wrote : HakoPduErrorType → WriteEnd
  write_starved : WriteEnd

module _ (P : Posix) (fd : ℕ) where
  abbrev Writing : Type 0
  Writing = P.Kernel × WriteEnd

  -- One turn of the loop after `send`, which took so many bytes.
  abbrev pub after_send : P.Kernel → Sent → (ℕ → Writing) → Writing → Writing
  after_send k (sent_bytes zero) go_on again = (k, wrote io_error)
  after_send k (sent_bytes (suc n)) go_on again = go_on (suc n)
  after_send k (send_failed e) go_on again =
      if would_block P e then again else (k, wrote (map_errno_to_error P e))

  -- On the bytes from total_sent on.
  unfoldable pub write_loop : ℕ → P.Kernel → Bytes → Writing
  write_loop fuel k [] = (k, wrote ok)
  write_loop zero k (b ∷ bs) = (k, write_starved)
  write_loop (suc fuel) k (b ∷ bs) =
      let (k', r) = P.send k fd (b ∷ bs) in
      after_send k' r (λ n. write_loop fuel k' (drop n (b ∷ bs))) (write_loop fuel k' (b ∷ bs))

  unfoldable pub write_data : ℕ → P.Kernel → Bytes → Writing
  unfolding write_loop
  write_data fuel k bytes = write_loop fuel k bytes

-- What a stream socket promises while the peer reads: `send` takes some of the bytes, from the front, or
-- answers EAGAIN, this only so many times.
abbrev pub Takes :
    (P : Posix) → (P.Kernel → Bytes) → (P.Kernel → ℕ) → P.Kernel → Bytes → P.Kernel × Sent → Type 0
Takes P outbox blocks k bs (k', sent_bytes n) =
    (0 < n) × (n ≤ length bs) × (outbox k' ≡ outbox k ++ take n bs) × (blocks k' ≤ blocks k)
Takes P outbox blocks k bs (k', send_failed e) =
    (would_block P e ≡ true) × (outbox k' ≡ outbox k) × (blocks k' < blocks k)

pub record IsSink (P : Posix) (fd : ℕ) : Type 0 where
  pub outbox : P.Kernel → Bytes
  pub blocks : P.Kernel → ℕ
  pub takes :
      (k : P.Kernel) (bs : Bytes) → 0 < length bs → Takes P outbox blocks k bs (P.send k fd bs)

module _ (P : Posix) (fd : ℕ) (S : IsSink P fd) where
  -- All the bytes went out.
  pub record Written (k : P.Kernel) (bs : Bytes) (r : P.Kernel × WriteEnd) : Type 0 where
    pub answer : r.1 ≡ wrote ok
    pub out : S.outbox r.0 ≡ S.outbox k ++ bs

  write_more :
      (k k' : P.Kernel) (n : ℕ) (bs : Bytes) (r : P.Kernel × WriteEnd)
      → S.outbox k' ≡ S.outbox k ++ take n bs
      → Written k' (drop n bs) r
      → Written k bs r
  write_more k k' n bs r e w = record {
    answer = w.answer;
    out =
        w.out
        ∙ ap (λ (o : Bytes). o ++ drop n bs) e
        ∙ append_assoc (S.outbox k) (take n bs) (drop n bs)
        ∙ ap (◌++◌ (S.outbox k)) (take-drop n bs);
  }

  sent-Written :
      (k : P.Kernel) (bs : Bytes) (r : P.Kernel × Sent) (go_on : ℕ → P.Kernel × WriteEnd)
      (again : P.Kernel × WriteEnd)
      → Takes P S.outbox S.blocks k bs r
      → ((n : ℕ)
          → 0 < n
          → n ≤ length bs
          → S.blocks r.0 ≤ S.blocks k
          → Written r.0 (drop n bs) (go_on n))
      → (S.blocks r.0 < S.blocks k → Written r.0 bs again)
      → Written k bs (after_send P fd r.0 r.1 go_on again)
  sent-Written k bs (k', sent_bytes zero) go_on again (pos, le, e, w) f g = absurd (omega arith)
  sent-Written k bs (k', sent_bytes (suc n)) go_on again (pos, le, e, w) f g =
      write_more k k' (suc n) bs (go_on (suc n)) e (f (suc n) pos le w)
  sent-Written k bs (k', send_failed x) go_on again (e, o, w) f g =
      let more = g w in
      subst (λ c. Written k bs (if c then again else (k', wrote (map_errno_to_error P x)))) (sym e)
        (record { answer = more.answer; out = more.out ∙ ap (λ (o : Bytes). o ++ bs) o })

  write_loop-Written :
      (fuel : ℕ) (k : P.Kernel) (bs : Bytes)
      → length bs + S.blocks k ≤ fuel
      → Written k bs (write_loop P fd fuel k bs)
  unfolding write_loop
  write_loop-Written zero k [] h = record { answer = refl; out = sym (append-nil (S.outbox k)) }
  write_loop-Written (suc fuel) k [] h = record {
    answer = refl;
    out = sym (append-nil (S.outbox k));
  }
  write_loop-Written zero k (b ∷ bs) h = absurd (omega arith)
  write_loop-Written (suc fuel) k (b ∷ bs) h =
      let (k', _) = P.send k fd (b ∷ bs) in
      sent-Written k (b ∷ bs) (P.send k fd (b ∷ bs)) _ _ (S.takes k (b ∷ bs) (omega arith))
        (λ n pos le w.
          write_loop-Written fuel k' (drop n (b ∷ bs)) (omega (arith, length-drop n (b ∷ bs))))
        (λ w. write_loop-Written fuel k' (b ∷ bs) (omega arith))

  -- With fuel for each byte and each refusal the loop hands over the whole buffer, in order and once.
  pub write_data-Written :
      (fuel : ℕ) (k : P.Kernel) (bytes : Bytes)
      → length bytes + S.blocks k ≤ fuel
      → Written k bytes (write_data P fd fuel k bytes)
  unfolding write_data
  write_data-Written fuel k bytes h = write_loop-Written fuel k bytes h
