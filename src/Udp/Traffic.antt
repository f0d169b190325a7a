-- ===== src/Udp/Traffic.antt =====
-- What recv_loop of src/comm_udp.cpp makes of the datagrams that arrive, and where raw_send answers.
use hakoniwa_pdu_endpoint.Prelude.{
  ℕ, zero, suc, ◌+◌, ◌^◌, ◌≤◌, ◌<◌, ◌≡◌, refl, sym, ap, ◌∙◌, ◌⊎◌, inl, inr, arith, subst, true,
  false, not, ◌&&◌, Option, some, List, [], ◌∷◌, ◌++◌, append-nil, if-Any, length, codes, All,
}
use hakoniwa_pdu_endpoint.Types.{PduResolvedKey, is_in, is_out, dir_inout}
use hakoniwa_pdu_endpoint.Cache.Span.{Bytes}
use hakoniwa_pdu_endpoint.Packet.Wire.{Endian}
use hakoniwa_pdu_endpoint.CommRaw.{PduCommRaw, send}
use hakoniwa_pdu_endpoint.CommRaw.Delivery.{IsSendable, on_raw_data_received-send_v2}
use hakoniwa_pdu_endpoint.Sockets.{Posix, ReceivedFrom, received_from, recv_from_failed}
use hakoniwa_pdu_endpoint.Udp.{
  UdpComm, World, from_sender, as_list, calls_of, turned, turn_on, recv_turn, recv_loop, raw_send,
  sent_to,
}

abbrev pub Message : Type 0
Message = PduResolvedKey × Bytes

-- What a datagram socket promises: `recvfrom` answers with the datagram that waits longest, whole, or with
-- an errno, this only so many times while one waits.
abbrev pub Arrives :
    (P : Posix)
    → (P.Kernel → List (Bytes × P.Address))
    → (P.Kernel → ℕ)
    → P.Kernel
    → P.Kernel × ReceivedFrom P.Address
    → Type 0
Arrives P inbox waits k (k', received_from bytes from) =
    (inbox k ≡ (bytes, from) ∷ inbox k') × (waits k' ≤ waits k)
Arrives P inbox waits k (k', recv_from_failed errno) =
    (inbox k' ≡ inbox k) × ((inbox k ≡ []) ⊎ (waits k' < waits k)) × (waits k' ≤ waits k)

pub record IsMailbox (P : Posix) (fd : ℕ) : Type 0 where
  pub inbox : P.Kernel → List (Bytes × P.Address)
  pub waits : P.Kernel → ℕ
  pub arrives : (k : P.Kernel) → Arrives P inbox waits k (P.recv_from k fd 65536)

module _ (P : Posix) (e : Endian) where
  -- The object after datagrams, and the calls that they lead to.
  unfoldable pub from_senders : UdpComm P.Address → List (Bytes × P.Address) → UdpComm P.Address
  from_senders c [] = c
  from_senders c ((bytes, from) ∷ ds) = from_senders (from_sender P c from) ds

  unfoldable pub calls_of_all : PduCommRaw → List (Bytes × P.Address) → List Message
  calls_of_all c [] = []
  calls_of_all c ((bytes, from) ∷ ds) = calls_of P e c bytes ++ calls_of_all c ds

  from_sender-raw : (c : UdpComm P.Address) (a : P.Address) → (from_sender P c a).raw ≡ c.raw
  from_sender-raw c a =
      if-Any (λ (c' : UdpComm P.Address). c'.raw ≡ c.raw)
        (not (is_in c.config_direction)
          && not (is_out c.config_direction)
          && not c.has_fixed_remote)
        _ _ refl refl

  from_sender-socket_fd :
      (c : UdpComm P.Address) (a : P.Address) → (from_sender P c a).socket_fd ≡ c.socket_fd
  from_sender-socket_fd c a =
      if-Any (λ (c' : UdpComm P.Address). c'.socket_fd ≡ c.socket_fd)
        (not (is_in c.config_direction)
          && not (is_out c.config_direction)
          && not c.has_fixed_remote)
        _ _ refl refl

  module _ (fd : ℕ) (M : IsMailbox P fd) where
    -- The loop took the front of what waited, and with enough rounds all of it.
    pub record Taken (k : P.Kernel) (c : UdpComm P.Address) (rounds : ℕ)
        (r : World P × List Message) : Type 0 where
      pub front : List (Bytes × P.Address)
      pub split : M.inbox k ≡ front ++ M.inbox r.0.0
      pub calls : r.1 ≡ calls_of_all c.raw front
      pub object : r.0.1 ≡ from_senders c front
      pub all_taken : length (M.inbox k) + M.waits k ≤ rounds → M.inbox r.0.0 ≡ []

    empty_inbox : (ds : List (Bytes × P.Address)) (n : ℕ) → length ds + n ≤ 0 → ds ≡ []
    empty_inbox [] n h = refl
    empty_inbox (d ∷ ds) n h = absurd (omega arith)

    nothing_after : (ds ds' : List (Bytes × P.Address)) → ds ++ ds' ≡ [] → ds' ≡ []
    nothing_after [] ds' h = h
    nothing_after (d ∷ ds) ds' h = absurd (omega (arith, ap length h))

    take_more :
        (k : P.Kernel) (c : UdpComm P.Address) (rounds : ℕ) (r : P.Kernel × ReceivedFrom P.Address)
        (loop : World P → World P × List Message)
        → Arrives P M.inbox M.waits k r
        → ((k' : P.Kernel) (c' : UdpComm P.Address)
            → c'.socket_fd ≡ c.socket_fd
            → Taken k' c' rounds (loop (k', c')))
        → Taken k c
            (suc rounds)
            ((loop (turned P e c r).0).0, (turned P e c r).1 ++ (loop (turned P e c r).0).1)
    unfolding calls_of_all from_senders
    take_more k c rounds (k', recv_from_failed x) loop (same, why, w) f =
        let t = f k' c refl in
        record {
          front = t.front;
          split = sym same ∙ t.split;
          calls = t.calls;
          object = t.object;
          all_taken = λ h. elim why [
            | inl none_left ↦ nothing_after t.front _ (sym t.split ∙ same ∙ none_left)
            | inr fewer ↦ t.all_taken (omega (arith, ap length same))
          ];
        }
    take_more k c rounds (k', received_from bytes from) loop (next, w) f =
        let t = f k' (from_sender P c from) (from_sender-socket_fd c from) in
        record {
          front = (bytes, from) ∷ t.front;
          split = next ∙ ap (◌∷◌ (bytes, from)) t.split;
          calls = ap (◌++◌ (calls_of P e c.raw bytes)) (
              t.calls
              ∙ ap (λ (raw : PduCommRaw). calls_of_all raw t.front) (from_sender-raw c from));
          object = t.object;
          all_taken = λ h. t.all_taken (omega (arith, ap length next));
        }

    pub recv_loop-Taken :
        (rounds : ℕ) (k : P.Kernel) (c : UdpComm P.Address)
        → c.socket_fd ≡ some fd
        → Taken k c rounds (recv_loop P e rounds (k, c))
    unfolding recv_loop recv_turn calls_of_all from_senders
    recv_loop-Taken zero k c h = record {
      front = [];
      split = refl;
      calls = refl;
      object = refl;
      all_taken = λ h. empty_inbox (M.inbox k) (M.waits k) h;
    }
    recv_loop-Taken (suc rounds) k c h =
        subst
          (λ (o : Option ℕ). Taken k c (suc rounds) (
            (recv_loop P e rounds (turn_on P e c k o).0).0,
            (turn_on P e c k o).1 ++ (recv_loop P e rounds (turn_on P e c k o).0).1,
          ))
          (sym h)
          (take_more k c rounds (P.recv_from k fd 65536) (recv_loop P e rounds) (M.arrives k)
            (λ k' c' e'. recv_loop-Taken rounds k' c' (e' ∙ h)))

  calls_of_sent :
      (e' : Endian) (c d : PduCommRaw) (key : PduResolvedKey) (bytes : Bytes)
      → IsSendable key
      → length bytes < 2 ^ 32
      → c.packet_version ≡ codes "v2"
      → c.has_callback ≡ true
      → d.packet_version ≡ codes "v2"
      → calls_of P e c (send e' d key bytes) ≡ (key, bytes) ∷ []
  calls_of_sent e' c d key bytes s h vc cb vd =
      ap (as_list P e) (on_raw_data_received-send_v2 e' e d c key bytes s h vd vc cb)

  -- The datagrams of messages, each with its sender.
  unfoldable pub datagrams :
      Endian → PduCommRaw → List (Message × P.Address) → List (Bytes × P.Address)
  datagrams e' d [] = []
  datagrams e' d (((key, bytes), from) ∷ ms) = (send e' d key bytes, from) ∷ datagrams e' d ms

  abbrev pub messages : List (Message × P.Address) → List Message
  messages [] = []
  messages ((m, from) ∷ ms) = m ∷ messages ms

  abbrev pub FitsDatagram : Message × P.Address → Type 0
  FitsDatagram ((key, bytes), from) = IsSendable key × (length bytes < 2 ^ 32)

  calls_of_all-datagrams :
      (e' : Endian) (c d : PduCommRaw) (ms : List (Message × P.Address))
      → c.packet_version ≡ codes "v2"
      → c.has_callback ≡ true
      → d.packet_version ≡ codes "v2"
      → All FitsDatagram ms
      → calls_of_all c (datagrams e' d ms) ≡ messages ms
  unfolding calls_of_all datagrams
  calls_of_all-datagrams e' c d [] vc cb vd fits = refl
  calls_of_all-datagrams e' c d (((key, bytes), from) ∷ ms) vc cb vd ((s, h), fits) =
      ap (λ (calls : List Message). calls ++ calls_of_all c (datagrams e' d ms))
        (calls_of_sent e' c d key bytes s h vc cb vd)
      ∙ ap (◌∷◌ (key, bytes)) (calls_of_all-datagrams e' c d ms vc cb vd fits)

  module _ (fd : ℕ) (M : IsMailbox P fd) where
    -- With v2 and a callback, peers with v2 in any byte order and rounds for every waiting datagram and
    -- every errno, the calls of the callback are the messages that wait, in order and once each, and
    -- afterwards none waits.
    pub recv_loop-datagrams :
        (e' : Endian) (d : PduCommRaw) (ms : List (Message × P.Address)) (rounds : ℕ) (k : P.Kernel)
        (c : UdpComm P.Address)
        → c.socket_fd ≡ some fd
        → c.raw.packet_version ≡ codes "v2"
        → c.raw.has_callback ≡ true
        → d.packet_version ≡ codes "v2"
        → All FitsDatagram ms
        → M.inbox k ≡ datagrams e' d ms
        → length (M.inbox k) + M.waits k ≤ rounds
        → ((recv_loop P e rounds (k, c)).1 ≡ messages ms)
          × (M.inbox (recv_loop P e rounds (k, c)).0.0 ≡ [])
    recv_loop-datagrams e' d ms rounds k c h vc cb vd fits waiting enough =
        let t = recv_loop-Taken fd M rounds k c h in
        let nothing = t.all_taken enough in
        (
          t.calls
              ∙ ap (calls_of_all c.raw) (
                  sym (append-nil t.front)
                  ∙ ap (◌++◌ t.front) (sym nothing)
                  ∙ sym t.split
                  ∙ waiting)
              ∙ calls_of_all-datagrams e' c.raw d ms vc cb vd fits,
          nothing,
        )

  -- Without a fixed remote address, an object of the direction "inout" answers the sender of the datagram
  -- that it received last.
  pub raw_send-recv_turn :
      (k k' : P.Kernel) (c : UdpComm P.Address) (fd : ℕ) (raw : Bytes) (from : P.Address) (b : ℕ)
      (bytes : Bytes)
      → c.socket_fd ≡ some fd
      → c.config_direction ≡ dir_inout
      → c.has_fixed_remote ≡ false
      → P.recv_from k fd 65536 ≡ (k', received_from raw from)
      → raw_send P (recv_turn P e (k, c)).0 (b ∷ bytes)
        ≡ sent_to P (P.send_to k' fd (b ∷ bytes) from)
  unfolding raw_send recv_turn
  raw_send-recv_turn k k' c fd raw from b bytes hf hd hr h =
      ap (λ (r : World P × List Message). raw_send P r.0 (b ∷ bytes))
        (ap (turn_on P e c k) hf ∙ ap (turned P e c) h)
      ∙ simp (hd, hr, hf) refl
