-- ===== src/Shm/Takeover.antt =====
-- Two objects of src/comm_shm.cpp that poll, and the event ids of src/comm_shm_poll.cpp.
use hakoniwa_pdu_endpoint.Prelude.{
  ℕ, ◌≡◌, ◌≢◌, refl, sym, ap, ◌∙◌, append-nil, arith, Bool, true, false, some, List, [], ◌∷◌, ◌++◌,
  nat_eq, nat_Eq, StdString,
}
use hakoniwa_pdu_endpoint.Prelude.Map.{find, find-assign_self}
use hakoniwa_pdu_endpoint.Types.{ok, PduResolvedKey}
use hakoniwa_pdu_endpoint.Shm.{
  HakoCore, PduCommShmPollImpl, PduCommShmImp, poll_impl, PduCommShm, World, find_entry,
  register_rcv_event, poll_registered,
}
use hakoniwa_pdu_endpoint.Shm.Events.{
  Call, registered, one_registered, after_register, register_keys, post_start_with, post_start,
  handle_shm_recv, dispatched, shm_recv_callback, process_recv_events, poll_all,
}
use hakoniwa_pdu_endpoint.Shm.Dispatch.{put_here}

abbrev pub fresh_poll : StdString → PduCommShmPollImpl
fresh_poll asset_name = record { asset_name = asset_name; next_event_id = 0; poll_entries = [] }

-- The implementation after its first registration.
abbrev polling : StdString → PduResolvedKey → PduCommShmPollImpl
polling asset_name key = record {
  asset_name = asset_name;
  next_event_id = 1;
  poll_entries = record { key = key; event_id = 1 } ∷ [];
}

module _ (H : HakoCore) where
  -- The post_start of an object that polls, with one key, that has registered nothing before.
  first_event :
      (w : World H) (i : ℕ) (asset_name : StdString) (key : PduResolvedKey) (s : H.State)
      → (w.objects i).recv_notify_keys ≡ key ∷ []
      → (w.objects i).impl ≡ some (poll_impl (fresh_poll asset_name))
      → H.poll_register w.core key ≡ (s, true)
      → post_start H w i
        ≡ some (one_registered H w i s (poll_impl (polling asset_name key)) key 1, ok)
  unfolding post_start register_keys register_rcv_event find_entry
  first_event w i asset_name key s hk hi hr =
      ap (λ (keys : List PduResolvedKey). post_start_with H w i keys (w.objects i).impl) hk
      ∙ ap (post_start_with H w i (key ∷ [])) hi
      ∙ ap
          (λ (r : H.State × Bool). some (
            after_register H w i key [] (λ w' impl' newly'. register_keys H w' i impl' [] newly')
              (poll_registered H (fresh_poll asset_name) key r)))
          hr

  other_object :
      (w : World H) (i j : ℕ) (s : H.State) (impl : PduCommShmImp) (key : PduResolvedKey)
      → i ≢ j
      → (one_registered H w j s impl key 1).objects i ≡ w.objects i
  other_object w i j s impl key h = rw (let e : nat_eq i j ≡ false = ground (arith, h) in e) refl

  own_object :
      (w : World H) (i : ℕ) (s : H.State) (impl : PduCommShmImp) (key : PduResolvedKey)
      → (one_registered H w i s impl key 1).objects i
        ≡ registered H (record (w.objects i) { impl = some impl }) key 1
  own_object w i s impl key = put_here H w i _

  -- One turn of an object that polls one key for which there is data.
  process_recv_events-polling :
      (w : World H) (i j : ℕ) (name : StdString) (key : PduResolvedKey) (s : H.State)
      → (w.objects i).running ≡ true
      → (w.objects i).impl ≡ some (poll_impl (polling name key))
      → H.poll_check w.core name key ≡ (s, true)
      → find 1 w.event_id_to_instance_map ≡ some j
      → process_recv_events H w i ≡ handle_shm_recv H (record w { core = s }) j 1
  unfolding process_recv_events poll_all shm_recv_callback
  process_recv_events-polling w i j name key s running hi hc led =
      rw (running, hi, hc, led) (nothing_more (handle_shm_recv H (record w { core = s }) j 1))
    where
      nothing_more : (r : World H × List Call) → (r.0, r.1 ++ []) ≡ r
      nothing_more r = ap (λ (calls : List Call). (r.0, calls)) (append-nil r.1)

  led_here :
      (w : World H) (i : ℕ) (s : H.State) (impl : PduCommShmImp) (key : PduResolvedKey)
      → shm_recv_callback H (one_registered H w i s impl key 1) 1
        ≡ handle_shm_recv H (one_registered H w i s impl key 1) i 1
  unfolding shm_recv_callback
  led_here w i s impl key =
      ap (dispatched H (one_registered H w i s impl key 1) 1)
        (find-assign_self 1 i w.event_id_to_instance_map)

  -- Two objects that poll, each with one key, that have registered nothing before, and a core that registers both
  -- keys: both calls of post_start answer OK, and event 1 is handled by the first object after its own, but
  -- by the second after the second one; then the first, which runs and still polls its own key, hands
  -- what it finds to the second.
  pub process_recv_events-post_start :
      (w : World H) (i j : ℕ) (name name' : StdString) (key key' : PduResolvedKey)
      (s s' s'' : H.State)
      → i ≢ j
      → (w.objects i).running ≡ true
      → (w.objects i).recv_notify_keys ≡ key ∷ []
      → (w.objects i).impl ≡ some (poll_impl (fresh_poll name))
      → (w.objects j).recv_notify_keys ≡ key' ∷ []
      → (w.objects j).impl ≡ some (poll_impl (fresh_poll name'))
      → H.poll_register w.core key ≡ (s, true)
      → H.poll_register s key' ≡ (s', true)
      → H.poll_check s' name key ≡ (s'', true)
      → (w1 w2 : World H) × (post_start H w i ≡ some (w1, ok))
        × (post_start H w1 j ≡ some (w2, ok))
        × (shm_recv_callback H w1 1 ≡ handle_shm_recv H w1 i 1)
        × (shm_recv_callback H w2 1 ≡ handle_shm_recv H w2 j 1)
        × (process_recv_events H w2 i ≡ handle_shm_recv H (record w2 { core = s'' }) j 1)
  process_recv_events-post_start w i j name name' key key' s s' s'' other running hk hi hk' hi' hr
        hr' hc =
      let w1 = one_registered H w i s (poll_impl (polling name key)) key 1 in
      let w2 = one_registered H w1 j s' (poll_impl (polling name' key')) key' 1 in
      let second_kept =
        other_object w j i s (poll_impl (polling name key)) key (λ e. other (sym e)) in
      let first_kept =
        other_object w1 i j s' (poll_impl (polling name' key')) key' other
        ∙ own_object w i s (poll_impl (polling name key)) key in
      (
        w1,
        w2,
        first_event w i name key s hk hi hr,
        first_event w1 j name' key' s'
            (ap (λ (c : PduCommShm). c.recv_notify_keys) second_kept ∙ hk')
            (ap (λ (c : PduCommShm). c.impl) second_kept ∙ hi') hr',
        led_here w i s (poll_impl (polling name key)) key,
        led_here w1 j s' (poll_impl (polling name' key')) key',
        process_recv_events-polling w2 i j name key s''
            (ap (λ (c : PduCommShm). c.running) first_kept ∙ running)
            (ap (λ (c : PduCommShm). c.impl) first_kept) hc
            (find-assign_self 1 j w1.event_id_to_instance_map),
      )
