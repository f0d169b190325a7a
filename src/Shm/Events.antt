-- ===== src/Shm/Events.antt =====
-- post_start, process_recv_events and the dispatch of events in src/comm_shm.cpp.
use hakoniwa_pdu_endpoint.Prelude.{
  ℕ, Bool, true, false, not, ◌||◌, Option, none, some, List, [], ◌∷◌, ◌++◌, if◌then◌else◌, nat_Eq,
  StdString,
}
use hakoniwa_pdu_endpoint.Prelude.Map.{find, assign, erase_all}
use hakoniwa_pdu_endpoint.Types.{HakoPduErrorType, ok, invalid_config, PduResolvedKey}
use hakoniwa_pdu_endpoint.Cache.Span.{Bytes}
use hakoniwa_pdu_endpoint.PduDefinition.{PduDefinition, PduDef, resolve_channel}
use hakoniwa_pdu_endpoint.Shm.{
  HakoCore, PollEntry, PduCommShmImp, poll_impl, PduCommShm, World, put, impl_recv,
  register_rcv_event,
}

-- A call of the callback: of which object, with what.
abbrev pub Call : Type 0
Call = ℕ × PduResolvedKey × Bytes

module _ (H : HakoCore) where
  -- The object after the registration of a key.
  abbrev pub registered : PduCommShm → PduResolvedKey → ℕ → PduCommShm
  registered c key event_id = record c {
    event_id_to_key_map = assign event_id key c.event_id_to_key_map;
    registered_event_ids = c.registered_event_ids ++ (event_id ∷ []);
  }

  abbrev pub forgotten : PduCommShm → List ℕ → PduCommShm
  forgotten c newly = record c {
    event_id_to_key_map = erase_all newly c.event_id_to_key_map;
    registered_event_ids = [];
    running = false;
  }

  -- A registration that failed: the ids of this call are taken back.
  abbrev pub rolled_back : World H → ℕ → H.State → PduCommShmImp → List ℕ → World H
  rolled_back w i s impl newly =
      put H
        (record w {
          core = s;
          event_id_to_instance_map = erase_all newly w.event_id_to_instance_map;
        })
        i (forgotten (record (w.objects i) { impl = some impl }) newly)

  abbrev pub one_registered : World H → ℕ → H.State → PduCommShmImp → PduResolvedKey → ℕ → World H
  one_registered w i s impl key event_id =
      put H
        (record w {
          core = s;
          event_id_to_instance_map = assign event_id i w.event_id_to_instance_map;
        })
        i (registered (record (w.objects i) { impl = some impl }) key event_id)

  abbrev pub after_register :
      World H
      → ℕ
      → PduResolvedKey
      → List ℕ
      → (World H → PduCommShmImp → List ℕ → World H × HakoPduErrorType)
      → H.State × PduCommShmImp × Option ℕ
      → World H × HakoPduErrorType
  after_register w i key newly go_on (s, impl, none) =
      (rolled_back w i s impl newly, invalid_config)
  after_register w i key newly go_on (s, impl, some event_id) =
      go_on (one_registered w i s impl key event_id) impl (newly ++ (event_id ∷ []))

  unfoldable pub register_keys :
      World H → ℕ → PduCommShmImp → List PduResolvedKey → List ℕ → World H × HakoPduErrorType
  register_keys w i impl [] newly = (w, ok)
  register_keys w i impl (key ∷ keys) newly =
      after_register w i key newly (λ w' impl' newly'. register_keys w' i impl' keys newly')
        (register_rcv_event H w.core impl key)

  abbrev pub post_start_with :
      World H → ℕ → List PduResolvedKey → Option PduCommShmImp → Option (World H × HakoPduErrorType)
  post_start_with w i [] impl = some (w, ok)
  post_start_with w i (key ∷ keys) none = none
  post_start_with w i (key ∷ keys) (some impl) = some (register_keys w i impl (key ∷ keys) [])

  -- None is a call through a null impl_.
  unfoldable pub post_start : World H → ℕ → Option (World H × HakoPduErrorType)
  post_start w i = post_start_with w i (w.objects i).recv_notify_keys (w.objects i).impl

  abbrev read_call : World H → ℕ → PduResolvedKey → H.State × Option Bytes → World H × List Call
  read_call w j key (s, none) = (record w { core = s }, [])
  read_call w j key (s, some bytes) = (record w { core = s }, (j, key, bytes) ∷ [])

  -- impl_ is set where an event was registered.
  abbrev read_with :
      World H → ℕ → PduResolvedKey → Option PduDef → Option PduCommShmImp → World H × List Call
  read_with w j key (some def) (some impl) =
      read_call w j key (impl_recv H w.core impl key def.pdu_size)
  read_with w j key _ _ = (w, [])

  abbrev handle_key :
      World H → ℕ → Option PduDefinition → Option PduResolvedKey → World H × List Call
  handle_key w j (some defs) (some key) =
      read_with w j key (resolve_channel defs key.robot key.channel_id) (w.objects j).impl
  handle_key w j _ _ = (w, [])

  unfoldable pub handle_shm_recv : World H → ℕ → ℕ → World H × List Call
  handle_shm_recv w j event_id =
      let c = w.objects j in
      if not c.running || not c.has_callback
      then (w, [])
      else handle_key w j c.pdu_def (find event_id c.event_id_to_key_map)

  abbrev pub dispatched : World H → ℕ → Option ℕ → World H × List Call
  dispatched w event_id none = (w, [])
  dispatched w event_id (some j) = handle_shm_recv w j event_id

  unfoldable pub shm_recv_callback : World H → ℕ → World H × List Call
  shm_recv_callback w event_id = dispatched w event_id (find event_id w.event_id_to_instance_map)

  abbrev checked : World H → PollEntry → H.State × Bool → World H × List Call
  checked w entry (s, false) = (record w { core = s }, [])
  checked w entry (s, true) = shm_recv_callback (record w { core = s }) entry.event_id

  -- The loop over the copy of the entries.
  unfoldable pub poll_all : World H → StdString → List PollEntry → World H × List Call
  poll_all w asset_name [] = (w, [])
  poll_all w asset_name (entry ∷ rest) =
      let (w', calls) = checked w entry (H.poll_check w.core asset_name entry.key) in
      let (w'', more) = poll_all w' asset_name rest in (w'', calls ++ more)

  abbrev poll_impl_events : World H → Option PduCommShmImp → World H × List Call
  poll_impl_events w (some (poll_impl p)) = poll_all w p.asset_name p.poll_entries
  poll_impl_events w _ = (w, [])

  unfoldable pub process_recv_events : World H → ℕ → World H × List Call
  process_recv_events w i =
      if not (w.objects i).running then (w, []) else poll_impl_events w (w.objects i).impl
