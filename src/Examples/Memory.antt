-- ===== src/Examples/Memory.antt =====
-- Shared memory at concrete inputs: two objects that poll, each with one key.
use hakoniwa_pdu_endpoint.Prelude.{
  ℕ, ◌≡◌, ◌≢◌, refl, true, Option, none, some, List, [], ◌∷◌, nat_eq, nat_Eq, if◌then◌else◌, codes,
  arith,
}
use hakoniwa_pdu_endpoint.Prelude.Map.{find, assign}
use hakoniwa_pdu_endpoint.Types.{ok, HakoPduErrorType, PduResolvedKey}
use hakoniwa_pdu_endpoint.PduDefinition.{PduDef, resolve_channel, find_channel}
use hakoniwa_pdu_endpoint.Shm.{
  HakoCore, poll_impl, PduCommShm, World, close, register_rcv_event, find_entry, impl_recv,
}
use hakoniwa_pdu_endpoint.Shm.Events
use hakoniwa_pdu_endpoint.Shm.Events.{
  Call, post_start, register_keys, handle_shm_recv, shm_recv_callback, process_recv_events,
  poll_all,
}
use hakoniwa_pdu_endpoint.Shm.Dispatch.{IsTracked, close-post_start}
use hakoniwa_pdu_endpoint.Shm.Takeover.{fresh_poll, process_recv_events-post_start}

-- Every PDU is one byte, its channel.
abbrev memory : HakoCore
memory = record {
  State = ℕ;
  poll_create = λ s robot channel_id size. (s, true);
  poll_write = λ s asset key bytes. (s, true);
  poll_read = λ s asset key size. (s, some (key.channel_id ∷ []));
  poll_register = λ s key. (s, true);
  poll_check = λ s asset key. (s, true);
  callback_create = λ s robot channel_id size. (s, true);
  callback_write = λ s key bytes. (s, true);
  callback_read = λ s key size. (s, some (key.channel_id ∷ []));
  callback_register = λ s key. (s, some 1);
}

abbrev key_of : ℕ → PduResolvedKey
key_of channel_id = record { robot = codes "Drone"; channel_id = channel_id }

abbrev def_of : ℕ → PduDef
def_of channel_id = record {
  type = [];
  org_name = codes "pos";
  name = codes "pos";
  channel_id = channel_id;
  pdu_size = 1;
  method_type = [];
}

abbrev object_of : ℕ → PduCommShm
object_of channel_id = record {
  running = true;
  event_id_to_key_map = [];
  registered_event_ids = [];
  recv_notify_keys = key_of channel_id ∷ [];
  impl = some (poll_impl (fresh_poll (codes "asset")));
  pdu_def = some ((codes "Drone", (codes "pos", def_of channel_id) ∷ []) ∷ []);
  has_callback = true;
}

abbrev opened : World memory
opened = record {
  core = 0;
  event_id_to_instance_map = [];
  objects = λ i. if nat_eq i 0 then object_of 7 else object_of 8;
}

abbrev both_started : Option (World memory × HakoPduErrorType)
both_started = elim (post_start memory opened 0) [ none ↦ none | some r ↦ post_start memory r.0 1 ]

abbrev calls_of : Option (World memory × HakoPduErrorType) → List Call
calls_of none = []
calls_of (some r) = (process_recv_events memory r.0 0).1

-- Object 0 polls the event of its channel 7, and object 1 is called with its own channel 8.
taken_over : calls_of both_started ≡ (1, key_of 8, 8 ∷ []) ∷ []
unfolding post_start register_keys register_rcv_event find_entry process_recv_events poll_all
    shm_recv_callback handle_shm_recv resolve_channel find_channel impl_recv find assign
taken_over = refl

abbrev started : World memory
started =
    Events.one_registered memory opened 0 0
      (poll_impl (record {
        asset_name = codes "asset";
        next_event_id = 1;
        poll_entries = record { key = key_of 7; event_id = 1 } ∷ [];
      }))
      (key_of 7) 1

no_events : IsTracked memory opened 0
unfolding IsTracked find
no_events id h = absurd (ground (arith, h))

starts : post_start memory opened 0 ≡ some (started, ok)
unfolding post_start register_keys register_rcv_event find_entry
starts = refl

close-post_start_example : find 1 (close memory started 0).event_id_to_instance_map ≢ some 0
close-post_start_example = close-post_start memory opened started 0 1 no_events starts

different : ◌≢◌ {A = ℕ} 0 1
different e = absurd (ground (arith, e))

process_recv_events-post_start_example :
    (w1 w2 : World memory) × (post_start memory opened 0 ≡ some (w1, ok))
    × (post_start memory w1 1 ≡ some (w2, ok))
    × (shm_recv_callback memory w1 1 ≡ handle_shm_recv memory w1 0 1)
    × (shm_recv_callback memory w2 1 ≡ handle_shm_recv memory w2 1 1)
    × (process_recv_events memory w2 0 ≡ handle_shm_recv memory (record w2 { core = 0 }) 1 1)
process_recv_events-post_start_example =
    process_recv_events-post_start memory opened 0 1 (codes "asset") (codes "asset") (key_of 7)
      (key_of 8) 0 0 0 different refl refl refl refl refl refl refl refl
