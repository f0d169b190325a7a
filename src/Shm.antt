-- ===== src/Shm.antt =====
-- src/comm_shm.cpp, src/comm_shm_poll.cpp and src/comm_shm_callback.cpp with their headers under
-- include/hakoniwa/pdu/comm: PduCommShm, the transport over the shared memory of the hakoniwa core. The
-- core is a parameter. The objects stand in a store, as a static map leads from an event to its object.
pub mod Opening
pub mod Events
pub mod Dispatch
pub mod Takeover
use hakoniwa_pdu_endpoint.Prelude.{
  ℕ, ◌+◌, ◌%◌, ◌^◌, min, Bool, true, false, not, ◌||◌, Option, none, some, is_some, List, [], ◌∷◌,
  ◌++◌, if◌then◌else◌, nat_eq, nat_Eq, length, take, is_empty, StdString, ◌==◌,
}
use hakoniwa_pdu_endpoint.Prelude.Map.{Map, find, assign, erase_all}
use hakoniwa_pdu_endpoint.Types.{
  HakoPduErrorType, ok, io_error, invalid_config, invalid_argument, PduResolvedKey, key_Eq,
}
use hakoniwa_pdu_endpoint.Cache.Span.{Bytes, ReadResult, copy}
use hakoniwa_pdu_endpoint.PduDefinition.{PduDefinition, PduDef, resolve_channel}

-- The calls of the core, for assets that poll (hakoniwa_asset_...) and for those with callbacks
-- (hako_asset_...). An answer of 0 is true, or some with what the call returns besides.
pub record HakoCore : Type 1 where
  pub State : Type 0
  pub poll_create : State → StdString → ℕ → ℕ → State × Bool
  pub poll_write : State → StdString → PduResolvedKey → Bytes → State × Bool
  pub poll_read : State → StdString → PduResolvedKey → ℕ → State × Option Bytes
  pub poll_register : State → PduResolvedKey → State × Bool
  pub poll_check : State → StdString → PduResolvedKey → State × Bool
  pub callback_create : State → StdString → ℕ → ℕ → State × Bool
  pub callback_write : State → PduResolvedKey → Bytes → State × Bool
  pub callback_read : State → PduResolvedKey → ℕ → State × Option Bytes
  -- The event id.
  pub callback_register : State → PduResolvedKey → State × Option ℕ

-- Every entry's `on_recv` is shm_recv_callback.
pub record PollEntry : Type 0 where
  pub key : PduResolvedKey
  pub event_id : ℕ

pub record PduCommShmPollImpl : Type 0 where
  pub asset_name : StdString
  pub next_event_id : ℕ
  pub poll_entries : List PollEntry

pub data PduCommShmImp : Type 0 where
  poll_impl : PduCommShmPollImpl → PduCommShmImp
  callback_impl : PduCommShmImp

pub record PduCommShm : Type 0 where
  pub running : Bool
  pub event_id_to_key_map : Map ℕ PduResolvedKey
  pub registered_event_ids : List ℕ
  pub recv_notify_keys : List PduResolvedKey
  pub impl : Option PduCommShmImp
  pub pdu_def : Option PduDefinition
  -- Whether on_recv_callback_ is set.
  pub has_callback : Bool

unfoldable pub find_entry : PduResolvedKey → List PollEntry → Option ℕ
find_entry key [] = none
find_entry key (entry ∷ rest) =
    if entry.key == key then some entry.event_id else find_entry key rest

module _ (H : HakoCore) where
  unfoldable pub create_pdu_lchannel : H.State → PduCommShmImp → StdString → ℕ → ℕ → H.State × Bool
  create_pdu_lchannel s (poll_impl p) robot channel_id pdu_size =
      H.poll_create s robot channel_id pdu_size
  create_pdu_lchannel s callback_impl robot channel_id pdu_size =
      H.callback_create s robot channel_id pdu_size

  unfoldable pub impl_send : H.State → PduCommShmImp → PduResolvedKey → Bytes → H.State × Bool
  impl_send s (poll_impl p) pdu_key bytes = H.poll_write s p.asset_name pdu_key bytes
  impl_send s callback_impl pdu_key bytes = H.callback_write s pdu_key bytes

  -- With the size of the caller's span.
  unfoldable pub impl_recv : H.State → PduCommShmImp → PduResolvedKey → ℕ → H.State × Option Bytes
  impl_recv s (poll_impl p) pdu_key size = H.poll_read s p.asset_name pdu_key size
  impl_recv s callback_impl pdu_key size = H.callback_read s pdu_key size

  abbrev pub with_entry : PduCommShmPollImpl → PduResolvedKey → Option ℕ → PduCommShmPollImpl × ℕ
  with_entry p pdu_key (some event_id) = (p, event_id)
  with_entry p pdu_key none =
      let event_id = (p.next_event_id + 1) % 2 ^ 32 in
      (
        record p {
          next_event_id = event_id;
          poll_entries = p.poll_entries ++ (record { key = pdu_key; event_id = event_id } ∷ []);
        },
        event_id,
      )

  -- The event id of a key that is registered already is given again.
  abbrev pub poll_registered :
      PduCommShmPollImpl → PduResolvedKey → H.State × Bool → H.State × PduCommShmImp × Option ℕ
  poll_registered p pdu_key (s, false) = (s, poll_impl p, none)
  poll_registered p pdu_key (s, true) =
      let (p', event_id) = with_entry p pdu_key (find_entry pdu_key p.poll_entries) in
      (s, poll_impl p', some event_id)

  abbrev callback_registered : H.State × Option ℕ → H.State × PduCommShmImp × Option ℕ
  callback_registered (s, o) = (s, callback_impl, o)

  unfoldable pub register_rcv_event :
      H.State → PduCommShmImp → PduResolvedKey → H.State × PduCommShmImp × Option ℕ
  register_rcv_event s (poll_impl p) pdu_key = poll_registered p pdu_key (H.poll_register s pdu_key)
  register_rcv_event s callback_impl pdu_key = callback_registered (H.callback_register s pdu_key)

  -- The core, the static map from events to objects, and the objects.
  pub record World : Type 0 where
    pub core : H.State
    pub event_id_to_instance_map : Map ℕ ℕ
    pub objects : ℕ → PduCommShm

  abbrev pub put : World → ℕ → PduCommShm → World
  put w i c = record w { objects = λ j. if nat_eq j i then c else w.objects j }

  unfoldable pub start : World → ℕ → World
  start w i = put w i (record (w.objects i) { running = true })

  unfoldable pub stop : World → ℕ → World
  stop w i = put w i (record (w.objects i) { running = false })

  unfoldable pub is_running : World → ℕ → Bool
  is_running w i = (w.objects i).running

  unfoldable pub close : World → ℕ → World
  close w i =
      let c = w.objects i in
      put
        (record w {
          event_id_to_instance_map = erase_all c.registered_event_ids w.event_id_to_instance_map;
        })
        i (record c { registered_event_ids = []; event_id_to_key_map = []; recv_notify_keys = [] })

  -- A null impl_ makes the outer result none.
  abbrev sent : World → H.State × Bool → Option (World × HakoPduErrorType)
  sent w (s, true) = some (record w { core = s }, ok)
  sent w (s, false) = some (record w { core = s }, io_error)

  abbrev send_with :
      World → PduResolvedKey → Bytes → Option PduCommShmImp → Option (World × HakoPduErrorType)
  send_with w pdu_key bytes none = none
  send_with w pdu_key bytes (some impl) = sent w (impl_send w.core impl pdu_key bytes)

  unfoldable pub send : World → ℕ → PduResolvedKey → Bytes → Option (World × HakoPduErrorType)
  send w i pdu_key bytes = send_with w pdu_key bytes (w.objects i).impl

  abbrev answer : HakoPduErrorType → Bytes → ℕ → ReadResult
  answer err span size = record { errcode = err; bytes = span; received_size = size }

  abbrev received : World → Bytes → ℕ → ℕ → H.State × Option Bytes → World × ReadResult
  received w span size read_size (s, none) = (record w { core = s }, answer io_error span size)
  received w span size read_size (s, some bytes) =
      (record w { core = s }, answer ok (copy bytes span) read_size)

  abbrev recv_with :
      World → PduResolvedKey → Bytes → ℕ → ℕ → Option PduCommShmImp → Option (World × ReadResult)
  recv_with w pdu_key span size read_size none = none
  recv_with w pdu_key span size read_size (some impl) =
      some (received w span size read_size (impl_recv w.core impl pdu_key read_size))

  abbrev recv_def :
      World → ℕ → PduResolvedKey → Bytes → ℕ → Option PduDef → Option (World × ReadResult)
  recv_def w i pdu_key span size none = some (w, answer invalid_config span size)
  recv_def w i pdu_key span size (some def) =
      if is_empty span
      then some (w, answer invalid_argument span size)
      else recv_with w pdu_key span size (min (length span) def.pdu_size) (w.objects i).impl

  abbrev recv_defs :
      World → ℕ → PduResolvedKey → Bytes → ℕ → Option PduDefinition → Option (World × ReadResult)
  recv_defs w i pdu_key span size none = none
  recv_defs w i pdu_key span size (some defs) =
      recv_def w i pdu_key span size (resolve_channel defs pdu_key.robot pdu_key.channel_id)

  -- Also a null pdu_def_ makes the result none.
  unfoldable pub recv : World → ℕ → PduResolvedKey → Bytes → ℕ → Option (World × ReadResult)
  recv w i pdu_key span size = recv_defs w i pdu_key span size (w.objects i).pdu_def
