-- ===== src/Cache/Queue.antt =====
-- include/hakoniwa/pdu/cache/cache_queue.hpp: the cache that queues the PDUs of each key up to a
-- depth. The mutex makes each method one step; a method is a function from the object to the object.
pub mod Laws
pub mod Fifo
use hakoniwa_pdu_endpoint.Prelude.{
  ℕ, ◌+◌, ◌-◌, ◌^◌, Bool, true, false, not, Option, none, some, List, [], ◌∷◌, ◌++◌, if◌then◌else◌,
  ltb, nat_eq, length, codes, StdString,
}
use hakoniwa_pdu_endpoint.Prelude.Map.{Map, find, assign}
use hakoniwa_pdu_endpoint.Types.{
  HakoPduErrorType, ok, no_space, no_entry, file_not_found, invalid_json, invalid_config,
  not_running, PduResolvedKey, key_Eq,
}
use hakoniwa_pdu_endpoint.Json.{Json, Loaded, not_found, malformed, parsed}
use hakoniwa_pdu_endpoint.Cache.Span.{Bytes, ReadResult, copy}

pub record PduLatestQueue : Type 0 where
  pub depth : ℕ
  pub queues : Map PduResolvedKey (List Bytes)
  pub is_running : Bool

unfoldable pub init : PduLatestQueue
init = record { depth = 1; queues = []; is_running = false }

-- The conversion of an `int` to `std::size_t`: a negative one wraps.
abbrev size_of_int : ℕ → ℕ
size_of_int w = if ltb w (2 ^ 31) then w else w + (2 ^ 64 - 2 ^ 32)

-- `if (depth_ == 0) depth_ = 1`
abbrev at_least_one : ℕ → ℕ
at_least_one d = if nat_eq d 0 then 1 else d

module _ (J : Json) where
  abbrev depth_of : Option J.Value → Option J.Value
  depth_of none = none
  depth_of (some store) = J.member store (codes "depth")

  -- A depth that is no number throws, and leaves the object alone.
  abbrev set_depth : PduLatestQueue → Option J.Value → PduLatestQueue × HakoPduErrorType
  set_depth q none = (record q { depth = at_least_one q.depth }, ok)
  set_depth q (some d) = elim (J.get_int d) [
    | none ↦ (q, invalid_config)
    | some n ↦ (record q { depth = at_least_one (size_of_int n) }, ok)
  ]

  unfoldable pub open_config : PduLatestQueue → StdString → PduLatestQueue × HakoPduErrorType
  open_config q config_path = elim (J.load config_path) [
    | not_found ↦ (q, file_not_found)
    | malformed ↦ (q, invalid_json)
    | parsed v ↦ set_depth q (depth_of (J.member v (codes "store")))
  ]

unfoldable pub close : PduLatestQueue → PduLatestQueue × HakoPduErrorType
close q = (record q { queues = []; is_running = false }, ok)

unfoldable pub start : PduLatestQueue → PduLatestQueue × HakoPduErrorType
start q = (record q { is_running = true }, ok)

unfoldable pub stop : PduLatestQueue → PduLatestQueue × HakoPduErrorType
stop q = (record q { is_running = false }, ok)

-- `operator[]` of the map makes an empty queue for a new key.
abbrev pub entry : Option (List Bytes) → List Bytes
entry none = []
entry (some ds) = ds

abbrev pub pop_front : List Bytes → List Bytes
pop_front [] = []
pop_front (d ∷ ds) = ds

-- `emplace_back`, and the oldest goes if there are too many.
unfoldable pub push : ℕ → List Bytes → Bytes → List Bytes
push depth ds d = let ds' = ds ++ (d ∷ []) in if ltb depth (length ds') then pop_front ds' else ds'

unfoldable pub write : PduLatestQueue → PduResolvedKey → Bytes → PduLatestQueue × HakoPduErrorType
write q pdu_key bytes = if not q.is_running then (q, not_running) else (
  record q {
    queues = assign pdu_key (push q.depth (entry (find pdu_key q.queues)) bytes) q.queues;
  },
  ok,
)

unfoldable pub read_front :
    PduLatestQueue → PduResolvedKey → List Bytes → Bytes → PduLatestQueue × ReadResult
read_front q pdu_key [] span = (q, record { errcode = no_entry; bytes = span; received_size = 0 })
read_front q pdu_key (src ∷ rest) span =
    if ltb (length span) (length src)
    then (q, record { errcode = no_space; bytes = span; received_size = length src })
    else (
      record q { queues = assign pdu_key rest q.queues },
      record { errcode = ok; bytes = copy src span; received_size = length src },
    )

-- A missing key and an empty queue are answered alike.
unfoldable pub read : PduLatestQueue → PduResolvedKey → Bytes → ℕ → PduLatestQueue × ReadResult
unfolding read_front
read q pdu_key span received_size =
    if not q.is_running
    then (q, record { errcode = not_running; bytes = span; received_size = received_size })
    else read_front q pdu_key (entry (find pdu_key q.queues)) span
