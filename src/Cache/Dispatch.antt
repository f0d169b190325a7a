-- ===== src/Cache/Dispatch.antt =====
-- include/hakoniwa/pdu/cache/cache.hpp: a PduCache is one of its two classes, and a virtual call
-- goes to the class of the object. With create_pdu_cache of src/pdu_factory.cpp.
use hakoniwa_pdu_endpoint.Prelude.{
  ℕ, Bool, Option, none, some, if◌then◌else◌, codes, StdString, ◌==◌, str_Eq,
}
use hakoniwa_pdu_endpoint.Types.{HakoPduErrorType, PduResolvedKey}
use hakoniwa_pdu_endpoint.Json.{Json, not_found, malformed, parsed}
use hakoniwa_pdu_endpoint.Cache.Span.{Bytes, ReadResult}
use hakoniwa_pdu_endpoint.Cache.Buffer
use hakoniwa_pdu_endpoint.Cache.Buffer.{PduLatestBuffer}
use hakoniwa_pdu_endpoint.Cache.Queue
use hakoniwa_pdu_endpoint.Cache.Queue.{PduLatestQueue}

pub data PduCache : Type 0 where
  latest : PduLatestBuffer → PduCache
  queue : PduLatestQueue → PduCache

abbrev as_latest : PduLatestBuffer × HakoPduErrorType → PduCache × HakoPduErrorType
as_latest (b, e) = (latest b, e)

abbrev as_queue : PduLatestQueue × HakoPduErrorType → PduCache × HakoPduErrorType
as_queue (q, e) = (queue q, e)

abbrev pub cache_running : PduCache → Bool
cache_running (latest b) = b.is_running
cache_running (queue q) = q.is_running

unfoldable pub open_cache : Json → PduCache → StdString → PduCache × HakoPduErrorType
open_cache J (latest b) path = as_latest (Buffer.open_config J b path)
open_cache J (queue q) path = as_queue (Queue.open_config J q path)

unfoldable pub close_cache : PduCache → PduCache × HakoPduErrorType
close_cache (latest b) = as_latest (Buffer.close b)
close_cache (queue q) = as_queue (Queue.close q)

unfoldable pub start_cache : PduCache → PduCache × HakoPduErrorType
start_cache (latest b) = as_latest (Buffer.start b)
start_cache (queue q) = as_queue (Queue.start q)

unfoldable pub stop_cache : PduCache → PduCache × HakoPduErrorType
stop_cache (latest b) = as_latest (Buffer.stop b)
stop_cache (queue q) = as_queue (Queue.stop q)

unfoldable pub write_cache : PduCache → PduResolvedKey → Bytes → PduCache × HakoPduErrorType
write_cache (latest b) k d = as_latest (Buffer.write b k d)
write_cache (queue q) k d = as_queue (Queue.write q k d)

unfoldable pub read_cache : PduCache → PduResolvedKey → Bytes → ℕ → PduCache × ReadResult
read_cache (latest b) k span n = let (b', r) = Buffer.read b k span n in (latest b', r)
read_cache (queue q) k span n = let (q', r) = Queue.read q k span n in (queue q', r)

-- src/pdu_factory.cpp, create_pdu_cache: none is the null pointer.
module _ (J : Json) where
  abbrev member_text : Option J.Value → Option StdString
  member_text none = none
  member_text (some v) = J.get_string v

  abbrev store_mode : J.Value → Option J.Value
  store_mode v = elim (J.member v (codes "store")) [
    | none ↦ none
    | some store ↦ J.member store (codes "mode")
  ]

  unfoldable pub by_mode : Option StdString → Option PduCache
  by_mode none = none
  by_mode (some mode) =
      if mode == codes "latest"
      then some (latest Buffer.init)
      else if mode == codes "queue"
      then some (queue Queue.init)
      else none

  unfoldable pub create_pdu_cache : StdString → Option PduCache
  unfolding by_mode
  create_pdu_cache config_path = elim (J.load config_path) [
    | not_found ↦ none
    | malformed ↦ none
    | parsed v ↦ by_mode (member_text (store_mode v))
  ]
