-- ===== src/Cache/Buffer.antt =====
-- include/hakoniwa/pdu/cache/cache_buffer.hpp: the cache that keeps the latest PDU of each key.
-- The mutex makes each method one step; a method is a function from the object to the object.
pub mod Latest
use hakoniwa_pdu_endpoint.Prelude.{
  ℕ, Bool, true, false, not, ◌&&◌, ◌||◌, Option, none, some, [], if◌then◌else◌, ltb, length, codes,
  StdString,
}
use hakoniwa_pdu_endpoint.Prelude.Map.{Map, find, assign}
use hakoniwa_pdu_endpoint.Types.{
  HakoPduErrorType, ok, no_space, no_entry, file_not_found, invalid_json, invalid_config,
  not_running, PduResolvedKey, key_Eq,
}
use hakoniwa_pdu_endpoint.Json.{Json, Loaded, not_found, malformed, parsed, contains, is_text}
use hakoniwa_pdu_endpoint.Cache.Span.{Bytes, ReadResult, copy}

pub record BufferEntry : Type 0 where
  pub bytes : Bytes
  pub has_data : Bool

pub record PduLatestBuffer : Type 0 where
  pub buffers : Map PduResolvedKey BufferEntry
  pub is_running : Bool

unfoldable pub init : PduLatestBuffer
init = record { buffers = []; is_running = false }

module _ (J : Json) where
  -- The two conditions on the document, `json["store"]["mode"]` read only where it is there.
  abbrev mode_of : Option J.Value → Option J.Value
  mode_of none = none
  mode_of (some store) = J.member store (codes "mode")

  unfoldable pub check_config : J.Value → HakoPduErrorType
  check_config v =
      if not (contains J v "type") || not (is_text J (J.member v (codes "type")) (codes "buffer"))
      then invalid_config
      else if not (is_text J (mode_of (J.member v (codes "store"))) (codes "latest"))
      then invalid_config
      else ok

  unfoldable pub open_config : PduLatestBuffer → StdString → PduLatestBuffer × HakoPduErrorType
  unfolding check_config
  open_config b config_path = elim (J.load config_path) [
    | not_found ↦ (b, file_not_found)
    | malformed ↦ (b, invalid_json)
    | parsed v ↦ (b, check_config v)
  ]

unfoldable pub close : PduLatestBuffer → PduLatestBuffer × HakoPduErrorType
close b = (record b { buffers = []; is_running = false }, ok)

unfoldable pub start : PduLatestBuffer → PduLatestBuffer × HakoPduErrorType
start b = (record b { is_running = true }, ok)

unfoldable pub stop : PduLatestBuffer → PduLatestBuffer × HakoPduErrorType
stop b = (record b { is_running = false }, ok)

unfoldable pub write : PduLatestBuffer → PduResolvedKey → Bytes → PduLatestBuffer × HakoPduErrorType
write b pdu_key bytes = if not b.is_running then (b, not_running) else (
  record b { buffers = assign pdu_key (record { bytes = bytes; has_data = true }) b.buffers },
  ok,
)

unfoldable pub read_entry : Option BufferEntry → Bytes → ReadResult
read_entry none span = record { errcode = no_entry; bytes = span; received_size = 0 }
read_entry (some entry) span =
    if not entry.has_data
    then record { errcode = no_entry; bytes = span; received_size = 0 }
    else if ltb (length span) (length entry.bytes)
    then record { errcode = no_space; bytes = span; received_size = length entry.bytes }
    else record { errcode = ok; bytes = copy entry.bytes span; received_size = length entry.bytes }

-- The data is not consumed, so the object stays as it is.
unfoldable pub read : PduLatestBuffer → PduResolvedKey → Bytes → ℕ → PduLatestBuffer × ReadResult
unfolding read_entry
read b pdu_key span received_size =
    if not b.is_running
    then (b, record { errcode = not_running; bytes = span; received_size = received_size })
    else (b, read_entry (find pdu_key b.buffers) span)
