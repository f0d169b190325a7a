-- ===== src/Endpoint/Traffic.antt =====
-- include/hakoniwa/pdu/endpoint.hpp: what `recv` returns after a `send` without a comm, and after a
-- comm delivered a PDU.
use hakoniwa_pdu_endpoint.Prelude.{ℕ, ◌≤◌, ◌≡◌, refl, arith, true, Option, none, some, List, length}
use hakoniwa_pdu_endpoint.Prelude.Map.{find, find-assign, find-assign_self}
use hakoniwa_pdu_endpoint.Types.{HakoPduErrorType, ok, PduKey, PduResolvedKey, key_Eq, key_eq_iff}
use hakoniwa_pdu_endpoint.PduDefinition.{PduDefinition, PduDef, resolve}
use hakoniwa_pdu_endpoint.Cache.Span.{Bytes, ReadResult, copy}
use hakoniwa_pdu_endpoint.Cache.Buffer
use hakoniwa_pdu_endpoint.Cache.Buffer.{PduLatestBuffer, BufferEntry, read_entry}
use hakoniwa_pdu_endpoint.Cache.Queue
use hakoniwa_pdu_endpoint.Cache.Queue.{PduLatestQueue, entry, read_front, push}
use hakoniwa_pdu_endpoint.Cache.Dispatch.{PduCache, latest, queue, write_cache, read_cache}
use hakoniwa_pdu_endpoint.Endpoint.{
  Endpoint, Invocation, send, recv, send_named, recv_named, recv_callback,
}
use hakoniwa_pdu_endpoint.Endpoint.Comm.{PduComm}

-- What `read` answers for data that fits.
abbrev pub received : Bytes → Bytes → ReadResult
received d span = record { errcode = ok; bytes = copy d span; received_size = length d }

-- A latest-value cache answers with the last write.
pub read_cache-write_cache :
    (b : PduLatestBuffer) (k : PduResolvedKey) (d span : Bytes) (n : ℕ)
    → b.is_running ≡ true
    → length d ≤ length span
    → (read_cache (write_cache (latest b) k d).0 k span n).1 ≡ received d span
unfolding read_cache write_cache Buffer.read Buffer.write read_entry
read_cache-write_cache b k d span n r h =
    ground (arith, find-assign_self k (record { bytes = d; has_data = true }) b.buffers)

write_cache-ok :
    (b : PduLatestBuffer) (k : PduResolvedKey) (d : Bytes)
    → b.is_running ≡ true
    → (write_cache (latest b) k d).1 ≡ ok
unfolding write_cache Buffer.write
write_cache-ok b k d r = ground arith

-- A write under one key is not seen by the next read of another.
pub read_cache-other :
    (c : PduCache) (k j : PduResolvedKey) (d span : Bytes) (n : ℕ)
    → (k ≡ j → ⊥)
    → (read_cache (write_cache c k d).0 j span n).1 ≡ (read_cache c j span n).1
unfolding read_cache write_cache Buffer.read Buffer.write Queue.read Queue.write read_front
read_cache-other (latest b) k j d span n h =
    ground
      (arith, key_eq_iff k j, find-assign k j (record { bytes = d; has_data = true }) b.buffers)
read_cache-other (queue q) k j d span n h =
    ground
      (arith, key_eq_iff k j, find-assign k j (push q.depth (entry (find k q.queues)) d) q.queues)

module _ (C : PduComm) where
  abbrev Ep : Type 0
  Ep = Endpoint C.Comm

  abbrev pub reply : Option (Ep × ReadResult) → Option ReadResult
  reply none = none
  reply (some (ep, r)) = some r

  abbrev pub named_after :
      Option (Ep × HakoPduErrorType × List Invocation) → PduKey → Bytes → ℕ → Option ReadResult
  named_after none k span n = none
  named_after (some (ep, err, calls)) k span n = reply (recv_named C ep k span n)

  -- A `recv` on the endpoint that a `send` left behind.
  abbrev pub recv_after :
      Option (Ep × HakoPduErrorType × List Invocation)
      → PduResolvedKey
      → Bytes
      → ℕ
      → Option ReadResult
  recv_after none k span n = none
  recv_after (some (ep, err, calls)) k span n = reply (recv C ep k span n)

  recv-cache :
      (ep : Ep) (c : PduCache) (k : PduResolvedKey) (span : Bytes) (n : ℕ) (d : Bytes)
      → ep.cache ≡ some c
      → (read_cache c k span n).1 ≡ received d span
      → reply (recv C ep k span n) ≡ some (received d span)
  unfolding recv
  recv-cache ep c k span n d h r = ground arith

  -- Without a comm, what was sent to a running latest-value cache is what the next `recv` of the key
  -- returns, if the span has room for it.
  pub recv-send :
      (ep : Ep) (b : PduLatestBuffer) (k : PduResolvedKey) (d span : Bytes) (n : ℕ)
      → ep.comm ≡ none
      → ep.cache ≡ some (latest b)
      → b.is_running ≡ true
      → length d ≤ length span
      → recv_after (send C ep k d) k span n ≡ some (received d span)
  unfolding send
  recv-send ep b k d span n no_comm c r h = ground (
    arith,
    recv-cache (record ep { cache = some (write_cache (latest b) k d).0 })
        (write_cache (latest b) k d).0 k span n d refl (read_cache-write_cache b k d span n r h),
  )

  abbrev channel : PduKey → PduDef → PduResolvedKey
  channel k def = record { robot = k.robot; channel_id = def.channel_id }

  -- Without a comm, if the name resolves, what was sent by name to a running latest-value cache is what the
  -- next `recv` by that name returns, if the span has room for it.
  pub recv_named-send_named :
      (ep : Ep) (table : PduDefinition) (def : PduDef) (b : PduLatestBuffer) (k : PduKey)
      (d span : Bytes) (n : ℕ)
      → ep.pdu_def ≡ some table
      → resolve table k.robot k.pdu ≡ some def
      → ep.comm ≡ none
      → ep.cache ≡ some (latest b)
      → b.is_running ≡ true
      → length d ≤ length span
      → named_after (send_named C ep k d) k span n ≡ some (received d span)
  unfolding send_named recv_named send
  recv_named-send_named ep table def b k d span n loaded found no_comm c r h = ground (
    arith,
    recv-cache (record ep { cache = some (write_cache (latest b) (channel k def) d).0 })
        (write_cache (latest b) (channel k def) d).0 (channel k def) span n d refl
        (read_cache-write_cache b (channel k def) d span n r h),
  )

  -- With or without a comm: a PDU that the comm delivers to a running latest-value cache is what the
  -- next `recv` of its key returns, if the span has room for it.
  pub recv-recv_callback :
      (ep : Ep) (b : PduLatestBuffer) (k : PduResolvedKey) (d span : Bytes) (n : ℕ)
      → ep.cache ≡ some (latest b)
      → b.is_running ≡ true
      → length d ≤ length span
      → reply (recv C (recv_callback C ep k d).0 k span n) ≡ some (received d span)
  unfolding recv_callback
  recv-recv_callback ep b k d span n c r h = ground (
    arith,
    recv-cache (record ep { cache = some (write_cache (latest b) k d).0 })
        (write_cache (latest b) k d).0 k span n d refl (read_cache-write_cache b k d span n r h),
  )

  -- A PDU that is sent or delivered under one key changes no later answer of the cache for another:
  -- without a comm, `recv` replies as it would have replied before.
  pub recv-send_other :
      (ep : Ep) (c : PduCache) (k j : PduResolvedKey) (d span : Bytes) (n : ℕ)
      → ep.comm ≡ none
      → ep.cache ≡ some c
      → (k ≡ j → ⊥)
      → recv_after (send C ep k d) j span n ≡ reply (recv C ep j span n)
  unfolding send recv
  recv-send_other ep c k j d span n no_comm h differ =
      ground (arith, read_cache-other c k j d span n differ)
