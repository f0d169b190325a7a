-- ===== src/Cache/Buffer/Latest.antt =====
-- An independent description of cache_buffer.hpp, which the object refines: for each key the bytes
-- that were written last, until the cache is closed.
use hakoniwa_pdu_endpoint.Prelude.{
  ◌≡◌, refl, arith, Bool, true, false, Option, none, some, List, [], ◌∷◌, if◌then◌else◌, length,
  ltb, ◌==◌,
}
use hakoniwa_pdu_endpoint.Prelude.Map.{find, find-assign}
use hakoniwa_pdu_endpoint.Types.{PduResolvedKey, key_Eq, ok, no_entry, no_space, not_running}
use hakoniwa_pdu_endpoint.Cache.Span.{Bytes, ReadResult, copy}
use hakoniwa_pdu_endpoint.Cache.Calls.{
  Call, writes, reads, starts, stops, closes, Reply, code, result,
}
use hakoniwa_pdu_endpoint.Cache.Buffer.{
  BufferEntry, PduLatestBuffer, write, read_entry, read, start, stop, close,
}

pub step : PduLatestBuffer → Call → PduLatestBuffer × Reply
step b (writes k d) = let (b', e) = write b k d in (b', code e)
step b (reads k span n) = let (b', r) = read b k span n in (b', result r)
step b starts = let (b', e) = start b in (b', code e)
step b stops = let (b', e) = stop b in (b', code e)
step b closes = let (b', e) = close b in (b', code e)

pub replies : PduLatestBuffer → List Call → List Reply
replies b [] = []
replies b (c ∷ cs) = let (b', r) = step b c in r ∷ replies b' cs

-- The description. A closed or stopped cache refuses to write and to read.
pub record Latest : Type 0 where
  pub running : Bool
  pub last : PduResolvedKey → Option Bytes

abbrev answer : Option Bytes → Bytes → ReadResult
answer none span = record { errcode = no_entry; bytes = span; received_size = 0 }
answer (some d) span =
    if ltb (length span) (length d)
    then record { errcode = no_space; bytes = span; received_size = length d }
    else record { errcode = ok; bytes = copy d span; received_size = length d }

pub latest_step : Latest → Call → Latest × Reply
latest_step s (writes k d) =
    if s.running
    then (record s { last = λ j. if k == j then some d else s.last j }, code ok)
    else (s, code not_running)
latest_step s (reads k span n) =
    if s.running
    then (s, result (answer (s.last k) span))
    else (s, result (record { errcode = not_running; bytes = span; received_size = n }))
latest_step s starts = (record s { running = true }, code ok)
latest_step s stops = (record s { running = false }, code ok)
latest_step s closes = (record s { running = false; last = λ j. none }, code ok)

pub latest_replies : Latest → List Call → List Reply
latest_replies s [] = []
latest_replies s (c ∷ cs) = let (s', r) = latest_step s c in r ∷ latest_replies s' cs

-- The bytes of an entry, if it has any.
abbrev pub stored : Option BufferEntry → Option Bytes
stored none = none
stored (some entry) = if entry.has_data then some entry.bytes else none

pub record Refines (b : PduLatestBuffer) (s : Latest) : Type 0 where
  pub same_running : b.is_running ≡ s.running
  pub same_last : (k : PduResolvedKey) → stored (find k b.buffers) ≡ s.last k

read_entry-answer :
    (e : Option BufferEntry) (span : Bytes) → read_entry e span ≡ answer (stored e) span
unfolding read_entry
read_entry-answer none span = refl
read_entry-answer (some e) span = ground arith

-- One call on the object is one call on the description, with the same reply.
pub step-Refines :
    (b : PduLatestBuffer) (s : Latest) (c : Call)
    → Refines b s
    → Refines (step b c).0 (latest_step s c).0 × ((step b c).1 ≡ (latest_step s c).1)
unfolding step latest_step write read start stop close find
step-Refines b s (writes k d) r = (
  record {
    same_running = ground (arith, r.same_running);
    same_last = λ j. ground (
      arith,
      r.same_running,
      r.same_last j,
      find-assign k j (let e : BufferEntry = record { bytes = d; has_data = true } in e) b.buffers,
    );
  },
  ground (arith, r.same_running),
)
step-Refines b s (reads k span n) r = (
  record {
    same_running = ground (arith, r.same_running);
    same_last = λ j. ground (arith, r.same_running, r.same_last j);
  },
  ground (arith, r.same_running, r.same_last k, read_entry-answer (find k b.buffers) span),
)
step-Refines b s starts r = (record { same_running = refl; same_last = λ k. r.same_last k }, refl)
step-Refines b s stops r = (record { same_running = refl; same_last = λ k. r.same_last k }, refl)
step-Refines b s closes r = (record { same_running = refl; same_last = λ k. refl }, refl)

-- Over any history of calls an object that refines a description answers as the description does.
pub replies-latest_replies :
    (b : PduLatestBuffer) (s : Latest) (cs : List Call)
    → Refines b s
    → replies b cs ≡ latest_replies s cs
unfolding replies latest_replies
replies-latest_replies b s [] r = refl
replies-latest_replies b s (c ∷ cs) r =
    let (r', e) = step-Refines b s c r in
    cc (e, replies-latest_replies (step b c).0 (latest_step s c).0 cs r')
