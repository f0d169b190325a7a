-- ===== src/Cache/Queue/Fifo.antt =====
-- An independent description of cache_queue.hpp, which the object refines: for each key a FIFO that
-- keeps the last `depth` PDUs written to it.
use hakoniwa_pdu_endpoint.Prelude.{
  ℕ, ◌≡◌, refl, arith, Bool, true, false, List, [], ◌∷◌, ◌++◌, if◌then◌else◌, length, ltb, ◌==◌,
}
use hakoniwa_pdu_endpoint.Types.{
  HakoPduErrorType, PduResolvedKey, key_Eq, ok, no_entry, no_space, not_running,
}
use hakoniwa_pdu_endpoint.Cache.Span.{Bytes, copy}
use hakoniwa_pdu_endpoint.Cache.Calls.{
  Call, writes, reads, starts, stops, closes, Reply, code, result,
}
use hakoniwa_pdu_endpoint.Prelude.Map.{find, find-assign}
use hakoniwa_pdu_endpoint.Cache.Queue.{
  PduLatestQueue, push, write, read, read_front, start, stop, close,
}
use hakoniwa_pdu_endpoint.Cache.Queue.Laws.{
  contents, keep_last, push-keep_last, IsBounded, write-IsBounded, read-IsBounded,
}

pub step : PduLatestQueue → Call → PduLatestQueue × Reply
step q (writes k d) = let (q', e) = write q k d in (q', code e)
step q (reads k span n) = let (q', r) = read q k span n in (q', result r)
step q starts = let (q', e) = start q in (q', code e)
step q stops = let (q', e) = stop q in (q', code e)
step q closes = let (q', e) = close q in (q', code e)

pub replies : PduLatestQueue → List Call → List Reply
replies q [] = []
replies q (c ∷ cs) = let (q', r) = step q c in r ∷ replies q' cs

-- The description. A closed or stopped cache refuses to write and to read.
pub record Fifo : Type 0 where
  pub depth : ℕ
  pub running : Bool
  pub queue : PduResolvedKey → List Bytes

abbrev enqueue : Fifo → PduResolvedKey → Bytes → Fifo
enqueue s k d = record s {
  queue = λ j. if k == j then keep_last s.depth (s.queue k ++ (d ∷ [])) else s.queue j;
}

abbrev refuse : HakoPduErrorType → Bytes → ℕ → Reply
refuse e span n = result (record { errcode = e; bytes = span; received_size = n })

-- The oldest entry is handed out and removed if it fits, and its size is told in any case.
abbrev dequeue : Fifo → PduResolvedKey → List Bytes → Bytes → Fifo × Reply
dequeue s k [] span = (s, refuse no_entry span 0)
dequeue s k (d ∷ ds) span =
    if ltb (length span) (length d) then (s, refuse no_space span (length d)) else (
      record s { queue = λ j. if k == j then ds else s.queue j },
      result (record { errcode = ok; bytes = copy d span; received_size = length d }),
    )

pub fifo_step : Fifo → Call → Fifo × Reply
fifo_step s (writes k d) = if s.running then (enqueue s k d, code ok) else (s, code not_running)
fifo_step s (reads k span n) =
    if s.running then dequeue s k (s.queue k) span else (s, refuse not_running span n)
fifo_step s starts = (record s { running = true }, code ok)
fifo_step s stops = (record s { running = false }, code ok)
fifo_step s closes = (record s { running = false; queue = λ j. [] }, code ok)

pub fifo_replies : Fifo → List Call → List Reply
fifo_replies s [] = []
fifo_replies s (c ∷ cs) = let (s', r) = fifo_step s c in r ∷ fifo_replies s' cs

-- The object stands for the description: same depth, same state, and the same queue under every key.
pub record Refines (q : PduLatestQueue) (s : Fifo) : Type 0 where
  pub valid : IsBounded q
  pub same_depth : q.depth ≡ s.depth
  pub same_running : q.is_running ≡ s.running
  pub same_queue : (k : PduResolvedKey) → contents q k ≡ s.queue k

write-Refines :
    (q : PduLatestQueue) (s : Fifo) (k : PduResolvedKey) (d : Bytes)
    → Refines q s
    → Refines (step q (writes k d)).0 (fifo_step s (writes k d)).0
unfolding step fifo_step write
write-Refines q s k d r = record {
  valid = write-IsBounded q k d r.valid;
  same_depth = ground (arith, r.same_depth, r.same_running);
  same_running = ground (arith, r.same_running);
  same_queue = λ j. ground (
    arith,
    r.same_depth,
    r.same_running,
    r.same_queue j,
    r.same_queue k,
    find-assign k j (push q.depth (contents q k) d) q.queues,
    push-keep_last q.depth (contents q k) d (r.valid.bounded k),
  );
}

write-reply :
    (q : PduLatestQueue) (s : Fifo) (k : PduResolvedKey) (d : Bytes)
    → Refines q s
    → (step q (writes k d)).1 ≡ (fifo_step s (writes k d)).1
unfolding step fifo_step write
write-reply q s k d r = ground (arith, r.same_running)

read_front-dequeue :
    (q : PduLatestQueue) (s : Fifo) (k j : PduResolvedKey) (ds : List Bytes) (span : Bytes)
    → Refines q s
    → contents q k ≡ ds
    → (contents (read_front q k ds span).0 j ≡ (dequeue s k ds span).0.queue j)
      × ((read_front q k ds span).0.depth ≡ (dequeue s k ds span).0.depth)
      × ((read_front q k ds span).0.is_running ≡ (dequeue s k ds span).0.running)
      × (result (read_front q k ds span).1 ≡ (dequeue s k ds span).1)
unfolding read_front
read_front-dequeue q s k j [] span r e = (r.same_queue j, r.same_depth, r.same_running, refl)
read_front-dequeue q s k j (d ∷ ds) span r e = (
  ground (arith, r.same_queue j, find-assign k j ds q.queues),
  ground (arith, r.same_depth),
  ground (arith, r.same_running),
  ground arith,
)

read-dequeue :
    (q : PduLatestQueue) (s : Fifo) (k j : PduResolvedKey) (span : Bytes) (n : ℕ)
    → Refines q s
    → (contents (read q k span n).0 j ≡ (fifo_step s (reads k span n)).0.queue j)
      × ((read q k span n).0.depth ≡ (fifo_step s (reads k span n)).0.depth)
      × ((read q k span n).0.is_running ≡ (fifo_step s (reads k span n)).0.running)
      × (result (read q k span n).1 ≡ (fifo_step s (reads k span n)).1)
unfolding read fifo_step
read-dequeue q s k j span n r = ground (
  arith,
  r.same_running,
  r.same_depth,
  r.same_queue j,
  r.same_queue k,
  read_front-dequeue q s k j (s.queue k) span r,
)

-- One call on the object is one call on the description, with the same reply.
pub step-Refines :
    (q : PduLatestQueue) (s : Fifo) (c : Call)
    → Refines q s
    → Refines (step q c).0 (fifo_step s c).0 × ((step q c).1 ≡ (fifo_step s c).1)
unfolding step fifo_step start stop close find
step-Refines q s (writes k d) r = (write-Refines q s k d r, write-reply q s k d r)
step-Refines q s (reads k span n) r = (
  record {
    valid = read-IsBounded q k span n r.valid;
    same_depth = (read-dequeue q s k k span n r).1;
    same_running = (read-dequeue q s k k span n r).2;
    same_queue = λ j. (read-dequeue q s k j span n r).0;
  },
  (read-dequeue q s k k span n r).3,
)
step-Refines q s starts r = (
  record {
    valid = record { room = r.valid.room; bounded = λ k. r.valid.bounded k };
    same_depth = r.same_depth;
    same_running = refl;
    same_queue = λ k. r.same_queue k;
  },
  refl,
)
step-Refines q s stops r = (
  record {
    valid = record { room = r.valid.room; bounded = λ k. r.valid.bounded k };
    same_depth = r.same_depth;
    same_running = refl;
    same_queue = λ k. r.same_queue k;
  },
  refl,
)
step-Refines q s closes r = (
  record {
    valid = record { room = r.valid.room; bounded = λ k. omega arith };
    same_depth = r.same_depth;
    same_running = refl;
    same_queue = λ k. refl;
  },
  refl,
)

-- Over any history of calls an object that refines a description answers as the description does.
pub replies-fifo_replies :
    (q : PduLatestQueue) (s : Fifo) (cs : List Call)
    → Refines q s
    → replies q cs ≡ fifo_replies s cs
unfolding replies fifo_replies
replies-fifo_replies q s [] r = refl
replies-fifo_replies q s (c ∷ cs) r =
    let (r', e) = step-Refines q s c r in
    cc (e, replies-fifo_replies (step q c).0 (fifo_step s c).0 cs r')
