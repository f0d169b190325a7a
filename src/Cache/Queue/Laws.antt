-- ===== src/Cache/Queue/Laws.antt =====
-- The queue of each key under the methods of cache_queue.hpp.
use hakoniwa_pdu_endpoint.Prelude.{
  ℕ, ◌-◌, ◌≤◌, ◌≡◌, refl, arith, true, List, [], ◌∷◌, ◌++◌, if◌then◌else◌, length, drop,
  length-append, ◌==◌, ◌&&◌,
}
use hakoniwa_pdu_endpoint.Prelude.Map.{find, find-assign}
use hakoniwa_pdu_endpoint.Types.{PduResolvedKey, key_Eq, is_ok, key_eq_iff}
use hakoniwa_pdu_endpoint.Cache.Span.{Bytes}
use hakoniwa_pdu_endpoint.Cache.Queue.{
  PduLatestQueue, entry, pop_front, push, write, read_front, read,
}

-- What is queued under a key, oldest first.
abbrev pub contents : PduLatestQueue → PduResolvedKey → List Bytes
contents q k = entry (find k q.queues)

-- The last `n` elements.
unfoldable pub keep_last {ℓ} : {A : Type ℓ} → ℕ → List A → List A
keep_last n xs = drop (length xs - n) xs

pub push-keep_last :
    (n : ℕ) (ds : List Bytes) (d : Bytes)
    → length ds ≤ n
    → push n ds d ≡ keep_last n (ds ++ (d ∷ []))
unfolding push keep_last
push-keep_last n ds d h = ground (arith, length-append ds (d ∷ []))

-- The invariant: at least one entry fits, and no queue is longer than the depth.
pub record IsBounded (q : PduLatestQueue) : Type 0 where
  pub room : 1 ≤ q.depth
  pub bounded : (k : PduResolvedKey) → length (contents q k) ≤ q.depth

pub length-push :
    (n : ℕ) (ds : List Bytes) (d : Bytes) → 1 ≤ n → length ds ≤ n → length (push n ds d) ≤ n
unfolding push
length-push n ds d h b = ground (arith, length-append ds (d ∷ []))

pub contents-write :
    (q : PduLatestQueue) (k j : PduResolvedKey) (d : Bytes)
    → q.is_running ≡ true
    → contents (write q k d).0 j ≡ (if k == j then push q.depth (contents q k) d else contents q j)
unfolding write
contents-write q k j d r = ground (arith, find-assign k j (push q.depth (contents q k) d) q.queues)

-- A `read` takes the oldest entry of its key, and only when it answers `ok`.
read_front-contents :
    (q : PduLatestQueue) (k j : PduResolvedKey) (ds : List Bytes) (span : Bytes)
    → contents q k ≡ ds
    → contents (read_front q k ds span).0 j ≡ (
        if (k == j) && is_ok (read_front q k ds span).1.errcode
        then pop_front (contents q j)
        else contents q j)
unfolding read_front
read_front-contents q k j [] span e = ground arith
read_front-contents q k j (d ∷ ds) span e =
    ground (arith, find-assign k j ds q.queues, key_eq_iff k j)

pub contents-read :
    (q : PduLatestQueue) (k j : PduResolvedKey) (span : Bytes) (n : ℕ)
    → contents (read q k span n).0 j ≡ (
        if (k == j) && is_ok (read q k span n).1.errcode
        then pop_front (contents q j)
        else contents q j)
unfolding read
contents-read q k j span n = ground (arith, read_front-contents q k j (contents q k) span refl)

-- A write keeps the cache bounded.
pub write-IsBounded :
    (q : PduLatestQueue) (k : PduResolvedKey) (d : Bytes) → IsBounded q → IsBounded (write q k d).0
unfolding write
write-IsBounded q k d v = record {
  room = ground (arith, v.room);
  bounded = λ j. ground (
    arith,
    find-assign k j (push q.depth (contents q k) d) q.queues,
    length-push q.depth (contents q k) d,
    v.bounded j,
    v.bounded k,
    v.room,
  );
}

length-pop_front : (ds : List Bytes) → length (pop_front ds) ≤ length ds
length-pop_front [] = omega arith
length-pop_front (d ∷ ds) = omega arith

pub depth-read :
    (q : PduLatestQueue) (k : PduResolvedKey) (span : Bytes) (n : ℕ)
    → (read q k span n).0.depth ≡ q.depth
unfolding read read_front
depth-read q k span n = ground arith

-- A read keeps the cache bounded.
pub read-IsBounded :
    (q : PduLatestQueue) (k : PduResolvedKey) (span : Bytes) (n : ℕ)
    → IsBounded q
    → IsBounded (read q k span n).0
read-IsBounded q k span n v = record {
  room = omega (arith, depth-read q k span n, v.room);
  bounded = λ j. ground (
    arith,
    contents-read q k j span n,
    depth-read q k span n,
    length-pop_front (contents q j),
    v.bounded j,
  );
}
