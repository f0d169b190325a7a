-- ===== src/Examples/Caches.antt =====
-- Caches at concrete inputs.
use hakoniwa_pdu_endpoint.Prelude.{◌≡◌, refl, arith, true, none, List, [], ◌∷◌}
use hakoniwa_pdu_endpoint.Prelude.Map.{find}
use hakoniwa_pdu_endpoint.Cache.Calls.{Call, writes, reads, stops}
use hakoniwa_pdu_endpoint.Cache.Buffer.Latest
use hakoniwa_pdu_endpoint.Cache.Buffer.Latest.{replies-latest_replies, latest_replies}
use hakoniwa_pdu_endpoint.Cache.Queue.{PduLatestQueue}
use hakoniwa_pdu_endpoint.Cache.Queue.Fifo
use hakoniwa_pdu_endpoint.Cache.Queue.Fifo.{replies-fifo_replies, fifo_replies}
use hakoniwa_pdu_endpoint.Cache.Queue.Laws.{IsBounded}
use hakoniwa_pdu_endpoint.Examples.Documents.{key, other_key, buffer}

abbrev two_deep : PduLatestQueue
two_deep = record { queues = []; depth = 2; is_running = true }

abbrev some_calls : List Call
some_calls =
    writes key (1 ∷ [])
    ∷ writes key (2 ∷ [])
    ∷ writes key (3 ∷ [])
    ∷ reads key (0 ∷ []) 0
    ∷ reads other_key (0 ∷ []) 0
    ∷ stops
    ∷ []

two_deep-IsBounded : IsBounded two_deep
unfolding find
two_deep-IsBounded = record { room = omega arith; bounded = λ k. omega arith }

abbrev two_deep_fifo : Fifo.Fifo
two_deep_fifo = record { depth = 2; running = true; queue = λ k. [] }

two_deep-Refines : Fifo.Refines two_deep two_deep_fifo
unfolding find
two_deep-Refines = record {
  valid = two_deep-IsBounded;
  same_depth = refl;
  same_running = refl;
  same_queue = λ k. refl;
}

replies-fifo_replies_example :
    Fifo.replies two_deep some_calls ≡ fifo_replies two_deep_fifo some_calls
replies-fifo_replies_example =
    replies-fifo_replies two_deep two_deep_fifo some_calls two_deep-Refines

abbrev empty_latest : Latest.Latest
empty_latest = record { running = true; last = λ k. none }

buffer-Refines : Latest.Refines buffer empty_latest
unfolding find
buffer-Refines = record { same_running = refl; same_last = λ k. refl }

replies-latest_replies_example :
    Latest.replies buffer some_calls ≡ latest_replies empty_latest some_calls
replies-latest_replies_example =
    replies-latest_replies buffer empty_latest some_calls buffer-Refines
