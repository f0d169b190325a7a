-- ===== src/Container/FirstError.antt =====
-- src/endpoint_container.cpp: a pass over the map reaches every endpoint and reports the first error.
use hakoniwa_pdu_endpoint.Prelude.{
  ◌≡◌, refl, ap, arith, true, false, List, [], ◌∷◌, ◌++◌, if◌then◌else◌, StdString, codes,
}
use hakoniwa_pdu_endpoint.Prelude.Map.{Map}
use hakoniwa_pdu_endpoint.Types.{HakoPduErrorType, ok, is_ok, is_ok→eq}
use hakoniwa_pdu_endpoint.Container.{EndpointOps, EndpointContainer}
use hakoniwa_pdu_endpoint.Container.Walk.{
  First, no_error, note, note_both, visit, visit_stop, start_all, post_start_all, stop_all,
}

-- The first code of a list that is not OK.
abbrev pub first_of : List HakoPduErrorType → HakoPduErrorType
first_of [] = ok
first_of (e ∷ es) = if is_ok e then first_of es else e

module _ (O : EndpointOps) where
  abbrev Op : Type 0
  Op = O.Ep → O.Ep × HakoPduErrorType

  -- Every endpoint after a call, and the codes of the calls, in the order of the map.
  abbrev pub after : Op → Map StdString O.Ep → Map StdString O.Ep
  after op [] = []
  after op ((id, ep) ∷ m) = (id, (op ep).0) ∷ after op m

  abbrev pub codes_of : Op → Map StdString O.Ep → List HakoPduErrorType
  codes_of op [] = []
  codes_of op ((id, ep) ∷ m) = (op ep).1 ∷ codes_of op m

  note-err :
      (f : First) (label id : StdString) (err : HakoPduErrorType)
      → (note f label id err).err ≡ (if is_ok f.err then err else f.err)
  note-err f label id err = ground (arith, is_ok→eq err, is_ok→eq f.err)

  visit-err :
      (op : Op) (label : StdString) (f : First) (m : Map StdString O.Ep)
      → (visit O op label f m).1.err ≡ (if is_ok f.err then first_of (codes_of op m) else f.err)
  unfolding visit
  visit-err op label f [] = ground (arith, is_ok→eq f.err)
  visit-err op label f ((id, ep) ∷ m) = ground (
    arith,
    visit-err op label (note f label id (op ep).1) m,
    note-err f label id (op ep).1,
    is_ok→eq (op ep).1,
  )

  visit-after :
      (op : Op) (label : StdString) (f : First) (m : Map StdString O.Ep)
      → (visit O op label f m).0 ≡ after op m
  unfolding visit
  visit-after op label f [] = refl
  visit-after op label f ((id, ep) ∷ m) =
      ap (λ rest. (id, (op ep).0) ∷ rest) (visit-after op label (note f label id (op ep).1) m)

  -- On an initialized container `start_all` starts every endpoint, also those after one that fails,
  -- and answers the first error in the order of the walk, or OK if there is none.
  pub start_all-first_of :
      (c : EndpointContainer O.Ep)
      → c.initialized ≡ true
      → ((start_all O c).0.cache ≡ after O.start_ep (O.walk_order c.cache))
        × ((start_all O c).1 ≡ first_of (codes_of O.start_ep (O.walk_order c.cache)))
  unfolding start_all
  start_all-first_of c h = ground (
    arith,
    visit-after O.start_ep (codes "start_all failed at endpoint id=") no_error
        (O.walk_order c.cache),
    visit-err O.start_ep (codes "start_all failed at endpoint id=") no_error (O.walk_order c.cache),
  )

  -- On an initialized container `post_start_all` calls `post_start` of every endpoint, also of those after
  -- one that fails, and answers the first error in the order of the walk, or OK if there is none.
  pub post_start_all-first_of :
      (c : EndpointContainer O.Ep)
      → c.initialized ≡ true
      → ((post_start_all O c).0.cache ≡ after O.post_start_ep (O.walk_order c.cache))
        × ((post_start_all O c).1 ≡ first_of (codes_of O.post_start_ep (O.walk_order c.cache)))
  unfolding post_start_all
  post_start_all-first_of c h = ground (
    arith,
    visit-after O.post_start_ep (codes "post_start_all failed at endpoint id=") no_error
        (O.walk_order c.cache),
    visit-err O.post_start_ep (codes "post_start_all failed at endpoint id=") no_error
        (O.walk_order c.cache),
  )

  -- Stop, then close.
  abbrev pub stop_close : O.Ep → O.Ep
  stop_close ep = (O.close_ep (O.stop_ep ep).0).0

  abbrev pub stop_close_all : Map StdString O.Ep → Map StdString O.Ep
  stop_close_all [] = []
  stop_close_all ((id, ep) ∷ m) = (id, stop_close ep) ∷ stop_close_all m

  abbrev pub stop_codes : Map StdString O.Ep → List HakoPduErrorType
  stop_codes [] = []
  stop_codes ((id, ep) ∷ m) = (O.stop_ep ep).1 ∷ (O.close_ep (O.stop_ep ep).0).1 ∷ stop_codes m

  visit_stop-after : (f : First) (m : Map StdString O.Ep) → (visit_stop O f m).0 ≡ stop_close_all m
  unfolding visit_stop
  visit_stop-after f [] = refl
  visit_stop-after f ((id, ep) ∷ m) =
      ap (λ rest. (id, stop_close ep) ∷ rest)
        (visit_stop-after (note_both f id (O.stop_ep ep).1 (O.close_ep (O.stop_ep ep).0).1) m)

  note_both-err :
      (f : First) (id : StdString) (e e' : HakoPduErrorType)
      → (note_both f id e e').err ≡ (if is_ok f.err then (if is_ok e then e' else e) else f.err)
  note_both-err f id e e' = ground (arith, is_ok→eq e, is_ok→eq e', is_ok→eq f.err)

  visit_stop-err :
      (f : First) (m : Map StdString O.Ep)
      → (visit_stop O f m).1.err ≡ (if is_ok f.err then first_of (stop_codes m) else f.err)
  unfolding visit_stop
  visit_stop-err f [] = ground (arith, is_ok→eq f.err)
  visit_stop-err f ((id, ep) ∷ m) = ground (
    arith,
    visit_stop-err (note_both f id (O.stop_ep ep).1 (O.close_ep (O.stop_ep ep).0).1) m,
    note_both-err f id (O.stop_ep ep).1 (O.close_ep (O.stop_ep ep).0).1,
  )

  -- On an initialized container `stop_all` stops and closes every endpoint, whatever fails, lets all
  -- of them go, answers the first error, and may be initialized again.
  pub stop_all-first_of :
      (c : EndpointContainer O.Ep)
      → c.initialized ≡ true
      → ((stop_all O c).0.cache ≡ [])
        × ((stop_all O c).0.initialized ≡ false)
        × ((stop_all O c).0.released ≡ c.released ++ stop_close_all (O.walk_order c.cache))
        × ((stop_all O c).1 ≡ first_of (stop_codes (O.walk_order c.cache)))
  unfolding stop_all
  stop_all-first_of c h = ground (
    arith,
    visit_stop-after no_error (O.walk_order c.cache),
    visit_stop-err no_error (O.walk_order c.cache),
  )
