-- ===== src/Container/Walk.antt =====
-- src/endpoint_container.cpp: start_all, post_start_all, stop_all and is_running_all, which walk the
-- map. The map holds no null pointer, as create_ is what puts endpoints there.
use hakoniwa_pdu_endpoint.Prelude.{
  Bool, true, false, not, [], ◌∷◌, ◌++◌, if◌then◌else◌, StdString, codes,
}
use hakoniwa_pdu_endpoint.Prelude.Map.{Map}
use hakoniwa_pdu_endpoint.Types.{HakoPduErrorType, ok, invalid_config, is_ok}
use hakoniwa_pdu_endpoint.Container.{
  EndpointOps, EndpointContainer, fail, failed_at, not_initialized,
}

-- `first_err` with the text in `last_error_`.
pub record First : Type 0 where
  pub err : HakoPduErrorType
  pub text : StdString

abbrev pub no_error : First
no_error = record { err = ok; text = [] }

-- Only the first error is kept.
abbrev pub note : First → StdString → StdString → HakoPduErrorType → First
note f label id err =
    if is_ok err
    then f
    else if is_ok f.err
    then record { err = err; text = failed_at label id err }
    else f

-- The two texts of stop_all.
abbrev pub note_both : First → StdString → HakoPduErrorType → HakoPduErrorType → First
note_both f id stop_err close_err =
    note (note f (codes "stop_all: stop failed at endpoint id=") id stop_err)
      (codes "stop_all: close failed at endpoint id=") id close_err

module _ (O : EndpointOps) where
  abbrev Con : Type 0
  Con = EndpointContainer O.Ep

  -- One pass over the map with one call for each endpoint.
  unfoldable pub visit :
      (O.Ep → O.Ep × HakoPduErrorType)
      → StdString
      → First
      → Map StdString O.Ep
      → Map StdString O.Ep × First
  visit op label f [] = ([], f)
  visit op label f ((id, ep) ∷ rest) =
      let (ep', err) = op ep in
      let (rest', f') = visit op label (note f label id err) rest in ((id, ep') ∷ rest', f')

  abbrev walked : Con → Map StdString O.Ep × First → Con × HakoPduErrorType
  walked c (cache, f) = (record c { cache = cache; last_error = f.text }, f.err)

  unfoldable pub start_all : Con → Con × HakoPduErrorType
  unfolding visit
  start_all c =
      if not c.initialized
      then (fail c not_initialized, invalid_config)
      else walked c (
          visit O.start_ep (codes "start_all failed at endpoint id=") no_error
            (O.walk_order c.cache))

  unfoldable pub post_start_all : Con → Con × HakoPduErrorType
  unfolding visit
  post_start_all c =
      if not c.initialized
      then (fail c not_initialized, invalid_config)
      else walked c (
          visit O.post_start_ep (codes "post_start_all failed at endpoint id=") no_error
            (O.walk_order c.cache))

  -- For each endpoint stop, then close, whatever stop answered.
  unfoldable pub visit_stop : First → Map StdString O.Ep → Map StdString O.Ep × First
  visit_stop f [] = ([], f)
  visit_stop f ((id, ep) ∷ rest) =
      let (stopped, stop_err) = O.stop_ep ep in
      let (closed, close_err) = O.close_ep stopped in
      let (rest', f') = visit_stop (note_both f id stop_err close_err) rest in
      ((id, closed) ∷ rest', f')

  abbrev cleared : Con → Map StdString O.Ep × First → Con × HakoPduErrorType
  cleared c (gone, f) = (
    record c {
      cache = [];
      initialized = false;
      last_error = f.text;
      released = c.released ++ gone;
    },
    f.err,
  )

  unfoldable pub stop_all : Con → Con × HakoPduErrorType
  unfolding visit_stop
  stop_all c =
      if not c.initialized
      then (fail c not_initialized, invalid_config)
      else cleared c (visit_stop no_error (O.walk_order c.cache))

  unfoldable pub all_running : Map StdString O.Ep → Bool
  all_running [] = true
  all_running ((id, ep) ∷ rest) =
      let (err, running) = O.ep_running ep in
      let more = all_running rest in
      if not (is_ok err) then false else if not running then false else more

  unfoldable pub is_running_all : Con → Bool
  unfolding all_running
  is_running_all c = if not c.initialized then false else all_running (O.walk_order c.cache)
