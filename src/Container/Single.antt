-- ===== src/Container/Single.antt =====
-- src/endpoint_container.cpp: start, post_start, stop and ref, which concern one endpoint.
use hakoniwa_pdu_endpoint.Prelude.{
  not, Option, none, some, [], ◌∷◌, ◌++◌, if◌then◌else◌, StdString, str_Eq, codes,
}
use hakoniwa_pdu_endpoint.Prelude.Map.{find, assign, erase}
use hakoniwa_pdu_endpoint.Types.{HakoPduErrorType, ok, invalid_config, is_ok}
use hakoniwa_pdu_endpoint.Container.{
  EndpointOps, EndpointContainer, fail, failed_at, not_initialized,
}
use hakoniwa_pdu_endpoint.Container.Walk.{no_error, note}

module _ (O : EndpointOps) where
  abbrev Con : Type 0
  Con = EndpointContainer O.Ep

  abbrev put : Con → StdString → StdString → O.Ep × HakoPduErrorType → Con × HakoPduErrorType
  put c id label (ep, err) = (
    record c {
      cache = assign id ep c.cache;
      last_error = if is_ok err then [] else failed_at label id err;
    },
    err,
  )

  unfoldable pub start : Con → StdString → Con × HakoPduErrorType
  start c endpoint_id =
      if not c.initialized
      then (fail c not_initialized, invalid_config)
      else elim (find endpoint_id c.cache) [
        | none ↦ (
          fail c (codes "start: endpoint not found in container. id=" ++ endpoint_id),
          invalid_config,
        )
        | some ep ↦ put c endpoint_id (codes "start failed. id=") (O.start_ep ep)
      ]

  unfoldable pub post_start : Con → StdString → Con × HakoPduErrorType
  post_start c endpoint_id =
      if not c.initialized
      then (fail c not_initialized, invalid_config)
      else elim (find endpoint_id c.cache) [
        | none ↦ (
          fail c (codes "post_start: endpoint not found in container. id=" ++ endpoint_id),
          invalid_config,
        )
        | some ep ↦ put c endpoint_id (codes "post_start failed. id=") (O.post_start_ep ep)
      ]

  -- An id that is not there is answered with OK.
  unfoldable pub stop : Con → StdString → Con × HakoPduErrorType
  stop c endpoint_id =
      if not c.initialized
      then (fail c not_initialized, invalid_config)
      else elim (find endpoint_id c.cache) [
        | none ↦ (fail c [], ok)
        | some ep ↦
            let (stopped, stop_err) = O.stop_ep ep in
            let (closed, close_err) = O.close_ep stopped in
            let f_stop = note no_error (codes "stop failed. id=") endpoint_id stop_err in
            let f = note f_stop (codes "stop: close failed. id=") endpoint_id close_err in
            (
              record c {
                cache = erase endpoint_id c.cache;
                last_error = f.text;
                released = c.released ++ ((endpoint_id, closed) ∷ []);
              },
              f.err,
            )
      ]

  -- none is the null pointer.
  unfoldable pub ref : Con → StdString → Con × Option O.Ep
  ref c id = if not c.initialized then (fail c not_initialized, none) else elim (find id c.cache) [
    | none ↦ (fail c (codes "ref: endpoint not found in container. id=" ++ id), none)
    | some ep ↦ (fail c [], some ep)
  ]
