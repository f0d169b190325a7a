-- ===== src/Endpoint/Opened.antt =====
-- include/hakoniwa/pdu/endpoint.hpp: what an endpoint has after open returned, and what it keeps
-- after an error.
use hakoniwa_pdu_endpoint.Prelude.{ℕ, ◌≡◌, arith, true, false, StdString, is_some}
use hakoniwa_pdu_endpoint.Types.{HakoPduErrorType, ok, is_ok→eq, PduResolvedKey}
use hakoniwa_pdu_endpoint.Json.{Json, Loaded, not_found, malformed, parsed}
use hakoniwa_pdu_endpoint.Cache.Span.{Bytes}
use hakoniwa_pdu_endpoint.Endpoint.{Endpoint, send, recv}
use hakoniwa_pdu_endpoint.Endpoint.Comm.{PduComm}
use hakoniwa_pdu_endpoint.Endpoint.Opening.{
  open_endpoint, open_loaded, and_then, set_callback, load_pdu_definition_if_needed,
  open_cache_part, open_comm_part,
}

module _ (J : Json) (C : PduComm) where
  abbrev Ep : Type 0
  Ep = Endpoint C.Comm

  comm_part-cache :
      (config : J.Value) (base : StdString) (ep : Ep)
      → (open_comm_part J C config base ep).0.cache ≡ ep.cache
  unfolding open_comm_part
  comm_part-cache config base ep = ground arith

  cache_part-cache :
      (config : J.Value) (base : StdString) (ep : Ep)
      → (open_cache_part J C config base ep).1 ≡ ok
      → is_some (open_cache_part J C config base ep).0.cache ≡ true
  unfolding open_cache_part
  cache_part-cache config base ep h = ground arith

  -- The three steps of `open` after the document is read.
  steps-cache :
      (config : J.Value) (base : StdString) (r : Ep × HakoPduErrorType)
      → let with_cache = and_then r (open_cache_part J C config base) in
        let with_comm = and_then with_cache (open_comm_part J C config base) in
        (and_then with_comm (set_callback J C)).1 ≡ ok
        → is_some (and_then with_comm (set_callback J C)).0.cache ≡ true
  steps-cache config base (ep, err) =
      let ep' = open_cache_part J C config base ep in
      λ h. ground (
        arith,
        is_ok→eq err,
        is_ok→eq ep'.1,
        cache_part-cache config base ep,
        comm_part-cache config base ep'.0,
      )

  loaded-cache :
      (ep : Ep) (base : StdString) (l : Loaded J.Value)
      → (open_loaded J C ep base l).1 ≡ ok
      → is_some (open_loaded J C ep base l).0.cache ≡ true
  unfolding open_loaded
  loaded-cache ep base not_found h = ground arith
  loaded-cache ep base malformed h = ground arith
  loaded-cache ep base (parsed config) h =
      steps-cache config base (load_pdu_definition_if_needed J C config base false ep) h

  pub open_endpoint-cache :
      (ep : Ep) (path : StdString)
      → (open_endpoint J C ep path).1 ≡ ok
      → is_some (open_endpoint J C ep path).0.cache ≡ true
  unfolding open_endpoint
  open_endpoint-cache ep path h = loaded-cache ep (J.parent_path path) (J.load path) h

  recv-cached :
      (ep : Ep) (k : PduResolvedKey) (span : Bytes) (n : ℕ)
      → is_some ep.cache ≡ true
      → is_some (recv C ep k span n) ≡ true
  unfolding recv
  recv-cached ep k span n h = ground arith

  send-cached :
      (ep : Ep) (k : PduResolvedKey) (d : Bytes)
      → is_some ep.cache ≡ true
      → is_some (send C ep k d) ≡ true
  unfolding send
  send-cached ep k d h = ground arith

  -- After an `open` that returned OK, neither `send` nor `recv` follows a null pointer.
  pub open_endpoint-is_safe :
      (ep : Ep) (path : StdString) (k : PduResolvedKey) (d : Bytes) (n : ℕ)
      → (open_endpoint J C ep path).1 ≡ ok
      → (is_some (send C (open_endpoint J C ep path).0 k d) ≡ true)
        × (is_some (recv C (open_endpoint J C ep path).0 k d n) ≡ true)
  open_endpoint-is_safe ep path k d n h =
      let opened = (open_endpoint J C ep path).0 in
      let cached = open_endpoint-cache ep path h in
      (send-cached opened k d cached, recv-cached opened k d n cached)
