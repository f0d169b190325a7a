-- ===== src/Endpoint/Lifecycle.antt =====
-- include/hakoniwa/pdu/endpoint.hpp: close, start, post_start, stop and is_running.
use hakoniwa_pdu_endpoint.Prelude.{Bool, false, ◌&&◌, Option, none, some, if◌then◌else◌}
use hakoniwa_pdu_endpoint.Types.{HakoPduErrorType, ok, invalid_json, is_ok}
use hakoniwa_pdu_endpoint.Cache.Dispatch.{cache_running, start_cache, stop_cache, close_cache}
use hakoniwa_pdu_endpoint.Endpoint.{Endpoint}
use hakoniwa_pdu_endpoint.Endpoint.Comm.{PduComm}
use hakoniwa_pdu_endpoint.Endpoint.Opening.{and_then}

-- `if (err == HAKO_PDU_ERR_OK) err = later;`
abbrev pub first_error : HakoPduErrorType → HakoPduErrorType → HakoPduErrorType
first_error err later = if is_ok err then later else err

-- A call on a part that may be the null pointer.
abbrev pub on_part :
    {A : Type 0} → (A → A × HakoPduErrorType) → Option A → Option A × HakoPduErrorType
on_part f none = (none, ok)
on_part f (some a) = let (a', err) = f a in (some a', err)

module _ (C : PduComm) where
  abbrev Ep : Type 0
  Ep = Endpoint C.Comm

  -- The callback is taken away before the comm closes.
  abbrev close_without_callback : C.Comm → C.Comm × HakoPduErrorType
  close_without_callback comm = C.close_comm (C.set_on_recv_callback comm false)

  unfoldable pub close : Ep → Ep × HakoPduErrorType
  close ep =
      let (comm, err) = on_part close_without_callback ep.comm in
      let (cache, cache_err) = on_part close_cache ep.cache in
      (record ep { comm = comm; cache = cache }, first_error err cache_err)

  unfoldable pub stop : Ep → Ep × HakoPduErrorType
  stop ep =
      let (comm, err) = on_part C.stop_comm ep.comm in
      let (cache, cache_err) = on_part stop_cache ep.cache in
      (record ep { comm = comm; cache = cache }, first_error err cache_err)

  abbrev start_part : Ep → Ep × HakoPduErrorType
  start_part ep = let (comm, err) = on_part C.start_comm ep.comm in (record ep { comm = comm }, err)

  unfoldable pub start : Ep → Ep × HakoPduErrorType
  start ep =
      let (cache, err) = on_part start_cache ep.cache in
      and_then (record ep { cache = cache }, err) start_part

  unfoldable pub post_start : Ep → Ep × HakoPduErrorType
  post_start ep =
      let (comm, err) = on_part C.post_start_comm ep.comm in (record ep { comm = comm }, err)

  abbrev both_running : Bool → Option C.Comm → HakoPduErrorType × Bool
  both_running cache none = (ok, cache)
  both_running cache (some comm) =
      let (err, comm_is) = C.comm_running comm in
      if is_ok err then (ok, cache && comm_is) else (err, false)

  -- The reply and the out-parameter, which keeps its value if there is no cache.
  unfoldable pub is_running : Ep → Bool → HakoPduErrorType × Bool
  is_running ep running = elim ep.cache [
    | none ↦ (invalid_json, running)
    | some cache ↦ both_running (cache_running cache) ep.comm
  ]
