-- ===== src/Multiplexer.antt =====
-- include/hakoniwa/pdu/endpoint_comm_multiplexer.hpp and src/endpoint_comm_multiplexer.cpp:
-- EndpointCommMultiplexer, which makes an endpoint of every session that its CommMultiplexer
-- (include/hakoniwa/pdu/comm/comm_mux.hpp) accepts.
pub mod Sessions
use hakoniwa_pdu_endpoint.Prelude.{
  ℕ, zero, suc, ◌+◌, ◌/◌, ◌%◌, ◌^◌, Bool, true, false, Option, none, some, List, [], ◌∷◌, ◌++◌,
  if◌then◌else◌, ltb, leb, StdString, codes, ◌==◌, str_Eq,
}
use hakoniwa_pdu_endpoint.Types.{
  HakoPduErrorType, ok, busy, file_not_found, invalid_json, invalid_config, is_ok, Direction,
}
use hakoniwa_pdu_endpoint.Json.{
  Json, Loaded, not_found, malformed, parsed, present, resolve_under_base,
}
use hakoniwa_pdu_endpoint.Endpoint
use hakoniwa_pdu_endpoint.Endpoint.{Endpoint, fresh, set_comm}
use hakoniwa_pdu_endpoint.Endpoint.Comm.{PduComm}
use hakoniwa_pdu_endpoint.Endpoint.Opening.{open_endpoint}
use hakoniwa_pdu_endpoint.Endpoint.Lifecycle

-- A CommMultiplexer over the sessions of a transport.
pub record CommMultiplexer (Comm : Type 0) : Type 1 where
  pub Mux : Type 0
  pub make_tcp : Mux
  pub open_mux : Mux → StdString → Mux × HakoPduErrorType
  pub close_mux : Mux → Mux × HakoPduErrorType
  pub start_mux : Mux → Mux × HakoPduErrorType
  pub stop_mux : Mux → Mux × HakoPduErrorType
  pub take_sessions : Mux → Mux × List Comm
  pub connected_count : Mux → ℕ
  pub expected_count : Mux → ℕ

pub record EndpointCommMultiplexer (Mux : Type 0) : Type 0 where
  pub name : StdString
  pub direction : Direction
  pub endpoint_config_path : StdString
  pub base_dir : StdString
  pub comm : Option Mux
  pub endpoint_seq : ℕ

-- `++endpoint_seq_` of a size_t.
abbrev pub next_seq : ℕ → ℕ
next_seq n = (n + 1) % 2 ^ 64

-- `std::to_string` of a size_t, which has at most 20 digits.
unfoldable pub digits : ℕ → ℕ → StdString
digits zero n = []
digits (suc fuel) n =
    let more = digits fuel (n / 10) in
    if ltb n 10 then (48 + n) ∷ [] else more ++ ((48 + n % 10) ∷ [])

unfoldable pub decimal : ℕ → StdString
unfolding digits
decimal n = digits 20 n

module _ (J : Json) (C : PduComm) (S : CommMultiplexer C.Comm) where
  abbrev Ecm : Type 0
  Ecm = EndpointCommMultiplexer S.Mux

  -- An exception of the JSON library leaves `open`: the outer none. The inner none is nullptr.
  abbrev by_protocol_text : Option StdString → Option (Option S.Mux)
  by_protocol_text none = none
  by_protocol_text (some protocol) =
      some (if protocol == codes "tcp" then some S.make_tcp else none)

  unfoldable pub create_comm_mux : StdString → Option (Option S.Mux)
  create_comm_mux path = elim (J.load path) [
    | not_found ↦ some none
    | malformed ↦ some none
    | parsed config ↦ elim (J.member config (codes "protocol")) [
      | none ↦ some none
      | some v ↦ by_protocol_text (J.get_string v)
    ]
  ]

  -- The path is kept only after the multiplexer opened.
  abbrev opened_mux : Ecm → StdString → S.Mux × HakoPduErrorType → Ecm × Option HakoPduErrorType
  opened_mux m path (mux, err) =
      if is_ok err
      then (record m { comm = some mux; endpoint_config_path = path }, some ok)
      else (record m { comm = some mux }, some err)

  abbrev with_mux :
      Ecm → StdString → StdString → Option (Option S.Mux) → Ecm × Option HakoPduErrorType
  with_mux m path resolved none = (m, none)
  with_mux m path resolved (some none) = (m, some invalid_config)
  with_mux m path resolved (some (some mux)) = opened_mux m path (S.open_mux mux resolved)

  abbrev mux_at : Ecm → StdString → Option StdString → Ecm × Option HakoPduErrorType
  mux_at m path none = (m, none)
  mux_at m path (some rel) =
      let resolved = resolve_under_base J m.base_dir rel in
      with_mux m path resolved (create_comm_mux resolved)

  unfoldable pub open_config : Ecm → StdString → J.Value → Ecm × Option HakoPduErrorType
  unfolding create_comm_mux
  open_config m path config = elim (present J config "cache") [
    | none ↦ (m, some invalid_config)
    | some cache ↦ elim (present J config "comm") [
      | none ↦ (m, some invalid_config)
      | some comm ↦ mux_at m path (J.get_string comm)
    ]
  ]

  -- The answer is none if an exception leaves the function.
  unfoldable pub open_multiplexer : Ecm → StdString → Ecm × Option HakoPduErrorType
  unfolding open_config
  open_multiplexer m path = elim m.comm [
    | some mux ↦ (m, some busy)
    | none ↦
        let m' = record m { base_dir = J.parent_path path } in
        elim (J.load path) [
          | not_found ↦ (m', some file_not_found)
          | malformed ↦ (m', some invalid_json)
          | parsed config ↦ open_config m' path config
        ]
  ]

  abbrev on_mux :
      Ecm → (S.Mux → S.Mux × HakoPduErrorType) → HakoPduErrorType → Ecm × HakoPduErrorType
  on_mux m op missing = elim m.comm [
    | none ↦ (m, missing)
    | some mux ↦ let (mux', err) = op mux in (record m { comm = some mux' }, err)
  ]

  unfoldable pub close_multiplexer : Ecm → Ecm × HakoPduErrorType
  close_multiplexer m = on_mux m S.close_mux ok

  unfoldable pub start_multiplexer : Ecm → Ecm × HakoPduErrorType
  start_multiplexer m = on_mux m S.start_mux invalid_config

  unfoldable pub stop_multiplexer : Ecm → Ecm × HakoPduErrorType
  stop_multiplexer m = on_mux m S.stop_mux ok

  abbrev started_endpoint : Endpoint C.Comm × HakoPduErrorType → Option (Endpoint C.Comm)
  started_endpoint (ep, err) = if is_ok err then some (Lifecycle.post_start C ep).0 else none

  abbrev opened_endpoint : Endpoint C.Comm × HakoPduErrorType → Option (Endpoint C.Comm)
  opened_endpoint (ep, err) = if is_ok err then started_endpoint (Lifecycle.start C ep) else none

  -- The endpoint, if it opens and starts; one that does not start is closed and goes.
  unfoldable pub bring_up : Endpoint C.Comm → StdString → Option (Endpoint C.Comm)
  bring_up ep path = opened_endpoint (open_endpoint J C ep path)

  unfoldable pub endpoint_of : Ecm → C.Comm → Option (Endpoint C.Comm)
  unfolding bring_up
  endpoint_of m session =
      let name = m.name ++ codes "_" ++ decimal (next_seq m.endpoint_seq) in
      bring_up (set_comm C (fresh name m.direction) session) m.endpoint_config_path

  abbrev pub push_some : Option (Endpoint C.Comm) → List (Endpoint C.Comm) → List (Endpoint C.Comm)
  push_some none eps = eps
  push_some (some ep) eps = ep ∷ eps

  unfoldable pub endpoints_of : Ecm → List C.Comm → Ecm × List (Endpoint C.Comm)
  unfolding endpoint_of
  endpoints_of m [] = (m, [])
  endpoints_of m (session ∷ rest) =
      let (m', more) = endpoints_of (record m { endpoint_seq = next_seq m.endpoint_seq }) rest in
      (m', push_some (endpoint_of m session) more)

  unfoldable pub taken : Ecm → Option S.Mux → Ecm × List (Endpoint C.Comm)
  unfolding endpoints_of
  taken m none = (m, [])
  taken m (some mux) =
      let (mux', sessions) = S.take_sessions mux in
      endpoints_of (record m { comm = some mux' }) sessions

  unfoldable pub take_endpoints : Ecm → Ecm × List (Endpoint C.Comm)
  unfolding taken
  take_endpoints m = taken m m.comm

  unfoldable pub is_ready : Ecm → Bool
  is_ready m = elim m.comm [
    | none ↦ false
    | some mux ↦ leb (S.expected_count mux) (S.connected_count mux)
  ]
