-- ===== src/Examples/Multiplexers.antt =====
-- A multiplexer at concrete inputs.
use hakoniwa_pdu_endpoint.Prelude.{◌≡◌, refl, false, [], ◌∷◌, length}
use hakoniwa_pdu_endpoint.Cache.Buffer
use hakoniwa_pdu_endpoint.Cache.Dispatch.{create_pdu_cache, by_mode, open_cache, start_cache}
use hakoniwa_pdu_endpoint.Json.{resolve_under_base}
use hakoniwa_pdu_endpoint.Endpoint.{set_comm}
use hakoniwa_pdu_endpoint.Endpoint.Opening.{
  open_endpoint, open_loaded, load_pdu_definition_if_needed, open_cache_part, open_comm_part,
}
use hakoniwa_pdu_endpoint.Endpoint.Lifecycle
use hakoniwa_pdu_endpoint.Multiplexer.{take_endpoints, taken, endpoints_of, endpoint_of, bring_up}
use hakoniwa_pdu_endpoint.Multiplexer.Sessions.{BroughtUp, take_endpoints-BroughtUp}
use hakoniwa_pdu_endpoint.Examples.Documents.{documents, transport, accepted, multiplexer}

take_endpoints-BroughtUp_example :
    BroughtUp documents transport accepted multiplexer multiplexer.endpoint_seq
      (false ∷ false ∷ [])
      (take_endpoints documents transport accepted multiplexer).1
take_endpoints-BroughtUp_example =
    take_endpoints-BroughtUp documents transport accepted multiplexer (false ∷ false ∷ []) refl

-- Both sessions become endpoints.
both_come_up : length (take_endpoints documents transport accepted multiplexer).1 ≡ 2
unfolding take_endpoints taken endpoints_of endpoint_of bring_up set_comm open_endpoint open_loaded
    load_pdu_definition_if_needed open_cache_part open_comm_part create_pdu_cache by_mode open_cache
    Buffer.open_config Buffer.check_config Buffer.init Buffer.start resolve_under_base start_cache
    Lifecycle.start Lifecycle.post_start
both_come_up = refl
