-- ===== src/Endpoint/Reload.antt =====
-- include/hakoniwa/pdu/endpoint.hpp: a definition table that failed to load.
use hakoniwa_pdu_endpoint.Prelude.{◌≡◌, arith, Bool, some, StdString}
use hakoniwa_pdu_endpoint.Types.{ok}
use hakoniwa_pdu_endpoint.Json.{Json, present}
use hakoniwa_pdu_endpoint.Endpoint.{Endpoint}
use hakoniwa_pdu_endpoint.Endpoint.Comm.{PduComm}
use hakoniwa_pdu_endpoint.Endpoint.Opening.{load_pdu_definition_if_needed}

-- If the configuration names a definition file, a second load of it on the same endpoint answers OK,
-- even where the first one failed.
pub load_pdu_definition_if_needed_twice :
    (J : Json) (C : PduComm) (config v : J.Value) (base_dir : StdString) (required required' : Bool)
    (ep : Endpoint C.Comm)
    → present J config "pdu_def_path" ≡ some v
    → (load_pdu_definition_if_needed J C config base_dir required'
        (load_pdu_definition_if_needed J C config base_dir required ep).0).1
      ≡ ok
unfolding load_pdu_definition_if_needed
load_pdu_definition_if_needed_twice J C config v base_dir required required' ep h = ground arith
