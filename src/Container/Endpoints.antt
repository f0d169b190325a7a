-- ===== src/Container/Endpoints.antt =====
-- include/hakoniwa/pdu/endpoint_container.hpp: the endpoints of a container are those of endpoint.hpp.
use hakoniwa_pdu_endpoint.Prelude.{StdString, false}
use hakoniwa_pdu_endpoint.Prelude.Map.{Map}
use hakoniwa_pdu_endpoint.Json.{Json}
use hakoniwa_pdu_endpoint.Endpoint.{Endpoint, fresh}
use hakoniwa_pdu_endpoint.Endpoint.Comm.{PduComm}
use hakoniwa_pdu_endpoint.Endpoint.Opening.{open_endpoint, create_pdu_lchannels}
use hakoniwa_pdu_endpoint.Endpoint.Lifecycle.{close, start, post_start, stop, is_running}
use hakoniwa_pdu_endpoint.Container.{EndpointOps}

abbrev pub endpoint_ops :
    (J : Json) (C : PduComm)
    → (Map StdString (Endpoint C.Comm) → Map StdString (Endpoint C.Comm))
    → EndpointOps
endpoint_ops J C walk_order = record {
  Ep = Endpoint C.Comm;
  make = fresh;
  create_channels = create_pdu_lchannels J C;
  open_ep = open_endpoint J C;
  start_ep = start C;
  post_start_ep = post_start C;
  stop_ep = stop C;
  close_ep = close C;
  ep_running = λ ep. is_running C ep false;
  walk_order = walk_order;
}
