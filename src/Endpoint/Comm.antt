-- ===== src/Endpoint/Comm.antt =====
-- include/hakoniwa/pdu/comm/comm.hpp: the transport contract PduComm, as the operations that an
-- Endpoint calls, over a state that each transport chooses. With create_pdu_comm of
-- src/pdu_factory.cpp, which picks the transport.
use hakoniwa_pdu_endpoint.Prelude.{
  ℕ, Bool, Option, none, some, List, StdString, ◌==◌, str_Eq, codes, if◌then◌else◌,
}
use hakoniwa_pdu_endpoint.Types.{HakoPduErrorType, PduResolvedKey}
use hakoniwa_pdu_endpoint.Json.{Json, not_found, malformed, parsed}
use hakoniwa_pdu_endpoint.PduDefinition.{PduDefinition}
use hakoniwa_pdu_endpoint.Cache.Span.{Bytes, ReadResult}

pub data Protocol : Type 0 where
  tcp udp shm websocket : Protocol

pub record PduComm : Type 1 where
  pub Comm : Type 0
  -- The constructor of each class.
  pub make : Protocol → Comm
  pub set_pdu_definition : Comm → PduDefinition → Comm
  pub create_channels : Comm → StdString → Comm × HakoPduErrorType
  pub open_comm : Comm → StdString → Comm × HakoPduErrorType
  pub close_comm : Comm → Comm × HakoPduErrorType
  pub start_comm : Comm → Comm × HakoPduErrorType
  pub post_start_comm : Comm → Comm × HakoPduErrorType
  pub stop_comm : Comm → Comm × HakoPduErrorType
  pub comm_running : Comm → HakoPduErrorType × Bool
  pub send_comm : Comm → PduResolvedKey → Bytes → Comm × HakoPduErrorType
  pub recv_comm : Comm → PduResolvedKey → Bytes → ℕ → Comm × ReadResult
  -- Whether a callback is set.
  pub set_on_recv_callback : Comm → Bool → Comm
  -- The calls of the callback that polling makes, in order.
  pub poll_comm : Comm → Comm × List (PduResolvedKey × Bytes)

module _ (J : Json) (C : PduComm) where
  abbrev protocol_text : Option J.Value → Option StdString
  protocol_text none = none
  protocol_text (some v) = J.get_string v

  unfoldable pub by_protocol : Option StdString → Option C.Comm
  by_protocol none = none
  by_protocol (some protocol) =
      if protocol == codes "tcp"
      then some (C.make tcp)
      else if protocol == codes "udp"
      then some (C.make udp)
      else if protocol == codes "shm"
      then some (C.make shm)
      else if protocol == codes "websocket"
      then some (C.make websocket)
      else none

  -- none is the null pointer.
  unfoldable pub create_pdu_comm : StdString → Option C.Comm
  unfolding by_protocol
  create_pdu_comm config_path = elim (J.load config_path) [
    | not_found ↦ none
    | malformed ↦ none
    | parsed config ↦ by_protocol (protocol_text (J.member config (codes "protocol")))
  ]
