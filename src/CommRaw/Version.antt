-- ===== src/CommRaw/Version.antt =====
-- The key "comm_raw_version" of a transport's document, which the raw_open of src/comm_tcp.cpp, of
-- src/comm_tcp_mux.cpp and of src/comm_udp.cpp read alike.
use hakoniwa_pdu_endpoint.Prelude.{Bool, true, false, none, some, codes}
use hakoniwa_pdu_endpoint.Types.{HakoPduErrorType, ok, invalid_argument}
use hakoniwa_pdu_endpoint.Json.{Json}
use hakoniwa_pdu_endpoint.CommRaw.{PduCommRaw, set_packet_version}

abbrev version_set : PduCommRaw × Bool → PduCommRaw × HakoPduErrorType
version_set (c, true) = (c, ok)
version_set (c, false) = (c, invalid_argument)

-- `is_string` is that `get<std::string>` does not throw.
unfoldable pub configure_version : (J : Json) → PduCommRaw → J.Value → PduCommRaw × HakoPduErrorType
configure_version J c config = elim (J.member config (codes "comm_raw_version")) [
  | none ↦ (c, ok)
  | some v ↦ elim (J.get_string v) [
    | none ↦ (c, invalid_argument)
    | some version ↦ version_set (set_packet_version c version)
  ]
]
