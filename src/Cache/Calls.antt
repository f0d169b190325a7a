-- ===== src/Cache/Calls.antt =====
-- include/hakoniwa/pdu/cache/cache.hpp: the calls of the interface PduCache and what they answer,
-- for statements about histories of calls.
use hakoniwa_pdu_endpoint.Prelude.{ℕ}
use hakoniwa_pdu_endpoint.Types.{HakoPduErrorType, PduResolvedKey}
use hakoniwa_pdu_endpoint.Cache.Span.{Bytes, ReadResult}

pub data Call : Type 0 where
  writes : PduResolvedKey → Bytes → Call
  reads : PduResolvedKey → Bytes → ℕ → Call
  starts stops closes : Call

-- What a caller gets back.
pub data Reply : Type 0 where
  code : HakoPduErrorType → Reply
  result : ReadResult → Reply
