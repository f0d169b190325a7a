-- ===== src/Cache.antt =====
-- include/hakoniwa/pdu/cache: what both caches share. The virtual class PduCache is `PduCache` of
-- the child Dispatch.
pub mod Span
pub mod Calls
pub mod Buffer
pub mod Queue
pub mod Dispatch
