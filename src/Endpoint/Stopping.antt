-- ===== src/Endpoint/Stopping.antt =====
-- include/hakoniwa/pdu/endpoint.hpp: what stop and close do, whatever their parts answer.
use hakoniwa_pdu_endpoint.Prelude.{◌≡◌, refl, ap, arith, Bool, false, some}
use hakoniwa_pdu_endpoint.Cache.Buffer
use hakoniwa_pdu_endpoint.Cache.Queue
use hakoniwa_pdu_endpoint.Cache.Dispatch.{
  PduCache, latest, queue, cache_running, stop_cache, close_cache,
}
use hakoniwa_pdu_endpoint.Endpoint.{Endpoint}
use hakoniwa_pdu_endpoint.Endpoint.Comm.{PduComm}
use hakoniwa_pdu_endpoint.Endpoint.Lifecycle.{stop, close, is_running, on_part}

stop_cache-idle : (c : PduCache) → cache_running (stop_cache c).0 ≡ false
unfolding stop_cache Buffer.stop Queue.stop
stop_cache-idle (latest b) = refl
stop_cache-idle (queue q) = refl

close_cache-idle : (c : PduCache) → cache_running (close_cache c).0 ≡ false
unfolding close_cache Buffer.close Queue.close
close_cache-idle (latest b) = refl
close_cache-idle (queue q) = refl

idle :
    (C : PduComm) (ep : Endpoint C.Comm) (c : PduCache) (running : Bool)
    → ep.cache ≡ some c
    → cache_running c ≡ false
    → (is_running C ep running).1 ≡ false
unfolding is_running
idle C ep c running h i = ground arith

-- An endpoint with a cache does not run after `stop`, whatever its comm answers to any call.
pub is_running-stop :
    (C : PduComm) (ep : Endpoint C.Comm) (c : PduCache) (running : Bool)
    → ep.cache ≡ some c
    → (is_running C (stop C ep).0 running).1 ≡ false
unfolding stop
is_running-stop C ep c running h =
    idle C (stop C ep).0 (stop_cache c).0 running (ap (λ p. (on_part stop_cache p).0) h)
      (stop_cache-idle c)

-- An endpoint with a cache does not run after `close`, whatever its comm answers to any call.
pub is_running-close :
    (C : PduComm) (ep : Endpoint C.Comm) (c : PduCache) (running : Bool)
    → ep.cache ≡ some c
    → (is_running C (close C ep).0 running).1 ≡ false
unfolding close
is_running-close C ep c running h =
    idle C (close C ep).0 (close_cache c).0 running (ap (λ p. (on_part close_cache p).0) h)
      (close_cache-idle c)
