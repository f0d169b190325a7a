-- ===== src/Examples/Endpoints.antt =====
-- Endpoints at concrete inputs.
use hakoniwa_pdu_endpoint.Prelude.{
  ◌≡◌, refl, ap, arith, true, false, some, [], ◌∷◌, ◌++◌, is_some, codes, if◌then◌else◌, ◌==◌,
}
use hakoniwa_pdu_endpoint.Prelude.Map.{find}
use hakoniwa_pdu_endpoint.Types.{ok, invalid_config, PduResolvedKey, dir_inout, key_Eq}
use hakoniwa_pdu_endpoint.PduDefinition.{resolve}
use hakoniwa_pdu_endpoint.PduDefinition.Loading.{load}
use hakoniwa_pdu_endpoint.Cache.Buffer
use hakoniwa_pdu_endpoint.Cache.Dispatch.{create_pdu_cache, by_mode, open_cache, latest}
use hakoniwa_pdu_endpoint.Endpoint.{
  fresh, send, recv, recv_callback, notify_subscribers, subscribe_on_recv_callback,
}
use hakoniwa_pdu_endpoint.Json.{resolve_under_base}
use hakoniwa_pdu_endpoint.Endpoint.Opening.{
  open_endpoint, open_loaded, load_pdu_definition_if_needed, open_cache_part, open_comm_part,
}
use hakoniwa_pdu_endpoint.Endpoint.Notify.{notify_subscribers-subscribe}
use hakoniwa_pdu_endpoint.Endpoint.Traffic.{
  received, recv_after, reply, recv-send, recv-send_other, recv-recv_callback,
}
use hakoniwa_pdu_endpoint.Endpoint.Reload.{load_pdu_definition_if_needed_twice}
use hakoniwa_pdu_endpoint.Endpoint.Opened.{open_endpoint-is_safe}
use hakoniwa_pdu_endpoint.Examples.Documents.{
  documents, lost_definition, text, transport, key, other_key, name_key, pos_def, table, buffer,
  local_endpoint, remote_endpoint,
}

recv-send_example :
    recv_after transport (send transport local_endpoint key (5 ∷ 6 ∷ [])) key (0 ∷ 0 ∷ 0 ∷ []) 0
    ≡ some (received (5 ∷ 6 ∷ []) (0 ∷ 0 ∷ 0 ∷ []))
recv-send_example =
    recv-send transport local_endpoint buffer key (5 ∷ 6 ∷ []) (0 ∷ 0 ∷ 0 ∷ []) 0 refl refl refl
      (omega arith)

key_differs : key ≡ other_key → ⊥
key_differs h = omega (arith, ap (λ (k : PduResolvedKey). k.channel_id) h)

recv-send_other_example :
    recv_after transport (send transport local_endpoint key (5 ∷ [])) other_key (0 ∷ []) 0
    ≡ reply transport (recv transport local_endpoint other_key (0 ∷ []) 0)
recv-send_other_example =
    recv-send_other transport local_endpoint (latest buffer) key other_key (5 ∷ []) (0 ∷ []) 0 refl
      refl key_differs

name_resolves : resolve table name_key.robot name_key.pdu ≡ some pos_def
unfolding resolve find
name_resolves = refl

recv-recv_callback_example :
    reply transport
      (recv transport (recv_callback transport remote_endpoint key (9 ∷ [])).0 key (0 ∷ 0 ∷ []) 0)
    ≡ some (received (9 ∷ []) (0 ∷ 0 ∷ []))
recv-recv_callback_example =
    recv-recv_callback transport remote_endpoint buffer key (9 ∷ []) (0 ∷ 0 ∷ []) 0 refl refl
      (omega arith)

notify_subscribers-subscribe_example :
    notify_subscribers
      (subscribe_on_recv_callback transport local_endpoint key 9).per_pdu_callbacks
      key
      (1 ∷ [])
    ≡ notify_subscribers local_endpoint.per_pdu_callbacks key (1 ∷ [])
      ++ (if key == key then (9, (key, 1 ∷ [])) ∷ [] else [])
notify_subscribers-subscribe_example =
    notify_subscribers-subscribe transport local_endpoint key key 9 (1 ∷ [])

opens : (open_endpoint documents transport (fresh (codes "ep1") dir_inout) (codes "ep.json")).1 ≡ ok
unfolding open_endpoint open_loaded load_pdu_definition_if_needed open_cache_part open_comm_part
    create_pdu_cache by_mode open_cache Buffer.open_config Buffer.check_config Buffer.init
    resolve_under_base
opens = refl

open_endpoint-is_safe_example :
    (is_some (
        send transport
          (open_endpoint documents transport (fresh (codes "ep1") dir_inout) (codes "ep.json")).0
          key
          (5 ∷ []))
      ≡ true)
    × (is_some (
          recv transport
            (open_endpoint documents transport (fresh (codes "ep1") dir_inout) (codes "ep.json")).0
            key
            (5 ∷ [])
            0)
        ≡ true)
open_endpoint-is_safe_example =
    open_endpoint-is_safe documents transport (fresh (codes "ep1") dir_inout) (codes "ep.json") key
      (5 ∷ []) 0 opens

load_pdu_definition_if_needed_twice_example :
    (load_pdu_definition_if_needed documents transport lost_definition [] false
      (load_pdu_definition_if_needed documents transport lost_definition [] false
        (fresh (codes "ep1") dir_inout)).0).1
    ≡ ok
load_pdu_definition_if_needed_twice_example =
    load_pdu_definition_if_needed_twice documents transport lost_definition
      (text (codes "lost.json")) [] false false (fresh (codes "ep1") dir_inout) refl

-- The first of the two loads fails.
first_load :
    (load_pdu_definition_if_needed documents transport lost_definition [] false
      (fresh (codes "ep1") dir_inout)).1
    ≡ invalid_config
unfolding load_pdu_definition_if_needed load resolve_under_base
first_load = refl
