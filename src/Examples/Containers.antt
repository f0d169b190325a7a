-- ===== src/Examples/Containers.antt =====
-- Containers at concrete inputs.
use hakoniwa_pdu_endpoint.Prelude.{
  ◌≡◌, ◌≢◌, ◌↔◌, ◌⊎◌, inl, refl, true, false, some, [], ◌++◌, codes, str_Eq, is_some, Occurs,
}
use hakoniwa_pdu_endpoint.Prelude.Map.{find, assign}
use hakoniwa_pdu_endpoint.Types.{ok}
use hakoniwa_pdu_endpoint.Json.{resolve_under_base}
use hakoniwa_pdu_endpoint.Cache.Buffer
use hakoniwa_pdu_endpoint.Cache.Dispatch.{create_pdu_cache, by_mode, open_cache}
use hakoniwa_pdu_endpoint.Endpoint.Opening.{
  open_endpoint, open_loaded, load_pdu_definition_if_needed, open_cache_part, open_comm_part,
}
use hakoniwa_pdu_endpoint.Container.Entries.{
  load_entries, search_node, read_entries, read_entry, list_endpoint_ids,
}
use hakoniwa_pdu_endpoint.Container.Setup.{initialize, open_entries, create_and_open, create}
use hakoniwa_pdu_endpoint.Container.Walk.{stop_all, is_running_all}
use hakoniwa_pdu_endpoint.Container.Single.{ref}
use hakoniwa_pdu_endpoint.Container.FirstError.{
  first_of, stop_close_all, stop_codes, stop_all-first_of,
}
use hakoniwa_pdu_endpoint.Container.Initialized.{ref-initialize, initialize-failed}
use hakoniwa_pdu_endpoint.Container.Released.{AllRunning, is_running_all-AllRunning}
use hakoniwa_pdu_endpoint.Examples.Documents.{documents, ops, container, new_node, remote_endpoint}

stop_all-first_of_example :
    ((stop_all ops container).0.cache ≡ [])
    × ((stop_all ops container).0.initialized ≡ false)
    × ((stop_all ops container).0.released ≡ [] ++ stop_close_all ops container.cache)
    × ((stop_all ops container).1 ≡ first_of (stop_codes ops container.cache))
stop_all-first_of_example = stop_all-first_of ops container refl

a_found : find (codes "a") container.cache ≡ some remote_endpoint
unfolding find
a_found = refl

is_running_all-AllRunning_example :
    (is_running_all ops container ≡ true)
    ↔ ((container.initialized ≡ true) × AllRunning ops container.cache)
is_running_all-AllRunning_example = is_running_all-AllRunning ops container

initialized : (initialize documents (λ p. p) ops (new_node (codes "node1"))).1 ≡ ok
unfolding initialize load_entries search_node read_entries read_entry open_entries create_and_open
    create open_endpoint open_loaded load_pdu_definition_if_needed open_cache_part open_comm_part
    create_pdu_cache by_mode open_cache Buffer.open_config Buffer.check_config Buffer.init
    resolve_under_base find assign
initialized = refl

ep1_listed :
    Occurs
      (codes "ep1")
      (list_endpoint_ids (initialize documents (λ p. p) ops (new_node (codes "node1"))).0)
unfolding initialize load_entries search_node read_entries read_entry open_entries create_and_open
    create open_endpoint open_loaded load_pdu_definition_if_needed open_cache_part open_comm_part
    create_pdu_cache by_mode open_cache Buffer.open_config Buffer.check_config Buffer.init
    resolve_under_base find assign list_endpoint_ids
ep1_listed = inl refl

ref-initialize_example :
    is_some
      (ref ops (initialize documents (λ p. p) ops (new_node (codes "node1"))).0 (codes "ep1")).1
    ≡ true
ref-initialize_example =
    ref-initialize documents (λ p. p) ops (new_node (codes "node1")) (codes "ep1") initialized
      ep1_listed

not_initialized : (initialize documents (λ p. p) ops (new_node (codes "node2"))).1 ≢ ok
unfolding initialize load_entries search_node read_entries read_entry open_entries create_and_open
    create open_endpoint open_loaded load_pdu_definition_if_needed open_cache_part open_comm_part
    create_pdu_cache by_mode open_cache Buffer.open_config Buffer.check_config Buffer.init
    resolve_under_base find assign
not_initialized h = cc

initialize-failed_example :
    ((initialize documents (λ p. p) ops (new_node (codes "node2"))).0.initialized ≡ false)
    × (((load_entries documents (λ p. p) (new_node (codes "node2"))).1 ≢ ok)
          × ((initialize documents (λ p. p) ops (new_node (codes "node2"))).0.cache ≡ [])
          × ((initialize documents (λ p. p) ops (new_node (codes "node2"))).0.released ≡ [])
        ⊎ ((load_entries documents (λ p. p) (new_node (codes "node2"))).1 ≡ ok)
          × ((initialize documents (λ p. p) ops (new_node (codes "node2"))).0.cache ≡ []))
initialize-failed_example =
    initialize-failed documents (λ p. p) ops (new_node (codes "node2")) refl not_initialized
