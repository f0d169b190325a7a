-- ===== src/Container/Initialized.antt =====
-- src/endpoint_container.cpp: what initialize leaves behind, on success and on failure.
use hakoniwa_pdu_endpoint.Prelude.{
  ◌≡◌, ◌≢◌, arith, true, false, List, [], ◌∷◌, StdString, str_Eq, str_eq_iff, is_some, Occurs, map,
  ◌⊎◌,
}
use hakoniwa_pdu_endpoint.Prelude.Map.{find, find-assign}
use hakoniwa_pdu_endpoint.Types.{ok, is_ok→eq}
use hakoniwa_pdu_endpoint.Json.{Json}
use hakoniwa_pdu_endpoint.Container.{EndpointEntry, EndpointOps, EndpointContainer}
use hakoniwa_pdu_endpoint.Container.Entries.{load_entries, find_entry, list_endpoint_ids}
use hakoniwa_pdu_endpoint.Container.Setup.{
  create, create_and_open, open_entries, initialize, rollback,
}
use hakoniwa_pdu_endpoint.Container.Single.{ref}

module _ (O : EndpointOps) where
  abbrev Con : Type 0
  Con = EndpointContainer O.Ep

  open_entries-keeps :
      (c : Con) (es : List EndpointEntry) (id : StdString)
      → (open_entries O c es).1 ≡ ok
      → is_some (find id c.cache) ≡ true
      → is_some (find id (open_entries O c es).0.cache) ≡ true
  unfolding open_entries create_and_open
  open_entries-keeps c [] id h k = k
  open_entries-keeps c (e ∷ es) id h k = ground (
    arith,
    open_entries-keeps (create_and_open O c e).0 es id,
    find-assign e.id id (O.open_ep (create O c e) e.config_path).0 c.cache,
  )

  open_entries-found :
      (c : Con) (es : List EndpointEntry) (id : StdString)
      → (open_entries O c es).1 ≡ ok
      → is_some (find_entry es id) ≡ true
      → is_some (find id (open_entries O c es).0.cache) ≡ true
  unfolding open_entries create_and_open find_entry
  open_entries-found c [] id h k = ground arith
  open_entries-found c (e ∷ es) id h k = ground (
    arith,
    open_entries-found (create_and_open O c e).0 es id,
    open_entries-keeps (create_and_open O c e).0 es id,
    find-assign e.id id (O.open_ep (create O c e) e.config_path).0 c.cache,
  )

  open_entries-same :
      (c : Con) (es : List EndpointEntry)
      → ((open_entries O c es).0.entries ≡ c.entries)
        × ((open_entries O c es).1 ≡ ok → (open_entries O c es).0.initialized ≡ true)
        × ((open_entries O c es).1 ≢ ok → (open_entries O c es).0.initialized ≡ c.initialized)
        × ((open_entries O c es).1 ≢ ok → (open_entries O c es).0.cache ≡ [])
  unfolding open_entries create_and_open rollback
  open_entries-same c [] = ground arith
  open_entries-same c (e ∷ es) = ground (arith, open_entries-same (create_and_open O c e).0 es)

  Occurs-find_entry :
      (es : List EndpointEntry) (id : StdString)
      → Occurs id (map (λ (e : EndpointEntry). e.id) es)
      → is_some (find_entry es id) ≡ true
  unfolding find_entry
  Occurs-find_entry [] id h = ground arith
  Occurs-find_entry (e ∷ es) id h = ground (arith, str_eq_iff e.id id, Occurs-find_entry es id)

-- What the container is before its entries are opened.
load_entries-same :
    {Ep : Type 0} (J : Json) (what : StdString → StdString) (c : EndpointContainer Ep)
    → ((load_entries J what c).0.cache ≡ c.cache)
      × ((load_entries J what c).0.initialized ≡ c.initialized)
      × ((load_entries J what c).0.released ≡ c.released)
unfolding load_entries
load_entries-same J what c = ground arith

module _ (J : Json) (what : StdString → StdString) (O : EndpointOps) where
  -- After an `initialize` that returned OK, `ref` returns an endpoint for every id that
  -- `list_endpoint_ids` lists.
  pub ref-initialize :
      (c : EndpointContainer O.Ep) (id : StdString)
      → (initialize J what O c).1 ≡ ok
      → Occurs id (list_endpoint_ids (initialize J what O c).0)
      → is_some (ref O (initialize J what O c).0 id).1 ≡ true
  unfolding initialize ref list_endpoint_ids
  ref-initialize c id h l =
      let loaded = (load_entries J what c).0 in
      ground (
        arith,
        is_ok→eq (load_entries J what c).1,
        open_entries-same O loaded loaded.entries,
        open_entries-found O loaded loaded.entries id,
        Occurs-find_entry O loaded.entries id,
      )

  -- An `initialize` that fails on a container that is not initialized leaves it so. Either the
  -- entries were not loaded and no endpoint was touched, or the map is empty.
  pub initialize-failed :
      (c : EndpointContainer O.Ep)
      → c.initialized ≡ false
      → (initialize J what O c).1 ≢ ok
      → ((initialize J what O c).0.initialized ≡ false)
        × (((load_entries J what c).1 ≢ ok)
              × ((initialize J what O c).0.cache ≡ c.cache)
              × ((initialize J what O c).0.released ≡ c.released)
            ⊎ ((load_entries J what c).1 ≡ ok) × ((initialize J what O c).0.cache ≡ []))
  unfolding initialize
  initialize-failed c n h =
      let loaded = (load_entries J what c).0 in
      ground (
        arith,
        is_ok→eq (load_entries J what c).1,
        load_entries-same J what c,
        open_entries-same O loaded loaded.entries,
      )
