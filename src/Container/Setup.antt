-- ===== src/Container/Setup.antt =====
-- src/endpoint_container.cpp: create_, create_and_open_, create_pdu_lchannels and initialize. The map
-- and a caller share an endpoint, so what is done to it is seen in the map.
use hakoniwa_pdu_endpoint.Prelude.{
  Bool, true, false, Option, none, some, List, [], ◌∷◌, ◌++◌, if◌then◌else◌, StdString, str_Eq,
  codes,
}
use hakoniwa_pdu_endpoint.Prelude.Map.{Map, find, assign}
use hakoniwa_pdu_endpoint.Types.{HakoPduErrorType, ok, invalid_config, is_ok, Direction}
use hakoniwa_pdu_endpoint.Json.{Json}
use hakoniwa_pdu_endpoint.Container.{
  EndpointEntry, EndpointOps, EndpointContainer, default_dir, fail, to_string, failed_at,
}
use hakoniwa_pdu_endpoint.Container.Entries.{load_entries}

module _ (O : EndpointOps) where
  abbrev Con : Type 0
  Con = EndpointContainer O.Ep

  abbrev value_or : Option Direction → Direction → Direction
  value_or none d = d
  value_or (some d) _ = d

  -- The endpoint of the entry: the one in the map, or a new one.
  unfoldable pub create : Con → EndpointEntry → O.Ep
  create c e = elim (find e.id c.cache) [
    | some ep ↦ ep
    | none ↦ O.make e.id (value_or e.direction default_dir)
  ]

  abbrev keep : Con → EndpointEntry → O.Ep → Con
  keep c e ep = record c { cache = assign e.id ep c.cache }

  -- nullptr is the answer false.
  unfoldable pub create_and_open : Con → EndpointEntry → Con × Bool
  unfolding create
  create_and_open c e =
      let (ep, err) = O.open_ep (create c e) e.config_path in
      if is_ok err then (keep c e ep, true) else (
        fail (keep c e ep) (
            failed_at (codes "Endpoint open failed. id=")
              (e.id ++ codes " config=" ++ e.config_path) err),
        false,
      )

  abbrev close_all : Map StdString O.Ep → Map StdString O.Ep
  close_all [] = []
  close_all ((id, ep) ∷ rest) = (id, (O.close_ep ep).0) ∷ close_all rest

  -- Close what is open and forget it.
  unfoldable pub rollback : Con → Con
  rollback c = record c { cache = []; released = c.released ++ close_all (O.walk_order c.cache) }

  unfoldable pub open_entries : Con → List EndpointEntry → Con × HakoPduErrorType
  unfolding create_and_open rollback
  open_entries c [] = (record c { initialized = true }, ok)
  open_entries c (e ∷ rest) =
      let (c', opened) = create_and_open c e in
      let more = open_entries c' rest in if opened then more else (rollback c', invalid_config)

  unfoldable pub create_channels_of_entries : Con → List EndpointEntry → Con × HakoPduErrorType
  unfolding create rollback
  create_channels_of_entries c [] = (c, ok)
  create_channels_of_entries c (e ∷ rest) =
      let (ep, err) = O.create_channels (create c e) e.config_path in
      let more = create_channels_of_entries (keep c e ep) rest in
      if is_ok err then more else (
        rollback (
            fail (keep c e ep) (
              codes "Endpoint create_pdu_lchannels failed. id="
              ++ e.id
              ++ codes " config="
              ++ e.config_path
              ++ codes " error="
              ++ to_string err)),
        err,
      )

module _ (J : Json) (what : StdString → StdString) (O : EndpointOps) where
  abbrev pub when_loaded :
      (EndpointContainer O.Ep → List EndpointEntry → EndpointContainer O.Ep × HakoPduErrorType)
      → EndpointContainer O.Ep × HakoPduErrorType
      → EndpointContainer O.Ep × HakoPduErrorType
  when_loaded next (c, err) = if is_ok err then next c c.entries else (c, err)

  unfoldable pub initialize : EndpointContainer O.Ep → EndpointContainer O.Ep × HakoPduErrorType
  unfolding open_entries
  initialize c =
      if c.initialized
      then (fail c (codes "EndpointContainer is already initialized."), invalid_config)
      else when_loaded (open_entries O) (load_entries J what c)

  unfoldable pub create_pdu_lchannels :
      EndpointContainer O.Ep → EndpointContainer O.Ep × HakoPduErrorType
  unfolding create_channels_of_entries
  create_pdu_lchannels c = when_loaded (create_channels_of_entries O) (load_entries J what c)
