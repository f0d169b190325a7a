-- ===== src/Container/Released.antt =====
-- src/endpoint_container.cpp: stopping one endpoint, and what that does to the others.
use hakoniwa_pdu_endpoint.Prelude.{
  ◌≡◌, ◌↔◌, arith, true, none, some, [], ◌∷◌, ◌++◌, if◌then◌else◌, StdString, str_Eq, str_eq_iff,
  ◌==◌,
}
use hakoniwa_pdu_endpoint.Prelude.Map.{Map, find, find-erase}
use hakoniwa_pdu_endpoint.Types.{ok, is_ok, is_ok→eq}
use hakoniwa_pdu_endpoint.Container.{EndpointOps, EndpointContainer}
use hakoniwa_pdu_endpoint.Container.Walk.{is_running_all, all_running}
use hakoniwa_pdu_endpoint.Container.Single.{stop, ref}

module _ (O : EndpointOps) where
  -- After `stop id` on an initialized container `ref` finds nothing under `id`, whatever the endpoint
  -- answered, and finds the same as before under every other id.
  pub ref-stop :
      (c : EndpointContainer O.Ep) (id j : StdString)
      → c.initialized ≡ true
      → (ref O (stop O c id).0 j).1 ≡ (if id == j then none else (ref O c j).1)
  unfolding ref stop
  ref-stop c id j h = ground (arith, str_eq_iff id j, find-erase id j c.cache)

  -- `stop` answers OK exactly if both the stop and the close of the endpoint did, or if there is no
  -- such endpoint, and a stop that fails does not keep the endpoint from being closed and let go.
  pub stop-released :
      (c : EndpointContainer O.Ep) (id : StdString) (ep : O.Ep)
      → c.initialized ≡ true
      → find id c.cache ≡ some ep
      → let stopped = O.stop_ep ep in
        let closed = O.close_ep stopped.0 in
        ((stop O c id).0.released ≡ c.released ++ ((id, closed.0) ∷ []))
        × ((stop O c id).1 ≡ (if is_ok stopped.1 then closed.1 else stopped.1))
  unfolding stop
  stop-released c id ep h f =
      ground (arith, is_ok→eq (O.stop_ep ep).1, is_ok→eq (O.close_ep (O.stop_ep ep).0).1)

  -- Every endpoint of a map answers OK and that it runs.
  abbrev pub AllRunning : Map StdString O.Ep → Type 0
  AllRunning [] = Unit
  AllRunning ((id, ep) ∷ m) = (O.ep_running ep ≡ (ok, true)) × AllRunning m

  all_running-AllRunning : (m : Map StdString O.Ep) → (all_running O m ≡ true) ↔ AllRunning m
  unfolding all_running
  all_running-AllRunning [] = ground arith
  all_running-AllRunning ((id, ep) ∷ m) =
      ground (arith, all_running-AllRunning m, is_ok→eq (O.ep_running ep).0)

  -- `is_running_all` holds exactly if the container is initialized and every endpoint answers OK and
  -- that it runs.
  pub is_running_all-AllRunning :
      (c : EndpointContainer O.Ep)
      → (is_running_all O c ≡ true) ↔ ((c.initialized ≡ true) × AllRunning (O.walk_order c.cache))
  unfolding is_running_all
  is_running_all-AllRunning c = ground (arith, all_running-AllRunning (O.walk_order c.cache))
