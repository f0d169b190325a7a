-- ===== src/Shm/Dispatch.antt =====
-- Which object an event of src/comm_shm.cpp leads to, after post_start and after close.
use hakoniwa_pdu_endpoint.Prelude.{
  ℕ, ◌≡◌, ◌≢◌, refl, sym, ap, ◌∙◌, subst, arith, Bool, true, false, ◌||◌, Option, none, some, List,
  [], ◌∷◌, ◌++◌, if◌then◌else◌, nat_eq, nat_eq_iff, nat_Eq, Bool-cases, inl, inr,
}
use hakoniwa_pdu_endpoint.Prelude.Map.{
  Map, find, erase, erase_all, find-erase, find-assign, beq_refl,
}
use hakoniwa_pdu_endpoint.Types.{HakoPduErrorType, ok, PduResolvedKey}
use hakoniwa_pdu_endpoint.Shm.{
  HakoCore, PduCommShmImp, PduCommShm, World, put, close, register_rcv_event,
}
use hakoniwa_pdu_endpoint.Shm.Events.{
  one_registered, after_register, register_keys, post_start_with, post_start,
}

abbrev pub occurs : ℕ → List ℕ → Bool
occurs k [] = false
occurs k (j ∷ js) = nat_eq j k || occurs k js

abbrev value_or {ℓ} : {A : Type ℓ} → A → Option A → A
value_or a none = a
value_or a (some b) = b

find-erase_all :
    {V : Type 0} (j : ℕ) (ks : List ℕ) (m : Map ℕ V)
    → find j (erase_all ks m) ≡ (if occurs j ks then none else find j m)
unfolding erase_all
find-erase_all j [] m = refl
find-erase_all j (k ∷ ks) m =
    find-erase_all j ks (erase k m)
    ∙ rw (find-erase k j m) (both (nat_eq k j) (occurs j ks) (find j m))
  where
    both :
        {V : Type 0} (a b : Bool) (o : Option V)
        → (if b then none else if a then none else o) ≡ (if a || b then none else o)
    both true true o = refl
    both true false o = refl
    both false b o = refl

occurs-last : (k : ℕ) (ids : List ℕ) → occurs k (ids ++ (k ∷ [])) ≡ true
occurs-last k [] = ground (arith, nat_eq_iff k k)
occurs-last k (j ∷ ids) = ground (arith, occurs-last k ids)

occurs-before : (k j : ℕ) (ids : List ℕ) → occurs k ids ≡ true → occurs k (ids ++ (j ∷ [])) ≡ true
occurs-before k j [] h = absurd (ground (arith, h))
occurs-before k j (i ∷ ids) h = ground (arith, h, occurs-before k j ids)

module _ (H : HakoCore) where
  pub put_here : (w : World H) (i : ℕ) (c : PduCommShm) → (put H w i c).objects i ≡ c
  put_here w i c = rw (beq_refl i) refl

  -- The events that lead to the object are among those that it has noted.
  unfoldable pub IsTracked : World H → ℕ → Type 0
  IsTracked w i =
      (id : ℕ)
      → find id w.event_id_to_instance_map ≡ some i
      → occurs id (w.objects i).registered_event_ids ≡ true

  one_registered-IsTracked :
      (w : World H) (i : ℕ) (s : H.State) (impl : PduCommShmImp) (key : PduResolvedKey)
      (event_id : ℕ)
      → IsTracked w i
      → IsTracked (one_registered H w i s impl key event_id) i
  unfolding IsTracked
  one_registered-IsTracked w i s impl key event_id t id h =
      rw (beq_refl i) (elim (Bool-cases (nat_eq event_id id)) [
        | inl same ↦
            subst (λ k. occurs k ((w.objects i).registered_event_ids ++ (event_id ∷ [])) ≡ true)
              (ground (arith, same, nat_eq_iff event_id id)) (occurs-last event_id _)
        | inr other ↦
            occurs-before id event_id _ (
              t id (sym (find-assign event_id id i w.event_id_to_instance_map ∙ rw other refl) ∙ h))
      ])

  register_keys-IsTracked :
      (w : World H) (i : ℕ) (impl : PduCommShmImp) (keys : List PduResolvedKey) (newly : List ℕ)
      → IsTracked w i
      → (register_keys H w i impl keys newly).1 ≡ ok
      → IsTracked (register_keys H w i impl keys newly).0 i
  unfolding register_keys
  register_keys-IsTracked w i impl [] newly t h = t
  register_keys-IsTracked w i impl (key ∷ keys) newly t h =
      by_answer (register_rcv_event H w.core impl key) h
        (λ w' impl' newly'. register_keys-IsTracked w' i impl' keys newly')
    where
      by_answer :
          (r : H.State × PduCommShmImp × Option ℕ)
          → (after_register H w i key newly
              (λ w' impl' newly'. register_keys H w' i impl' keys newly')
              r).1
            ≡ ok
          → ((w' : World H) (impl' : PduCommShmImp) (newly' : List ℕ)
              → IsTracked w' i
              → (register_keys H w' i impl' keys newly').1 ≡ ok
              → IsTracked (register_keys H w' i impl' keys newly').0 i)
          → IsTracked
              (after_register H w i key newly
                (λ w' impl' newly'. register_keys H w' i impl' keys newly')
                r).0
              i
      by_answer (s, impl', none) h f = absurd (ground (arith, h))
      by_answer (s, impl', some event_id) h f =
          f (one_registered H w i s impl' key event_id) impl' (newly ++ (event_id ∷ []))
            (one_registered-IsTracked w i s impl' key event_id t) h

  post_start-IsTracked :
      (w w' : World H) (i : ℕ) → IsTracked w i → post_start H w i ≡ some (w', ok) → IsTracked w' i
  unfolding post_start
  post_start-IsTracked w w' i t h = by_keys (w.objects i).recv_notify_keys (w.objects i).impl h
    where
      after :
          (r : World H × HakoPduErrorType)
          → (r.1 ≡ ok → IsTracked r.0 i)
          → some r ≡ some (w', ok)
          → IsTracked w' i
      after r f e =
          let p : r ≡ (w', ok) = ap (value_or r) e in
          subst (λ (v : World H). IsTracked v i) (ap (λ (q : World H × HakoPduErrorType). q.0) p)
            (f (ap (λ (q : World H × HakoPduErrorType). q.1) p))

      by_keys :
          (keys : List PduResolvedKey) (impl : Option PduCommShmImp)
          → post_start_with H w i keys impl ≡ some (w', ok)
          → IsTracked w' i
      by_keys [] impl e = after (w, ok) (λ _. t) e
      by_keys (key ∷ keys) none e = absurd (ground (arith, e))
      by_keys (key ∷ keys) (some impl) e =
          after (register_keys H w i impl (key ∷ keys) [])
            (register_keys-IsTracked w i impl (key ∷ keys) [] t) e

  close-forgets :
      (w : World H) (i id : ℕ)
      → IsTracked w i
      → find id (close H w i).event_id_to_instance_map ≢ some i
  unfolding close IsTracked
  close-forgets w i id t h =
      by_case (occurs id ids) (find id m) (t id) (sym (find-erase_all id ids m) ∙ h)
    where
      ids : List ℕ
      ids = (w.objects i).registered_event_ids

      m : Map ℕ ℕ
      m = w.event_id_to_instance_map

      by_case :
          (b : Bool) (o : Option ℕ) → (o ≡ some i → b ≡ true) → (if b then none else o) ≡ some i → ⊥
      by_case true o f e = absurd (ground (arith, e))
      by_case false o f e = absurd (ground (arith, f e))

  -- If no event leads to an object but those that it has noted, as with a new one, then after a post_start that
  -- returned OK and a close no event leads to it.
  pub close-post_start :
      (w w' : World H) (i id : ℕ)
      → IsTracked w i
      → post_start H w i ≡ some (w', ok)
      → find id (close H w' i).event_id_to_instance_map ≢ some i
  close-post_start w w' i id t h = close-forgets w' i id (post_start-IsTracked w w' i t h)
