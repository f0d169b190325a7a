-- ===== src/Endpoint/Notify.antt =====
-- include/hakoniwa/pdu/endpoint.hpp: which subscribers are called.
use hakoniwa_pdu_endpoint.Prelude.{
  Occurs, ℕ, ◌≡◌, ◌↔◌, refl, ap, ◌∙◌, arith, List, [], ◌∷◌, ◌++◌, if◌then◌else◌, ◌==◌,
}
use hakoniwa_pdu_endpoint.Types.{PduResolvedKey, key_Eq, key_eq_iff}
use hakoniwa_pdu_endpoint.Cache.Span.{Bytes}
use hakoniwa_pdu_endpoint.Endpoint.{
  Endpoint, targets, invoke, notify_subscribers, subscribe_on_recv_callback,
}
use hakoniwa_pdu_endpoint.Endpoint.Comm.{PduComm}

invoke-append :
    (xs ys : List ℕ) (k : PduResolvedKey) (d : Bytes)
    → invoke (xs ++ ys) k d ≡ invoke xs k d ++ invoke ys k d
unfolding invoke
invoke-append [] ys k d = refl
invoke-append (x ∷ xs) ys k d = ap (λ rest. (x, (k, d)) ∷ rest) (invoke-append xs ys k d)

targets-append :
    (subs more : List (PduResolvedKey × ℕ)) (k : PduResolvedKey)
    → targets (subs ++ more) k ≡ targets subs k ++ targets more k
unfolding targets
targets-append [] more k = refl
targets-append ((j, cb) ∷ subs) more k = ground (arith, targets-append subs more k)

notify_one :
    (j k : PduResolvedKey) (cb : ℕ) (d : Bytes)
    → invoke (targets ((j, cb) ∷ []) k) k d ≡ (if j == k then (cb, (k, d)) ∷ [] else [])
unfolding invoke targets
notify_one j k cb d = ground arith

-- A new subscription adds one invocation, after those of the earlier subscribers, to the
-- notifications of its own key, and changes no notification of another key.
pub notify_subscribers-subscribe :
    (C : PduComm) (ep : Endpoint C.Comm) (j k : PduResolvedKey) (cb : ℕ) (d : Bytes)
    → notify_subscribers (subscribe_on_recv_callback C ep j cb).per_pdu_callbacks k d
      ≡ notify_subscribers ep.per_pdu_callbacks k d ++ (if j == k then (cb, (k, d)) ∷ [] else [])
unfolding notify_subscribers subscribe_on_recv_callback
notify_subscribers-subscribe C ep j k cb d =
    ap (λ ts. invoke ts k d) (targets-append ep.per_pdu_callbacks ((j, cb) ∷ []) k)
    ∙ invoke-append (targets ep.per_pdu_callbacks k) (targets ((j, cb) ∷ []) k) k d
    ∙ ap (λ l. invoke (targets ep.per_pdu_callbacks k) k d ++ l) (notify_one j k cb d)

-- An invocation is made exactly if its subscriber is subscribed to the key.
pub notify_subscribers-Occurs :
    (subs : List (PduResolvedKey × ℕ)) (k : PduResolvedKey) (d : Bytes) (cb : ℕ)
    → Occurs (cb, (k, d)) (notify_subscribers subs k d) ↔ Occurs (k, cb) subs
unfolding notify_subscribers targets invoke
notify_subscribers-Occurs [] k d cb = (λ h. h, λ h. h)
notify_subscribers-Occurs ((j, c) ∷ subs) k d cb =
    ground (arith, key_eq_iff j k, notify_subscribers-Occurs subs k d cb)
