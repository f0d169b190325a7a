-- ===== src/Multiplexer/Sessions.antt =====
-- src/endpoint_comm_multiplexer.cpp: what take_endpoints returns.
use hakoniwa_pdu_endpoint.Prelude.{
  ℕ, ◌≡◌, ◌≢◌, refl, sym, ap, subst, arith, Bool, true, false, Option, none, some, List, [], ◌∷◌,
  ◌++◌, is_some, StdString, codes, Option-cases, Bool-cases, ◌⊎◌, inl, inr,
}
use hakoniwa_pdu_endpoint.Types.{HakoPduErrorType, ok, is_ok, is_ok→eq}
use hakoniwa_pdu_endpoint.Json.{Json}
use hakoniwa_pdu_endpoint.Cache.Buffer
use hakoniwa_pdu_endpoint.Cache.Queue
use hakoniwa_pdu_endpoint.Cache.Dispatch.{PduCache, latest, queue, cache_running, start_cache}
use hakoniwa_pdu_endpoint.Endpoint.{Endpoint, fresh, set_comm}
use hakoniwa_pdu_endpoint.Endpoint.Comm.{PduComm}
use hakoniwa_pdu_endpoint.Endpoint.Opening.{open_endpoint}
use hakoniwa_pdu_endpoint.Endpoint.Opened.{open_endpoint-cache}
use hakoniwa_pdu_endpoint.Endpoint.Lifecycle
use hakoniwa_pdu_endpoint.Multiplexer.{
  CommMultiplexer, EndpointCommMultiplexer, next_seq, decimal, bring_up, endpoint_of, endpoints_of,
  push_some, taken, take_endpoints,
}

-- Whether there is a cache that runs.
abbrev pub has_running_cache : Option PduCache → Bool
has_running_cache none = false
has_running_cache (some c) = cache_running c

start_cache-running :
    (c : PduCache) → (cache_running (start_cache c).0 ≡ true) × ((start_cache c).1 ≡ ok)
unfolding start_cache Buffer.start Queue.start
start_cache-running (latest b) = (refl, refl)
start_cache-running (queue q) = (refl, refl)

module _ (J : Json) (C : PduComm) where
  start-running :
      (ep : Endpoint C.Comm)
      → is_some ep.cache ≡ true
      → has_running_cache (Lifecycle.start C ep).0.cache ≡ true
  unfolding Lifecycle.start
  start-running ep h = elim (Option-cases ep.cache) [
    | inl e ↦ ground arith
    | inr (c, e) ↦ ground (arith, start_cache-running c)
  ]

  post_start-running :
      (ep : Endpoint C.Comm)
      → has_running_cache ep.cache ≡ true
      → has_running_cache (Lifecycle.post_start C ep).0.cache ≡ true
  unfolding Lifecycle.post_start
  post_start-running ep h = h

  -- An endpoint that opened and started, whose post_start was called, and whose cache runs.
  pub record Succeeds (ep : Endpoint C.Comm) (path : StdString) (up : Endpoint C.Comm)
      : Type 0 where
    pub opened : (open_endpoint J C ep path).1 ≡ ok
    pub started : (Lifecycle.start C (open_endpoint J C ep path).0).1 ≡ ok
    pub posted : up ≡ (Lifecycle.post_start C (Lifecycle.start C (open_endpoint J C ep path).0).0).0
    pub cache_runs : has_running_cache up.cache ≡ true

  -- An endpoint that does not open, or opens and does not start.
  abbrev pub Fails : Endpoint C.Comm → StdString → Type 0
  Fails ep path =
      ((open_endpoint J C ep path).1 ≢ ok)
      ⊎ ((Lifecycle.start C (open_endpoint J C ep path).0).1 ≢ ok)

  Succeeds-start :
      (ep : Endpoint C.Comm) (path : StdString)
      → is_ok (open_endpoint J C ep path).1 ≡ true
      → is_ok (Lifecycle.start C (open_endpoint J C ep path).0).1 ≡ true
      → Succeeds ep path
          (Lifecycle.post_start C (Lifecycle.start C (open_endpoint J C ep path).0).0).0
  Succeeds-start ep path e e' =
      let opened = open_endpoint J C ep path in
      record {
        opened = is_ok→eq opened.1 e;
        started = is_ok→eq (Lifecycle.start C opened.0).1 e';
        posted = refl;
        cache_runs =
            post_start-running (Lifecycle.start C opened.0).0
              (start-running opened.0 (open_endpoint-cache J C ep path (is_ok→eq opened.1 e)));
      }

  not_ok : (err : HakoPduErrorType) → is_ok err ≡ false → err ≢ ok
  not_ok err e h = absurd (ground (arith, e, ap is_ok h))

  module _ (S : CommMultiplexer C.Comm) where
    -- The endpoint of a session, under the number that it gets.
    abbrev pub numbered : EndpointCommMultiplexer S.Mux → ℕ → C.Comm → Endpoint C.Comm
    numbered m seq session =
        set_comm C (fresh (m.name ++ codes "_" ++ decimal seq) m.direction) session

    -- Which endpoints are made of a list of sessions, after the number `seq` was given out: in their order,
    -- one of each session whose endpoint succeeds and none of the others. Every session takes a number.
    pub data BroughtUp (m : EndpointCommMultiplexer S.Mux)
        : ℕ → List C.Comm → List (Endpoint C.Comm) → Type 0 where
      no_session : {seq : ℕ} → BroughtUp m seq [] []
      kept :
          {seq : ℕ} {session : C.Comm} {sessions : List C.Comm} {up : Endpoint C.Comm}
          {eps : List (Endpoint C.Comm)}
          → Succeeds (numbered m (next_seq seq) session) m.endpoint_config_path up
          → BroughtUp m (next_seq seq) sessions eps
          → BroughtUp m seq (session ∷ sessions) (up ∷ eps)
      left_out :
          {seq : ℕ} {session : C.Comm} {sessions : List C.Comm} {eps : List (Endpoint C.Comm)}
          → Fails (numbered m (next_seq seq) session) m.endpoint_config_path
          → BroughtUp m (next_seq seq) sessions eps
          → BroughtUp m seq (session ∷ sessions) eps

    endpoint_of-BroughtUp :
        (m : EndpointCommMultiplexer S.Mux) (mux : Option S.Mux) (seq : ℕ) (session : C.Comm)
        (sessions : List C.Comm) (eps : List (Endpoint C.Comm))
        → BroughtUp m (next_seq seq) sessions eps
        → BroughtUp m seq (session ∷ sessions) (
            push_some J C S
              (endpoint_of J C S (record m { comm = mux; endpoint_seq = seq }) session)
              eps)
    unfolding endpoint_of bring_up
    endpoint_of-BroughtUp m mux seq session sessions eps more =
        let ep = numbered m (next_seq seq) session in
        let opened = open_endpoint J C ep m.endpoint_config_path in
        elim (Bool-cases (is_ok opened.1)) [
          | inr e ↦ simp e (left_out (inl (not_ok opened.1 e)) more)
          | inl e ↦ elim (Bool-cases (is_ok (Lifecycle.start C opened.0).1)) [
            | inr e' ↦ simp (e, e') (left_out (inr (not_ok (Lifecycle.start C opened.0).1 e')) more)
            | inl e' ↦ simp (e, e') (kept (Succeeds-start ep m.endpoint_config_path e e') more)
          ]
        ]

    endpoints_of-BroughtUp :
        (m : EndpointCommMultiplexer S.Mux) (mux : Option S.Mux) (seq : ℕ) (sessions : List C.Comm)
        → BroughtUp m seq sessions
            (endpoints_of J C S (record m { comm = mux; endpoint_seq = seq }) sessions).1
    unfolding endpoints_of
    endpoints_of-BroughtUp m mux seq [] = no_session
    endpoints_of-BroughtUp m mux seq (session ∷ sessions) =
        endpoint_of-BroughtUp m mux seq session sessions _
          (endpoints_of-BroughtUp m mux (next_seq seq) sessions)

    -- With a comm multiplexer, take_endpoints returns, in the order of the sessions that it takes, the endpoint of
    -- each session whose endpoint opens and starts, after its post_start and with a cache that runs, and
    -- none for the others; each session, also one whose endpoint fails, takes the next number modulo 2^64 for
    -- the endpoint's name.
    pub take_endpoints-BroughtUp :
        (m : EndpointCommMultiplexer S.Mux) (mux : S.Mux)
        → m.comm ≡ some mux
        → BroughtUp m m.endpoint_seq (S.take_sessions mux).1 (take_endpoints J C S m).1
    unfolding take_endpoints taken
    take_endpoints-BroughtUp m mux h =
        subst
          (λ (o : Option S.Mux).
            BroughtUp m m.endpoint_seq (S.take_sessions mux).1 (taken J C S m o).1)
          (sym h)
          (endpoints_of-BroughtUp m (some (S.take_sessions mux).0) m.endpoint_seq
            (S.take_sessions mux).1)
