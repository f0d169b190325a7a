-- ===== src/Endpoint.antt =====
-- include/hakoniwa/pdu/endpoint.hpp: the class Endpoint, its state and its traffic. A subscriber is
-- a number, and a call returns the invocations of subscribers it makes, in order. The mutex only
-- guards the list of subscribers, and the targets are copied before they run.
pub mod Comm
pub mod Opening
pub mod Lifecycle
pub mod Traffic
pub mod Notify
pub mod Stopping
pub mod Opened
pub mod Reload
use hakoniwa_pdu_endpoint.Prelude.{
  ℕ, Bool, true, false, Option, none, some, List, [], ◌∷◌, ◌++◌, if◌then◌else◌, StdString, ◌==◌,
}
use hakoniwa_pdu_endpoint.Types.{
  HakoPduErrorType, ok, unsupported, invalid_pdu_key, is_ok, Direction, PduKey, PduResolvedKey,
  key_Eq,
}
use hakoniwa_pdu_endpoint.PduDefinition
use hakoniwa_pdu_endpoint.PduDefinition.{
  PduDefinition, PduDef, resolve, resolve_channel, no_channel,
}
use hakoniwa_pdu_endpoint.Cache.Span.{Bytes, ReadResult}
use hakoniwa_pdu_endpoint.Cache.Dispatch.{PduCache, write_cache, read_cache}
use hakoniwa_pdu_endpoint.Endpoint.Comm.{PduComm}

pub record Endpoint (Comm : Type 0) : Type 0 where
  pub name : StdString
  pub direction : Direction
  pub pdu_def : Option PduDefinition
  pub cache : Option PduCache
  pub comm : Option Comm
  pub per_pdu_callbacks : List (PduResolvedKey × ℕ)

-- A subscriber and what it is called with.
abbrev pub Invocation : Type 0
Invocation = ℕ × (PduResolvedKey × Bytes)

-- The constructor.
abbrev pub fresh : {Comm : Type 0} → StdString → Direction → Endpoint Comm
fresh name direction = record {
  name = name;
  direction = direction;
  pdu_def = none;
  cache = none;
  comm = none;
  per_pdu_callbacks = [];
}

-- The loop that collects the targets, and the loop that calls them.
unfoldable pub targets : List (PduResolvedKey × ℕ) → PduResolvedKey → List ℕ
targets [] pdu_key = []
targets ((sub_key, cb) ∷ rest) pdu_key =
    if sub_key == pdu_key then cb ∷ targets rest pdu_key else targets rest pdu_key

unfoldable pub invoke : List ℕ → PduResolvedKey → Bytes → List Invocation
invoke [] pdu_key bytes = []
invoke (cb ∷ rest) pdu_key bytes = (cb, (pdu_key, bytes)) ∷ invoke rest pdu_key bytes

unfoldable pub notify_subscribers :
    List (PduResolvedKey × ℕ) → PduResolvedKey → Bytes → List Invocation
notify_subscribers subs pdu_key bytes = invoke (targets subs pdu_key) pdu_key bytes

module _ (C : PduComm) where
  abbrev Ep : Type 0
  Ep = Endpoint C.Comm

  unfoldable pub set_comm : Ep → C.Comm → Ep
  set_comm ep comm = record ep { comm = some comm }

  unfoldable pub subscribe_on_recv_callback : Ep → PduResolvedKey → ℕ → Ep
  subscribe_on_recv_callback ep pdu_key cb = record ep {
    per_pdu_callbacks = ep.per_pdu_callbacks ++ ((pdu_key, cb) ∷ []);
  }

  abbrev sent_by_comm :
      Ep → C.Comm × HakoPduErrorType → Option (Ep × HakoPduErrorType × List Invocation)
  sent_by_comm ep (comm, err) = some (record ep { comm = some comm }, err, [])

  abbrev sent_to_cache :
      Ep
      → PduResolvedKey
      → Bytes
      → PduCache × HakoPduErrorType
      → Option (Ep × HakoPduErrorType × List Invocation)
  sent_to_cache ep pdu_key bytes (cache, err) = some (
    record ep { cache = some cache },
    err,
    if is_ok err then notify_subscribers ep.per_pdu_callbacks pdu_key bytes else [],
  )

  -- `none` is the null pointer of an endpoint that was not opened.
  unfoldable pub send :
      Ep → PduResolvedKey → Bytes → Option (Ep × HakoPduErrorType × List Invocation)
  send ep pdu_key bytes = elim ep.comm [
    | some comm ↦ sent_by_comm ep (C.send_comm comm pdu_key bytes)
    | none ↦ elim ep.cache [
      | none ↦ none
      | some cache ↦ sent_to_cache ep pdu_key bytes (write_cache cache pdu_key bytes)
    ]
  ]

  abbrev recv_from_comm :
      Ep → PduResolvedKey → PduCache × ReadResult → Option C.Comm → Option (Ep × ReadResult)
  recv_from_comm ep pdu_key (cache, r) none = some (record ep { cache = some cache }, r)
  recv_from_comm ep pdu_key (cache, r) (some comm) =
      let (comm', r') = C.recv_comm comm pdu_key r.bytes r.received_size in
      if is_ok r.errcode
      then some (record ep { cache = some cache }, r)
      else some (record ep { cache = some cache; comm = some comm' }, r')

  unfoldable pub recv : Ep → PduResolvedKey → Bytes → ℕ → Option (Ep × ReadResult)
  recv ep pdu_key span received_size = elim ep.cache [
    | none ↦ none
    | some cache ↦ recv_from_comm ep pdu_key (read_cache cache pdu_key span received_size) ep.comm
  ]

  -- The overloads for a PDU name.
  unfoldable pub send_named : Ep → PduKey → Bytes → Option (Ep × HakoPduErrorType × List Invocation)
  unfolding send
  send_named ep pdu_key bytes = elim ep.pdu_def [
    | none ↦ some (ep, unsupported, [])
    | some table ↦ elim (resolve table pdu_key.robot pdu_key.pdu) [
      | none ↦ some (ep, invalid_pdu_key, [])
      | some def ↦ send ep (record { robot = pdu_key.robot; channel_id = def.channel_id }) bytes
    ]
  ]

  unfoldable pub recv_named : Ep → PduKey → Bytes → ℕ → Option (Ep × ReadResult)
  unfolding recv
  recv_named ep pdu_key span n = elim ep.pdu_def [
    | none ↦ some (ep, record { errcode = unsupported; bytes = span; received_size = n })
    | some table ↦ elim (resolve table pdu_key.robot pdu_key.pdu) [
      | none ↦ some (ep, record { errcode = invalid_pdu_key; bytes = span; received_size = n })
      | some def ↦ recv ep (record { robot = pdu_key.robot; channel_id = def.channel_id }) span n
    ]
  ]

  unfoldable pub recv_callback : Ep → PduResolvedKey → Bytes → Ep × List Invocation
  recv_callback ep pdu_key bytes = elim ep.cache [
    | none ↦ (ep, [])
    | some cache ↦ (
      record ep { cache = some (write_cache cache pdu_key bytes).0 },
      notify_subscribers ep.per_pdu_callbacks pdu_key bytes,
    )
  ]

  unfoldable pub recv_callbacks : Ep → List (PduResolvedKey × Bytes) → Ep × List Invocation
  unfolding recv_callback
  recv_callbacks ep [] = (ep, [])
  recv_callbacks ep ((pdu_key, bytes) ∷ rest) =
      let (ep', calls) = recv_callback ep pdu_key bytes in
      let (ep'', later) = recv_callbacks ep' rest in (ep'', calls ++ later)

  unfoldable pub process_recv_events : Ep → Ep × List Invocation
  unfolding recv_callbacks
  process_recv_events ep = elim ep.comm [
    | none ↦ (ep, [])
    | some comm ↦
        let (comm', received) = C.poll_comm comm in
        recv_callbacks (record ep { comm = some comm' }) received
  ]

  unfoldable pub get_pdu_size : Ep → PduKey → ℕ
  get_pdu_size ep k = elim ep.pdu_def [
    | none ↦ 0
    | some table ↦ PduDefinition.get_pdu_size table k.robot k.pdu
  ]

  unfoldable pub get_pdu_channel_id : Ep → PduKey → ℕ
  get_pdu_channel_id ep k = elim ep.pdu_def [
    | none ↦ no_channel
    | some table ↦ PduDefinition.get_pdu_channel_id table k.robot k.pdu
  ]

  abbrev name_of : Option PduDef → StdString
  name_of none = []
  name_of (some def) = def.org_name

  unfoldable pub get_pdu_name : Ep → PduResolvedKey → StdString
  get_pdu_name ep k = elim ep.pdu_def [
    | none ↦ []
    | some table ↦ name_of (resolve_channel table k.robot k.channel_id)
  ]
