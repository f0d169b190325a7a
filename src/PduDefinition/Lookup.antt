-- ===== src/PduDefinition/Lookup.antt =====
-- Look-ups in the table after a definition is added.
use hakoniwa_pdu_endpoint.Prelude.{
  ℕ, ◌≡◌, refl, arith, true, Option, none, some, [], ◌∷◌, if◌then◌else◌, ◌&&◌, StdString, str_lt,
  str_Eq, str_eq_iff, ◌==◌, Option-cases, inl, inr, is_some,
}
use hakoniwa_pdu_endpoint.Prelude.Map.{Map, find, assign_ordered, find-assign_ordered}
use hakoniwa_pdu_endpoint.PduDefinition.{
  PduDef, PduDefinition, robot_map, touch, add_definition, resolve, find_channel, resolve_channel,
}

-- A stored definition is found under its robot and name, and every other pair resolves as before.
pub resolve-add_definition :
    (defs : PduDefinition) (robot r n : StdString) (def : PduDef)
    → resolve (add_definition robot def defs) r n
      ≡ (if robot == r && def.org_name == n then some def else resolve defs r n)
unfolding resolve add_definition find
resolve-add_definition defs robot r n def = ground (
  arith,
  str_eq_iff robot r,
  find-assign_ordered str_lt robot r
      (assign_ordered str_lt def.org_name def (robot_map (find robot defs))) defs,
  find-assign_ordered str_lt def.org_name n def (robot_map (find robot defs)),
)

pub resolve-touch :
    (defs : PduDefinition) (robot r n : StdString)
    → resolve (touch robot defs) r n ≡ resolve defs r n
unfolding resolve touch find
resolve-touch defs robot r n = ground (
  arith,
  str_eq_iff robot r,
  find-assign_ordered str_lt robot r (robot_map (find robot defs)) defs,
)

find_channel-eq :
    (c : ℕ) (m : Map StdString PduDef) (d : PduDef) → find_channel c m ≡ some d → d.channel_id ≡ c
unfolding find_channel
find_channel-eq c [] d h = cc
find_channel-eq c ((n, def) ∷ m) d h = ground (arith, find_channel-eq c m d)

-- The definition that is found under a channel id has that id.
pub resolve_channel-eq :
    (defs : PduDefinition) (robot : StdString) (c : ℕ) (d : PduDef)
    → resolve_channel defs robot c ≡ some d
    → d.channel_id ≡ c
unfolding resolve_channel
resolve_channel-eq defs robot c d h = elim (Option-cases (find robot defs)) [
  | inl e ↦ cc (rw (e, resolve_channel) at h)
  | inr (m, e) ↦ find_channel-eq c m d (rw (e, resolve_channel) at h)
]

-- And an id that a definition has is found, if under another definition of that id.
find-find_channel :
    (n : StdString) (m : Map StdString PduDef) (d : PduDef)
    → find n m ≡ some d
    → is_some (find_channel d.channel_id m) ≡ true
unfolding find find_channel
find-find_channel n [] d h = cc
find-find_channel n ((j, def) ∷ m) d h = ground (arith, find-find_channel n m d)

pub resolve-resolve_channel :
    (defs : PduDefinition) (robot n : StdString) (d : PduDef)
    → resolve defs robot n ≡ some d
    → is_some (resolve_channel defs robot d.channel_id) ≡ true
unfolding resolve resolve_channel
resolve-resolve_channel defs robot n d h = elim (Option-cases (find robot defs)) [
  | inl e ↦ cc (rw (e, resolve) at h)
  | inr (m, e) ↦ rw (e, resolve_channel) (find-find_channel n m d (rw (e, resolve) at h))
]

pub Option-is_some {ℓ} : {A : Type ℓ} (o : Option A) → is_some o ≡ true → (a : A) × (o ≡ some a)
Option-is_some none h = cc
Option-is_some (some a) h = (a, refl)

-- A PDU that is known by name is also found by its channel id, and the definition that is found then
-- has that id.
pub resolve_round_trip :
    (defs : PduDefinition) (robot n : StdString) (d : PduDef)
    → resolve defs robot n ≡ some d
    → (d' : PduDef) × (resolve_channel defs robot d.channel_id ≡ some d')
      × (d'.channel_id ≡ d.channel_id)
resolve_round_trip defs robot n d h =
    let (d', e) =
      Option-is_some (resolve_channel defs robot d.channel_id)
        (resolve-resolve_channel defs robot n d h) in
    (d', e, resolve_channel-eq defs robot d.channel_id d' e)
