-- ===== src/PduDefinition/Precedence.antt =====
-- src/pdu_definition.cpp: which definition stays when a set names a PDU twice.
use hakoniwa_pdu_endpoint.Prelude.{
  ◌≡◌, refl, ap, ◌∙◌, arith, Option, some, List, [], ◌∷◌, if◌then◌else◌, StdString, str_Eq,
  str_eq_iff, ◌==◌,
}
use hakoniwa_pdu_endpoint.PduDefinition.{PduDef, PduDefinition, add_definition, resolve}
use hakoniwa_pdu_endpoint.PduDefinition.Lookup.{resolve-add_definition}
use hakoniwa_pdu_endpoint.PduDefinition.Loading.{add_all}

-- The definition of a name that stands last in a list.
abbrev pub last_named : StdString → List PduDef → Option PduDef → Option PduDef
last_named n [] d = d
last_named n (def ∷ rest) d = last_named n rest (if def.org_name == n then some def else d)

-- Of the definitions in a PDU types file the last of a name counts, and one that was there before
-- stays if the file does not name it.
pub resolve-add_all :
    (robot n : StdString) (defs : List PduDef) (table : PduDefinition)
    → resolve (add_all robot defs table) robot n ≡ last_named n defs (resolve table robot n)
unfolding add_all
resolve-add_all robot n [] table = refl
resolve-add_all robot n (def ∷ rest) table =
    resolve-add_all robot n rest (add_definition robot def table)
    ∙ ap (last_named n rest)
        (resolve-add_definition table robot robot n def ∙ ground (arith, str_eq_iff robot robot))
