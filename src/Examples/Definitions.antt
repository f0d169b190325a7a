-- ===== src/Examples/Definitions.antt =====
-- The definition table at concrete inputs.
use hakoniwa_pdu_endpoint.Prelude.{◌≡◌, refl, some, [], ◌∷◌, codes, str_Eq}
use hakoniwa_pdu_endpoint.Prelude.Map.{find}
use hakoniwa_pdu_endpoint.PduDefinition.{PduDef, resolve}
use hakoniwa_pdu_endpoint.PduDefinition.Loading.{add_all, parse_writers}
use hakoniwa_pdu_endpoint.PduDefinition.Writers.{resolve-parse_writers}
use hakoniwa_pdu_endpoint.PduDefinition.Precedence.{last_named, resolve-add_all}
use hakoniwa_pdu_endpoint.Examples.Documents.{table, pos_def, documents, writer_doc}

abbrev wide_def : PduDef
wide_def = record pos_def { pdu_size = 80 }

resolve-add_all_example :
    resolve (add_all (codes "Drone") (pos_def ∷ wide_def ∷ []) table) (codes "Drone") (codes "pos")
    ≡ last_named
        (codes "pos")
        (pos_def ∷ wide_def ∷ [])
        (resolve table (codes "Drone") (codes "pos"))
resolve-add_all_example =
    resolve-add_all (codes "Drone") (codes "pos") (pos_def ∷ wide_def ∷ []) table

pos_resolves : resolve table (codes "Drone") (codes "pos") ≡ some pos_def
unfolding resolve find
pos_resolves = refl

resolve-parse_writers_example :
    resolve
      (parse_writers documents (codes "Drone") (writer_doc ∷ []) table).0
      (codes "Drone")
      (codes "pos")
    ≡ some pos_def
resolve-parse_writers_example =
    resolve-parse_writers documents (writer_doc ∷ []) (codes "Drone") (codes "Drone") (codes "pos")
      pos_def table pos_resolves
