-- ===== src/PduDefinition/Writers.antt =====
-- src/pdu_definition.cpp, load_legacy_: the entries of `shm_pdu_writers` and the definitions that are
-- there before them. An action that reads the document leaves the table alone.
use hakoniwa_pdu_endpoint.Prelude.{
  ◌≡◌, refl, ap, ◌∙◌, subst, arith, Bool, true, false, Option, none, some, List, [], ◌∷◌, StdString,
  String, str_Eq, str_eq_iff, is_some, codes,
}
use hakoniwa_pdu_endpoint.Prelude.Map.{find}
use hakoniwa_pdu_endpoint.Json.{Json}
use hakoniwa_pdu_endpoint.PduDefinition.{PduDef, PduDefinition, touch, add_definition, resolve}
use hakoniwa_pdu_endpoint.PduDefinition.Lookup.{resolve-add_definition, resolve-touch}
use hakoniwa_pdu_endpoint.PduDefinition.Loading.{
  Outcome, done, failed, threw, Load, then_do, or_throw, known, at, at_string, at_channel, at_size,
  legacy_def, store, new_writer, parse_writer, parse_writers, ◌>>=◌,
}

-- The table is as before, and a value that is returned satisfies the predicate.
abbrev Ends : {A : Type 0} → PduDefinition → (A → Type 0) → PduDefinition × Outcome A → Type 0
Ends t Q (t', done a) = (t' ≡ t) × Q a
Ends t Q (t', failed) = t' ≡ t
Ends t Q (t', threw) = t' ≡ t

abbrev Reads : {A : Type 0} → Load A → (A → Type 0) → Type 0
Reads m Q = (t : PduDefinition) → Ends t Q (m t)

Ends-then_do :
    {A B : Type 0} (P : A → Type 0) (Q : B → Type 0) (t : PduDefinition)
    (x : PduDefinition × Outcome A) (f : A → Load B)
    → Ends t P x
    → ((a : A) → P a → Reads (f a) Q)
    → Ends t Q (then_do x f)
Ends-then_do P Q t (t', done a) f (e, p) h = subst (λ s. Ends s Q (f a t')) e (h a p t')
Ends-then_do P Q t (t', failed) f e h = e
Ends-then_do P Q t (t', threw) f e h = e

Reads-bind :
    {A B : Type 0} (P : A → Type 0) (Q : B → Type 0) (m : Load A) (f : A → Load B)
    → Reads m P
    → ((a : A) → P a → Reads (f a) Q)
    → Reads (m >>= f) Q
Reads-bind P Q m f h k t = Ends-then_do P Q t (m t) f (h t) k

-- The value of an option that equals another one.
Reads-or_throw : {A : Type 0} (o o' : Option A) → o' ≡ o → Reads (or_throw o) (λ a. o' ≡ some a)
Reads-or_throw none o' e t = refl
Reads-or_throw (some a) o' e t = (refl, e)

-- Text under a key, if there is any.
abbrev text_of : (J : Json) → Option J.Value → Option StdString
text_of J none = none
text_of J (some w) = J.get_string w

abbrev Any : {A : Type 0} → A → Type 0
Any a = Unit

Reads-Any : {A : Type 0} (o : Option A) → Reads (or_throw o) Any
Reads-Any none t = refl
Reads-Any (some a) t = (refl, tt)

module _ (J : Json) where
  abbrev Named : J.Value → StdString → Type 0
  Named v s = text_of J (J.member v (codes "org_name")) ≡ some s

  Reads-org_name : (v : J.Value) → Reads (at_string J v "org_name") (Named v)
  Reads-org_name v =
      Reads-bind (λ w. J.member v (codes "org_name") ≡ some w) (Named v) (at J v "org_name")
        (λ w. or_throw (J.get_string w))
        (Reads-or_throw (J.member v (codes "org_name")) (J.member v (codes "org_name")) refl)
        (λ w e.
          Reads-or_throw (J.get_string w) (text_of J (J.member v (codes "org_name")))
            (ap (text_of J) e))

  Reads-at :
      {A : Type 0} (v : J.Value) (key : String) (get : J.Value → Option A)
      → Reads (at J v key >>= λ w. or_throw (get w)) Any
  Reads-at v key get =
      Reads-bind Any Any (at J v key) (λ w. or_throw (get w)) (Reads-Any (J.member v (codes key)))
        (λ w e. Reads-Any (get w))

  Reads-legacy_def : (v : J.Value) → Reads (legacy_def J v) (λ (d : PduDef). Named v d.org_name)
  unfolding legacy_def
  Reads-legacy_def v =
      let Q = λ (d : PduDef). Named v d.org_name in
      Reads-bind Any Q (at_string J v "type") _ (Reads-at v "type" J.get_string) (λ type _.
        Reads-bind (Named v) Q (at_string J v "org_name") _ (Reads-org_name v) (λ org_name named.
          Reads-bind Any Q (at_channel J v "channel_id") _ (Reads-at v "channel_id" J.get_int)
            (λ channel_id _.
              Reads-bind Any Q (at_size J v "pdu_size") _ (Reads-at v "pdu_size" J.get_size)
                (λ pdu_size _ t. (refl, named)))))

-- `known`, read off `resolve`.
known-resolve :
    (table : PduDefinition) (robot n : StdString)
    → known robot n table ≡ is_some (resolve table robot n)
unfolding resolve find
known-resolve table robot n = ground arith

-- A definition whose robot and name were not there hides none that was.
unknown_keeps :
    (table : PduDefinition) (robot r n : StdString) (def d : PduDef)
    → known robot def.org_name table ≡ false
    → resolve table r n ≡ some d
    → resolve (add_definition robot def table) r n ≡ some d
unknown_keeps table robot r n def d k h =
    resolve-add_definition table robot r n def
    ∙ ground (
      arith,
      str_eq_iff robot r,
      str_eq_iff def.org_name n,
      known-resolve table robot def.org_name,
    )

some_eq : {A : Type 0} (o : Option A) (a b : A) → o ≡ some a → o ≡ some b → a ≡ b
some_eq o a b p q = ground arith

module _ (J : Json) where
  added_keeps :
      (v : J.Value) (robot org_name r n : StdString) (d : PduDef) (t : PduDefinition)
      (x : PduDefinition × Outcome PduDef)
      → Ends t (λ (def : PduDef). Named J v def.org_name) x
      → Named J v org_name
      → known robot org_name t ≡ false
      → resolve t r n ≡ some d
      → resolve (then_do x (λ def. store (add_definition robot def))).0 r n ≡ some d
  added_keeps v robot org_name r n d t (t', done def) (e, p) q k h =
      unknown_keeps t' robot r n def d
        (ap (λ s. known robot def.org_name s) e
          ∙ ap (λ s. known robot s t) (some_eq _ def.org_name org_name p q)
          ∙ k)
        (ap (λ s. resolve s r n) e ∙ h)
  added_keeps v robot org_name r n d t (t', failed) e q k h = ap (λ s. resolve s r n) e ∙ h
  added_keeps v robot org_name r n d t (t', threw) e q k h = ap (λ s. resolve s r n) e ∙ h

  new_writer_keeps :
      (b : Bool) (v : J.Value) (robot org_name r n : StdString) (d : PduDef) (t : PduDefinition)
      → known robot org_name t ≡ b
      → Named J v org_name
      → resolve t r n ≡ some d
      → resolve (new_writer J b robot v t).0 r n ≡ some d
  new_writer_keeps true v robot org_name r n d t k q h = h
  new_writer_keeps false v robot org_name r n d t k q h =
      added_keeps v robot org_name r n d t (legacy_def J v t) (Reads-legacy_def J v t) q k h

  writer_keeps :
      (v : J.Value) (robot r n : StdString) (d : PduDef) (t : PduDefinition)
      (x : PduDefinition × Outcome StdString)
      → Ends t (Named J v) x
      → resolve t r n ≡ some d
      → resolve
          (then_do x (λ org_name. store (touch robot) >>= λ _.
            λ defs. new_writer J (known robot org_name defs) robot v defs)).0
          r
          n
        ≡ some d
  writer_keeps v robot r n d t (t', done org_name) (e, q) h =
      new_writer_keeps (known robot org_name (touch robot t')) v robot org_name r n d
        (touch robot t') refl q (resolve-touch t' robot r n ∙ ap (λ s. resolve s r n) e ∙ h)
  writer_keeps v robot r n d t (t', failed) e h = ap (λ s. resolve s r n) e ∙ h
  writer_keeps v robot r n d t (t', threw) e h = ap (λ s. resolve s r n) e ∙ h

  parse_writer_keeps :
      (v : J.Value) (robot r n : StdString) (d : PduDef) (t : PduDefinition)
      → resolve t r n ≡ some d
      → resolve (parse_writer J robot v t).0 r n ≡ some d
  unfolding parse_writer
  parse_writer_keeps v robot r n d t h =
      writer_keeps v robot r n d t (at_string J v "org_name" t) (Reads-org_name J v t) h

  writers_keep :
      (x : PduDefinition × Outcome (Unit {0})) (rest : List J.Value) (robot r n : StdString)
      (d : PduDef)
      → ((t : PduDefinition)
          → resolve t r n ≡ some d
          → resolve (parse_writers J robot rest t).0 r n ≡ some d)
      → resolve x.0 r n ≡ some d
      → resolve (then_do x (λ _. parse_writers J robot rest)).0 r n ≡ some d
  writers_keep (t, done u) rest robot r n d k h = k t h
  writers_keep (t, failed) rest robot r n d k h = h
  writers_keep (t, threw) rest robot r n d k h = h

  -- The writers of a robot change no definition that was there before them, whatever their entries
  -- hold, also if one of them makes the load fail.
  pub resolve-parse_writers :
      (vs : List J.Value) (robot r n : StdString) (d : PduDef) (table : PduDefinition)
      → resolve table r n ≡ some d
      → resolve (parse_writers J robot vs table).0 r n ≡ some d
  unfolding parse_writers
  resolve-parse_writers [] robot r n d table h = h
  resolve-parse_writers (v ∷ rest) robot r n d table h =
      writers_keep (parse_writer J robot v table) rest robot r n d
        (λ t k. resolve-parse_writers rest robot r n d t k)
        (parse_writer_keeps v robot r n d table h)
