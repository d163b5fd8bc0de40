-- ===== src/Tools/Schema/Idempotence.antt =====
-- Validated arguments are validated again to themselves, so a call that the registry prepared is
-- not changed or refused by the runner, which validates it again.
use xbotics_hey_robot.Prelude.{
  ◌≡◌, refl, subst, String, Bool, true, false, not, ◌||◌, none, some, List, [], ◌∷◌, arith,
  if◌then◌else◌, ◌==◌, eq_refl, any, is_some, Option-cases, Bool-cases, inl, inr,
}
use xbotics_hey_robot.Prelude.Result.{Result, ok}
use xbotics_hey_robot.Prelude.Value.{
  Value, Fields, null, boolean, number, string, array, dict, end, entry, get, get_or_null, put,
  keys, get-put,
}
use xbotics_hey_robot.Tools.Schema.{
  Python, SchemaError, has_key, kind_error, with_defaults, is_false, unknown_names,
  unexpected_error, unknown_error, resolved_error, validate_object, validate_arguments,
}

-- What the default of one property makes of the arguments.
abbrev with_default : String → Value → Fields → Fields
with_default name definition r = if has_key r name then r else elim definition [
  | dict d ↦ elim (get d "default") [ some v ↦ put r name v | none ↦ r ]
  | _ ↦ r
]

has_key-put :
    (d : Fields) (k j : String) (v : Value) → has_key (put d k v) j ≡ (k == j || has_key d j)
unfolding has_key
has_key-put d k j v = ground (arith, get-put d k j v)

-- A default adds its own key at most.
has_key-with_default :
    (name : String) (definition : Value) (r : Fields) (k : String)
    → has_key r k ≡ true
    → has_key (with_default name definition r) k ≡ true
has_key-with_default name (dict d) r k h = elim (Option-cases (get d "default")) [
  | inl none_given ↦ ground (arith, h, none_given)
  | inr (v, given) ↦ ground (arith, h, given, has_key-put r name k v)
]
has_key-with_default name null r k h = ground (arith, h)
has_key-with_default name (boolean b) r k h = ground (arith, h)
has_key-with_default name (number z) r k h = ground (arith, h)
has_key-with_default name (string s) r k h = ground (arith, h)
has_key-with_default name (array vs) r k h = ground (arith, h)

has_key-with_defaults :
    (ps r : Fields) (k : String) → has_key r k ≡ true → has_key (with_defaults ps r) k ≡ true
unfolding with_defaults
has_key-with_defaults end r k h = h
has_key-with_defaults (entry name definition ps) r k h =
    has_key-with_defaults ps (with_default name definition r) k
      (has_key-with_default name definition r k h)

abbrev has_default : Value → Bool
has_default (dict d) = is_some (get d "default")
has_default v = false

-- Every property with a default is there.
abbrev Filled : Fields → Fields → Type 0
Filled end r = Unit
Filled (entry name definition ps) r =
    (has_default definition ≡ true → has_key r name ≡ true) × Filled ps r

with_default-fills :
    (name : String) (definition : Value) (r : Fields)
    → has_default definition ≡ true
    → has_key (with_default name definition r) name ≡ true
with_default-fills name (dict d) r h = elim (Option-cases (get d "default")) [
  | inl none_given ↦ absurd (ground (arith, h, none_given))
  | inr (v, given) ↦ ground (arith, given, has_key-put r name name v, eq_refl name)
]
with_default-fills name null r h = absurd (ground (arith, h))
with_default-fills name (boolean b) r h = absurd (ground (arith, h))
with_default-fills name (number z) r h = absurd (ground (arith, h))
with_default-fills name (string s) r h = absurd (ground (arith, h))
with_default-fills name (array vs) r h = absurd (ground (arith, h))

with_defaults-Filled : (ps r : Fields) → Filled ps (with_defaults ps r)
unfolding with_defaults
with_defaults-Filled end r = tt
with_defaults-Filled (entry name definition ps) r = (
  λ h.
      has_key-with_defaults ps (with_default name definition r) name
        (with_default-fills name definition r h),
  with_defaults-Filled ps (with_default name definition r),
)

with_default-filled :
    (name : String) (definition : Value) (r : Fields)
    → (has_default definition ≡ true → has_key r name ≡ true)
    → with_default name definition r ≡ r
with_default-filled name (dict d) r h = elim (Option-cases (get d "default")) [
  | inl none_given ↦ ground (arith, none_given)
  | inr (v, given) ↦ rw (h (rw given refl)) refl
]
with_default-filled name null r h = ground arith
with_default-filled name (boolean b) r h = ground arith
with_default-filled name (number z) r h = ground arith
with_default-filled name (string s) r h = ground arith
with_default-filled name (array vs) r h = ground arith

with_defaults_done : (ps r : Fields) → Filled ps r → with_defaults ps r ≡ r
unfolding with_defaults
with_defaults_done end r f = refl
with_defaults_done (entry name definition ps) r f =
    rw (with_default-filled name definition r f.0) (with_defaults_done ps r f.1)

-- No key but those of the properties.
abbrev has_unknown : Fields → Fields → Bool
has_unknown ps d = any (λ k. not (has_key ps k)) (keys d)

unknown_names_nil : (ps d : Fields) → (unknown_names ps d ≡ []) → has_unknown ps d ≡ false
unfolding unknown_names keys
unknown_names_nil ps end h = refl
unknown_names_nil ps (entry k v d) h = elim (Bool-cases (has_key ps k)) [
  | inl known ↦ ground (arith, known, unknown_names_nil ps d (ground (arith, known, h)))
  | inr strange ↦ absurd (ground (arith, strange, h))
]

nil_of_known : (ps d : Fields) → has_unknown ps d ≡ false → unknown_names ps d ≡ []
unfolding unknown_names keys
nil_of_known ps end h = refl
nil_of_known ps (entry k v d) h = elim (Bool-cases (has_key ps k)) [
  | inl known ↦ ground (arith, known, nil_of_known ps d (ground (arith, known, h)))
  | inr strange ↦ absurd (ground (arith, strange, h))
]

has_unknown-put :
    (ps d : Fields) (k : String) (v : Value)
    → has_key ps k ≡ true
    → has_unknown ps d ≡ false
    → has_unknown ps (put d k v) ≡ false
unfolding keys put
has_unknown-put ps end k v h g = ground (arith, h)
has_unknown-put ps (entry j w d) k v h g = ground (arith, h, g, has_unknown-put ps d k v h)

has_unknown-with_default :
    (ps r : Fields) (name : String) (definition : Value)
    → has_key ps name ≡ true
    → has_unknown ps r ≡ false
    → has_unknown ps (with_default name definition r) ≡ false
has_unknown-with_default ps r name (dict d) h g = elim (Option-cases (get d "default")) [
  | inl none_given ↦ ground (arith, g, none_given)
  | inr (v, given) ↦ ground (arith, g, given, has_unknown-put ps r name v h g)
]
has_unknown-with_default ps r name null h g = ground (arith, g)
has_unknown-with_default ps r name (boolean b) h g = ground (arith, g)
has_unknown-with_default ps r name (number z) h g = ground (arith, g)
has_unknown-with_default ps r name (string s) h g = ground (arith, g)
has_unknown-with_default ps r name (array vs) h g = ground (arith, g)

has_unknown-with_defaults :
    (ps qs r : Fields)
    → has_unknown ps qs ≡ false
    → has_unknown ps r ≡ false
    → has_unknown ps (with_defaults qs r) ≡ false
unfolding with_defaults keys
has_unknown-with_defaults ps end r h g = g
has_unknown-with_defaults ps (entry name definition qs) r h g =
    has_unknown-with_defaults ps qs (with_default name definition r) (ground (arith, h))
      (has_unknown-with_default ps r name definition (ground (arith, h)) g)

has_unknown-entry :
    (j : String) (w : Value) (ps d : Fields)
    → has_unknown ps d ≡ false
    → has_unknown (entry j w ps) d ≡ false
unfolding keys has_key get
has_unknown-entry j w ps end h = refl
has_unknown-entry j w ps (entry k v d) h = ground (arith, h, has_unknown-entry j w ps d)

has_unknown_self : (ps : Fields) → has_unknown ps ps ≡ false
unfolding keys has_key get
has_unknown_self end = refl
has_unknown_self (entry k v ps) =
    ground (arith, eq_refl k, has_unknown-entry k v ps ps (has_unknown_self ps))

unexpected_error-none : (ks : List String) → unexpected_error ks ≡ none → ks ≡ []
unexpected_error-none [] h = refl
unexpected_error-none (k ∷ ks) h = absurd (ground (arith, h))

unknown_error-with_defaults :
    (schema ps d : Fields)
    → unknown_error schema ps d ≡ none
    → unknown_error schema ps (with_defaults ps d) ≡ none
unfolding unknown_error
unknown_error-with_defaults schema ps d h =
    elim (Bool-cases (is_false (get_or_null schema "additionalProperties"))) [
      | inr lax ↦ rw lax refl
      | inl strict ↦
          let clean : unknown_names ps d ≡ [] =
            unexpected_error-none (unknown_names ps d) (ground (arith, strict, h)) in
          let known =
            has_unknown-with_defaults ps ps d (has_unknown_self ps)
              (unknown_names_nil ps d clean) in
          rw (strict, nil_of_known ps (with_defaults ps d) known) refl
    ]

module _ (py : Python) (schema : Fields) where
  validate_object-again :
      (ps arguments : Fields) {r : Fields}
      → validate_object py schema ps arguments ≡ ok r
      → validate_object py schema ps r ≡ ok r
  unfolding validate_object
  validate_object-again ps arguments {r = r} h =
      elim (Option-cases (unknown_error schema ps arguments)) [
        | inr (e, strange) ↦ absurd (ground (arith, h, strange))
        | inl known ↦
            let filled = with_defaults ps arguments in
            elim (Option-cases (resolved_error py schema ps filled)) [
              | inr (e, refused) ↦ absurd (ground (arith, h, known, refused))
              | inl accepted ↦
                  let same : filled ≡ r = ground (arith, h, known, accepted) in
                  subst (λ x. validate_object py schema ps x ≡ ok x) same
                    (ground (
                      arith,
                      unknown_error-with_defaults schema ps arguments known,
                      with_defaults_done ps filled (with_defaults-Filled ps arguments),
                      accepted,
                    ))
            ]
      ]

  -- Arguments that a schema accepted, with the defaults filled in, are accepted again by it, and
  -- nothing is filled in or changed.
  pub validate_arguments-again :
      (arguments : Fields) {r : Fields}
      → validate_arguments py schema arguments ≡ ok r
      → validate_arguments py schema r ≡ ok r
  unfolding validate_arguments
  validate_arguments-again arguments {r = r} h =
      elim (Option-cases (kind_error (get_or_null schema "type"))) [
        | inr (e, refused) ↦ absurd (ground (arith, h, refused))
        | inl kind ↦ elim (Option-cases (get schema "properties")) [
          | inl bare ↦
              rw (kind, validate_arguments, bare)
                (validate_object-again end arguments (ground (arith, h, kind, bare)))
          | inr (v, given) ↦
              rw (kind, validate_arguments, given) (cases v (ground (arith, h, kind, given)))
        ]
      ]
    where
      again : Value → Fields → Result SchemaError Fields
      again v a = elim v [ dict properties ↦ validate_object py schema properties a | _ ↦ ok a ]

      cases : (v : Value) → again v arguments ≡ ok r → again v r ≡ ok r
      cases (dict ps) k = validate_object-again ps arguments k
      cases null k = refl
      cases (boolean b) k = refl
      cases (number z) k = refl
      cases (string s) k = refl
      cases (array vs) k = refl
