-- ===== src/Gateway/Identity/Binding.antt =====
-- What a binding code does, from its creation on one channel to its claim on another.
use xbotics_hey_robot.Prelude.{
  ℕ, ◌+◌, ◌<◌, ◌≡◌, refl, subst, sym, ap, ◌∙◌, String, true, false, Option, none, some, List, [],
  ◌∷◌, arith, if◌then◌else◌, ltb, ◌==◌, eq_iff, or_else, Bool-cases, Option-cases, inl, inr,
}
use xbotics_hey_robot.Prelude.Dict.{
  lookup, insert, pop, lookup-insert, lookup-insert_other, lookup-pop,
}
use xbotics_hey_robot.Prelude.Text.{strip, truthy_text, upper}
use xbotics_hey_robot.Protocol.{Envelope}
use xbotics_hey_robot.Gateway.Identity.{
  IdentityResolution, PendingBinding, Resolver, plain, or_none, candidate_keys, bound_user,
  first_bound, default_resolution, resolve, bind_keys, load_state, is_expired, create_binding,
  claim_found, claim_binding,
}

bind_keys-kept :
    (keys : List String) (key user : String) (d : List (String × String))
    → lookup key d ≡ some user
    → lookup key (bind_keys keys user d) ≡ some user
unfolding bind_keys
bind_keys-kept [] key user d h = h
bind_keys-kept (k ∷ keys) key user d h =
    bind_keys-kept keys key user (insert k user d) (elim (Bool-cases (k == key)) [
      | inl same ↦
          let here : k ≡ key = ground (arith, same, eq_iff k key) in
          ground (arith, here, lookup-insert k user d)
      | inr differs ↦ lookup-insert_other k key user d differs ∙ h
    ])

first_bound-bound :
    (r : Resolver) (key user : String) (keys : List String)
    → truthy_text user ≡ true
    → lookup key r.now_bound.dynamic ≡ some user
    → first_bound r (key ∷ keys) ≡ some (record { user_id = some user; matched_key = some key })
unfolding first_bound bound_user
first_bound-bound r key user keys real h = ground (arith, real, h)

abbrev HasUser : Option String → Type 0
HasUser none = Unit
HasUser (some user) = truthy_text user ≡ true

or_none-HasUser : (text : String) → HasUser (or_none text)
or_none-HasUser text = elim (Bool-cases (truthy_text text)) [
  | inl real ↦ rw real real
  | inr blank ↦ rw blank tt
]

resolve-bound :
    (r : Resolver) (e : Envelope) (key user : String) (keys : List String)
    → candidate_keys e ≡ key ∷ keys
    → truthy_text (plain e.user_id) ≡ false
    → r.spec.enabled ≡ true
    → truthy_text user ≡ true
    → lookup key r.now_bound.dynamic ≡ some user
    → (resolve r e).user_id ≡ some user
unfolding resolve
resolve-bound r e key user keys known plain_id enabled real h =
    ground (arith, known, plain_id, enabled, first_bound-bound r key user keys real h)

bind_keys-first :
    (key user : String) (keys : List String) (d : List (String × String))
    → lookup key (bind_keys (key ∷ keys) user d) ≡ some user
unfolding bind_keys
bind_keys-first key user keys d =
    bind_keys-kept keys key user (insert key user d) (lookup-insert key user d)

or_else-real :
    (o : Option String) (new_user : String)
    → truthy_text new_user ≡ true
    → HasUser o
    → truthy_text (or_else o new_user) ≡ true
or_else-real none new_user real h = real
or_else-real (some user) new_user real h = h

claim_binding-unknown :
    (now : ℕ) (text : String) (e : Envelope) (r : Resolver)
    → lookup (upper (strip text)) r.now_bound.pending ≡ none
    → claim_binding now text e r ≡ (none, r)
unfolding claim_binding
claim_binding-unknown now text e r missing = rw (missing, claim_binding) refl

module _ (now : ℕ) (b : PendingBinding) (text key : String) (keys : List String) (e : Envelope)
    (r : Resolver) where
  claim_binding-found :
      lookup (upper (strip text)) r.now_bound.pending ≡ some b
      → upper (strip text) ≡ b.code
      → is_expired now b ≡ false
      → truthy_text b.user_id ≡ true
      → candidate_keys e ≡ key ∷ keys
      → let c = claim_binding now text e r in
        (c.0 ≡ some b)
        × (c.1.spec ≡ r.spec)
        × (lookup key c.1.now_bound.dynamic ≡ some b.user_id)
        × (c.1.saved.dynamic ≡ c.1.now_bound.dynamic)
        × (lookup (upper (strip text)) c.1.now_bound.pending ≡ none)
  unfolding claim_binding claim_found
  claim_binding-found found spelled fresh real known =
      rw (found, claim_binding, fresh)
        (
          refl,
          refl,
          ap (λ ks. lookup key (bind_keys ks b.user_id r.now_bound.dynamic)) known
              ∙ bind_keys-first key b.user_id keys r.now_bound.dynamic,
          refl,
          ap (λ c. lookup c (pop b.code r.now_bound.pending)) spelled
              ∙ lookup-pop b.code r.now_bound.pending,
        )

bound_user-HasUser : (r : Resolver) (key : String) → HasUser (bound_user r key)
unfolding bound_user
bound_user-HasUser r key = elim (Option-cases (lookup key r.now_bound.dynamic)) [
  | inr (user, found) ↦ elim (Bool-cases (truthy_text user)) [
    | inl real ↦ rw (found, bound_user, real) real
    | inr blank ↦ rw (found, bound_user, blank) (static key)
  ]
  | inl missing ↦ rw (missing, bound_user) (static key)
]
  where
    static :
        (key : String)
        → HasUser (elim (lookup key r.spec.bindings) as (λ x. Option String) [
          | some user ↦ or_none user
          | none ↦ none
        ])
    static key = elim (Option-cases (lookup key r.spec.bindings)) [
      | inr (user, found) ↦ rw found (or_none-HasUser user)
      | inl missing ↦ rw missing tt
    ]

abbrev IsFound : Option IdentityResolution → Type 0
IsFound none = Unit
IsFound (some m) = HasUser m.user_id

first_bound-HasUser : (r : Resolver) (keys : List String) → IsFound (first_bound r keys)
unfolding first_bound
first_bound-HasUser r [] = tt
first_bound-HasUser r (key ∷ keys) = elim (Option-cases (bound_user r key)) [
  | inr (user, found) ↦ rw (found, first_bound) (subst HasUser found (bound_user-HasUser r key))
  | inl missing ↦ rw (missing, first_bound) (first_bound-HasUser r keys)
]

found-HasUser :
    (o : Option IdentityResolution) (d : IdentityResolution)
    → IsFound o
    → HasUser d.user_id
    → HasUser (or_else o d).user_id
found-HasUser none d h k = k
found-HasUser (some m) d h k = h

resolve-HasUser : (r : Resolver) (e : Envelope) → HasUser (resolve r e).user_id
unfolding resolve
resolve-HasUser r e = elim (Bool-cases (truthy_text (plain e.user_id))) [
  | inl named ↦ rw (named, resolve) named
  | inr unnamed ↦ elim (Bool-cases r.spec.enabled) [
    | inr off ↦ rw (unnamed, resolve, off) tt
    | inl on ↦
        rw (unnamed, resolve, on)
          (found-HasUser (first_bound r (candidate_keys e)) (default_resolution r.spec)
            (first_bound-HasUser r (candidate_keys e))
            (or_none-HasUser (plain r.spec.default_user_id)))
  ]
]

create_binding-found :
    (now : ℕ) (code new_user : String) (ttl : ℕ) (e : Envelope) (r : Resolver)
    → truthy_text new_user ≡ true
    → let m = create_binding now code new_user ttl e r in
      (lookup code m.1.now_bound.pending ≡ some m.0)
      × (m.0.code ≡ code)
      × (truthy_text m.0.user_id ≡ true)
      × (m.1.spec ≡ r.spec)
      × (m.0.expires_at ≡ now + (if ltb ttl 30 then 30 else ttl))
unfolding create_binding
create_binding-found now code new_user ttl e r real = (
  lookup-insert code (create_binding now code new_user ttl e r).0 r.now_bound.pending,
  refl,
  or_else-real (resolve r e).user_id new_user real (resolve-HasUser r e),
  refl,
  refl,
)

-- A code created on one channel and claimed in time on another, in whatever case and with whatever
-- spaces around it, answers with its binding; from then on, and after a restart, the claiming
-- envelope, where it names no user and has any key, resolves to the user of the binding; and the
-- code can not be claimed again.
pub claim_binding-create_binding :
    (now later again : ℕ) (code new_user text key : String) (keys : List String) (ttl : ℕ)
    (e e' e'' : Envelope) (r : Resolver)
    → truthy_text new_user ≡ true
    → upper (strip text) ≡ code
    → later < now + (if ltb ttl 30 then 30 else ttl)
    → r.spec.enabled ≡ true
    → truthy_text (plain e'.user_id) ≡ false
    → candidate_keys e' ≡ key ∷ keys
    → let m = create_binding now code new_user ttl e r in
      let c = claim_binding later text e' m.1 in
      (c.0 ≡ some m.0)
      × ((resolve c.1 e').user_id ≡ some m.0.user_id)
      × ((resolve (load_state again c.1) e').user_id ≡ some m.0.user_id)
      × (claim_binding again text e'' c.1 ≡ (none, c.1))
unfolding load_state
claim_binding-create_binding now later again code new_user text key keys ttl e e' e'' r drawn
      spelled soon enabled unnamed known =
    let m = create_binding now code new_user ttl e r in
    let made = create_binding-found now code new_user ttl e r drawn in
    let c = claim_binding later text e' m.1 in
    let fresh : is_expired later m.0 ≡ false = ground (arith, soon, made.4) in
    let got =
      claim_binding-found later m.0 text key keys e' m.1
        (ap (λ k. lookup k m.1.now_bound.pending) spelled ∙ made.0) (spelled ∙ sym made.1) fresh
        made.2 known in
    let open_spec : c.1.spec.enabled ≡ true = ap (λ s. s.enabled) (got.1 ∙ made.3) ∙ enabled in
    (
      got.0,
      resolve-bound c.1 e' key m.0.user_id keys known unnamed open_spec made.2 got.2,
      resolve-bound (load_state again c.1) e' key m.0.user_id keys known unnamed open_spec made.2
          (ap (lookup key) got.3 ∙ got.2),
      claim_binding-unknown again text e'' c.1 got.4,
    )
