-- ===== src/Episodes/Aliases.antt =====
-- A record that is appended under an alias of an episode is in its history.
use xbotics_hey_robot.Prelude.{
  ℕ, zero, suc, ◌-◌, ◌≤◌, ◌≡◌, refl, ap, ◌∙◌, String, true, some, List, [], ◌∷◌, ◌++◌, drop, length,
  last?, arith, length-append, or_else, ◌==◌, eq_iff, Bool-cases, inl, inr,
}
use xbotics_hey_robot.Prelude.Dict.{lookup, insert, lookup-insert, lookup-insert_other}
use xbotics_hey_robot.Prelude.Text.{has}
use xbotics_hey_robot.Episodes.{
  EpisodeScope, EpisodeRecord, EpisodeStore, put_all, resolve_alias, ensure, append_record, history,
}

put_all-kept :
    (aliases : List String) (alias key : String) (d : List (String × String))
    → lookup alias d ≡ some key
    → lookup alias (put_all aliases key d) ≡ some key
unfolding put_all
put_all-kept [] alias key d h = h
put_all-kept (a ∷ aliases) alias key d h =
    put_all-kept aliases alias key (insert a key d) (elim (Bool-cases (a == alias)) [
      | inl same ↦
          let here : a ≡ alias = ground (arith, same, eq_iff a alias) in
          ground (arith, here, lookup-insert a key d)
      | inr differs ↦ lookup-insert_other a alias key d differs ∙ h
    ])

put_all-has :
    (aliases : List String) (alias key : String) (d : List (String × String))
    → has aliases alias ≡ true
    → lookup alias (put_all aliases key d) ≡ some key
unfolding put_all has
put_all-has [] alias key d h = ground (arith, h)
put_all-has (a ∷ aliases) alias key d h = elim (Bool-cases (a == alias)) [
  | inl same ↦
      let here : a ≡ alias = ground (arith, same, eq_iff a alias) in
      put_all-kept aliases alias key (insert a key d) (ground (arith, here, lookup-insert a key d))
  | inr differs ↦ put_all-has aliases alias key (insert a key d) (ground (arith, h, differs))
]

last?-append {ℓ} : {A : Type ℓ} (xs : List A) (x : A) → last? (xs ++ x ∷ []) ≡ some x
last?-append [] x = refl
last?-append (y ∷ []) x = refl
last?-append (y ∷ z ∷ xs) x = last?-append (z ∷ xs) x

last?-drop {ℓ} :
    {A : Type ℓ} (n : ℕ) (xs : List A) → suc n ≤ length xs → last? (drop n xs) ≡ last? xs
last?-drop zero xs h = refl
last?-drop (suc n) [] h = ground (arith, h)
last?-drop (suc n) (x ∷ []) h = ground (arith, h)
last?-drop (suc n) (x ∷ y ∷ xs) h = last?-drop n (y ∷ xs) (ground (arith, h))

last?-history {ℓ} :
    {A : Type ℓ} (limit : ℕ) (rows : List A) (r : A)
    → 1 ≤ limit
    → last? (drop (length (rows ++ r ∷ []) - limit) (rows ++ r ∷ [])) ≡ some r
last?-history limit rows r some_rows =
    last?-drop (length (rows ++ r ∷ []) - limit) (rows ++ r ∷ [])
      (ground (arith, some_rows, length-append rows (r ∷ [])))
    ∙ last?-append rows r

-- After `ensure` of an episode with its aliases, each alias stands for the key that the name of the
-- episode stood for, and a record appended under the alias is the last one of the history that the
-- alias reads, whatever the limit, if it is positive.
pub history-append_record {ℓ} :
    {P : Type ℓ} (sanitize : String → String) (now later limit : ℕ) (episode_id alias : String)
    (scope : EpisodeScope) (aliases : List String) (r : EpisodeRecord P) (s : EpisodeStore P)
    → 1 ≤ limit
    → has aliases alias ≡ true
    → let s' =
        append_record sanitize later alias r (ensure sanitize now episode_id scope aliases s) in
      (resolve_alias sanitize s' alias ≡ resolve_alias sanitize s episode_id)
      × (last? (history sanitize alias limit s') ≡ some r)
unfolding ensure append_record history resolve_alias
history-append_record sanitize now later limit episode_id alias scope aliases r s some_rows known =
    let key = resolve_alias sanitize s episode_id in
    let named = ap (λ k. or_else k alias) (put_all-has aliases alias key s.aliases known) in
    let file =
      sanitize (resolve_alias sanitize (ensure sanitize now episode_id scope aliases s) alias) in
    let rows = or_else (lookup file s.files) [] in
    let read : or_else (lookup file (insert file (rows ++ r ∷ []) s.files)) [] ≡ rows ++ r ∷ [] =
      ap (λ k. or_else k []) (lookup-insert file (rows ++ r ∷ []) s.files) in
    (named, ap (λ k. last? (drop (length k - limit) k)) read ∙ last?-history limit rows r some_rows)
