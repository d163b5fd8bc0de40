-- ===== src/Gateway/Turns/Compact.antt =====
-- What `_compact_text`, src/hey_robot/gateway/service.py, leaves of a text.
use Prim.Native.Char.{Char}
use text.Mathlib.TextLemmas.{nil-append, cons-append, append-nil}
use xbotics_hey_robot.Prelude.{
  ◌≡◌, sym, ap, ◌∙◌, String, Bool, true, false, List, [], ◌∷◌, arith, if◌then◌else◌, ◌==◌, eq_iff,
  Bool-cases, inl, inr,
}
use xbotics_hey_robot.Prelude.Text.{concat, join, lower, is_space, is_empty}
use xbotics_hey_robot.Gateway.Turns.{split_parts, drop_blanks, compact_text}

-- A text without its white space.
unfoldable pub unspaced : String → String
unspaced String.[] = String.[]
unspaced (String.◌∷◌ c s) = let rest = unspaced s in if is_space c then rest else String.◌∷◌ c rest

abbrev starts_spaced : String → Bool
starts_spaced String.[] = true
starts_spaced (String.◌∷◌ c s) = is_space c

no_blank : (c : Char) → is_space c ≡ false → (String.◌∷◌ c String.[] == " ") ≡ false
unfolding is_space
no_blank c plain = elim (Bool-cases (String.◌∷◌ c String.[] == " ")) [
  | inr other ↦ other
  | inl blank ↦
      let same : String.◌∷◌ c String.[] ≡ " " = (eq_iff (String.◌∷◌ c String.[]) " ").0 blank in
      let spaced : is_space c ≡ true = ap starts_spaced same in
      absurd (ground (arith, spaced, plain))
]

drop_blanks-append :
    (s t : String) → drop_blanks (concat s t) ≡ concat (drop_blanks s) (drop_blanks t)
unfolding drop_blanks
drop_blanks-append String.[] t = ap drop_blanks (nil-append t) ∙ sym (nil-append (drop_blanks t))
drop_blanks-append (String.◌∷◌ c s) t = elim (Bool-cases (String.◌∷◌ c String.[] == " ")) [
  | inl blank ↦ rw (cons-append c s t, blank) (drop_blanks-append s t)
  | inr other ↦
      rw (cons-append c s t, other)
        (ap (λ k. String.◌∷◌ c k) (drop_blanks-append s t)
          ∙ sym (cons-append c (drop_blanks s) (drop_blanks t)))
]

-- The words, joined with blanks that are dropped again.
abbrev joined : List String → String
joined ws = drop_blanks (join " " ws)

joined-cons : (w : String) (ws : List String) → joined (w ∷ ws) ≡ concat (drop_blanks w) (joined ws)
unfolding join drop_blanks
joined-cons w [] = sym (append-nil (drop_blanks w))
joined-cons w (v ∷ ws) =
    drop_blanks-append w (concat " " (join " " (v ∷ ws)))
    ∙ ap (concat (drop_blanks w))
        (drop_blanks-append " " (join " " (v ∷ ws)) ∙ nil-append (joined (v ∷ ws)))

joined-optional :
    (w : String) (ws : List String)
    → joined (if is_empty w then ws else w ∷ ws) ≡ concat (drop_blanks w) (joined ws)
unfolding drop_blanks
joined-optional String.[] ws = sym (nil-append (joined ws))
joined-optional (String.◌∷◌ c w) ws = joined-cons (String.◌∷◌ c w) ws

joined-split_parts :
    (s : String) → concat (drop_blanks (split_parts s).0) (joined (split_parts s).1) ≡ unspaced s
unfolding split_parts drop_blanks unspaced join
joined-split_parts String.[] = nil-append ""
joined-split_parts (String.◌∷◌ c s) = elim (Bool-cases (is_space c)) [
  | inl spaced ↦
      let ps = split_parts s in
      rw spaced (
        nil-append (joined (if is_empty ps.0 then ps.1 else ps.0 ∷ ps.1))
        ∙ joined-optional ps.0 ps.1
        ∙ joined-split_parts s)
  | inr plain ↦
      let ps = split_parts s in
      rw (plain, no_blank c plain)
        (cons-append c (drop_blanks ps.0) (joined ps.1)
          ∙ ap (λ k. String.◌∷◌ c k) (joined-split_parts s))
]

-- Compacting a text puts it into lower case and takes its white space away.
pub compact_text-unspaced : (text : String) → compact_text text ≡ unspaced (lower text)
unfolding compact_text
compact_text-unspaced text =
    let ps = split_parts (lower text) in joined-optional ps.0 ps.1 ∙ joined-split_parts (lower text)
