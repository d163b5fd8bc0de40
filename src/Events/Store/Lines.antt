-- ===== src/Events/Store/Lines.antt =====
-- The lines of src/hey_robot/events/store.py: what an event is written as, and the last of them.
use xbotics_hey_robot.Prelude.{
  ℕ, zero, suc, ◌-◌, ◌≡◌, refl, ap, ◌∙◌, false, some, List, [], ◌∷◌, ◌++◌, map, length, drop, arith,
  count_where,
}
use xbotics_hey_robot.Events.Store.{feed, last_of, is_line_end, splitlines, Codec}

-- How many line ends a text has.
abbrev pub ends : List ℕ → ℕ
ends = count_where is_line_end

-- What the store relies on of the codec and its events: an event is written as one line, not a blank
-- one, and is read back. `json.dumps` with `ensure_ascii=False` leaves U+0085, U+2028 and U+2029 as
-- they are, so the events of the type are those without them.
pub record IsCodec {ℓ} {E : Type ℓ} (codec : Codec E) : Type ℓ where
  pub one_line : (e : E) → ends (codec.dumps e) ≡ 0
  pub shown : (e : E) → codec.is_blank (codec.dumps e) ≡ false
  pub loaded : (e : E) → codec.loads (codec.dumps e) ≡ some e

pub splitlines-line :
    (line rest : List ℕ) → ends line ≡ 0 → splitlines (line ++ feed ∷ rest) ≡ line ∷ splitlines rest
unfolding splitlines
splitlines-line [] rest h = refl
splitlines-line (c ∷ line) rest h =
    let inner : ends line ≡ 0 = ground (arith, h) in
    let plain : is_line_end c ≡ false = ground (arith, h) in
    rw (plain, splitlines-line line rest inner) refl

pub length-map {ℓ κ} :
    {A : Type ℓ} {B : Type κ} (f : A → B) (xs : List A) → length (map f xs) ≡ length xs
length-map f [] = refl
length-map f (x ∷ xs) = ap suc (length-map f xs)

drop-map {ℓ κ} :
    {A : Type ℓ} {B : Type κ} (f : A → B) (n : ℕ) (xs : List A)
    → drop n (map f xs) ≡ map f (drop n xs)
drop-map f zero xs = refl
drop-map f (suc n) [] = refl
drop-map f (suc n) (x ∷ xs) = drop-map f n xs

pub last_of-map {ℓ κ} :
    {A : Type ℓ} {B : Type κ} (f : A → B) (n : ℕ) (xs : List A)
    → last_of n (map f xs) ≡ map f (last_of n xs)
last_of-map f n xs =
    ap (λ k. drop (k - n) (map f xs)) (length-map f xs) ∙ drop-map f (length xs - n) xs

pub length-drop {ℓ} : {A : Type ℓ} (n : ℕ) (xs : List A) → length (drop n xs) ≡ length xs - n
length-drop zero xs = ground arith
length-drop (suc n) [] = ground arith
length-drop (suc n) (x ∷ xs) = length-drop n xs ∙ ground arith
