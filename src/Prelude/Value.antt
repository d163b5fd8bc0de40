-- ===== src/Prelude/Value.antt =====
-- Python values of type `Any`, as the program keeps them in dictionaries: JSON data. A number is
-- an integer count of a fixed unit, since the code only tests numbers for zero or compares them.
use Prim.Native.Nat.{zero}
use Prim.Native.String.{String}
use mathlib.Core.Bool.{Bool, true, false}
use mathlib.Core.Option.{Option, none, some}
use mathlib.Core.List.{List, [], ◌∷◌, map}
use mathlib.Core.Path.{◌≡◌, refl}
use native.Mathlib.Omega.{arith}
use text.Mathlib.Text.{◌==◌}
use text.Mathlib.TextEquality.{eq_iff}
use xbotics_hey_robot.Prelude.Tests.{if◌then◌else◌}
use xbotics_hey_robot.Prelude.Text.{truthy_text, characters}
use xbotics_hey_robot.Prelude.Int.{ℤ, pos}

mutual
  pub data Value : Type 0 where
    null : Value
    boolean : Bool → Value
    number : ℤ → Value
    string : String → Value
    array : Items → Value
    dict : Fields → Value

  pub data Items : Type 0 where
    nil : Items
    cons : Value → Items → Items

  pub data Fields : Type 0 where
    end : Fields
    entry : String → Value → Fields → Fields

-- `bool(value)`
unfoldable pub truthy : Value → Bool
truthy null = false
truthy (boolean b) = b
truthy (number (pos zero)) = false
truthy (number _) = true
truthy (string s) = truthy_text s
truthy (array nil) = false
truthy (array (cons v vs)) = true
truthy (dict end) = false
truthy (dict (entry k v d)) = true

-- `d.get(key)`, with `none` for a missing key. A later entry of the same key is never reached.
unfoldable pub get : Fields → String → Option Value
get end k = none
get (entry j v d) k = let rest = get d k in if j == k then some v else rest

-- `d.get(key)` with Python's default `None`.
abbrev pub or_null : Option Value → Value
or_null none = null
or_null (some v) = v

unfoldable pub get_or_null : Fields → String → Value
unfolding get
get_or_null d k = or_null (get d k)

-- `bool(d.get(key))`
unfoldable pub flag : Fields → String → Bool
unfolding get_or_null truthy
flag d k = truthy (get_or_null d k)

-- `isinstance(value, dict)`, with the dictionary.
abbrev pub as_dict : Value → Option Fields
as_dict (dict d) = some d
as_dict _ = none

abbrev pub is_text : Value → String → Bool
is_text (string s) t = s == t
is_text _ t = false

-- `not d`
abbrev pub is_end : Fields → Bool
is_end end = true
is_end (entry k v d) = false

abbrev pub is_null : Value → Bool
is_null null = true
is_null _ = false

-- The items of a list, as a list.
unfoldable pub items : Items → List Value
items nil = []
items (cons v vs) = v ∷ items vs

unfoldable pub keys : Fields → List String
keys end = []
keys (entry k v d) = k ∷ keys d

-- What `for item in value or ()` runs through. On a true number or `True` Python raises TypeError;
-- here such a value has no items.
unfoldable pub iterated : Value → List Value
unfolding items keys characters
iterated (array vs) = items vs
iterated (string s) = map string (characters s)
iterated (dict d) = map string (keys d)
iterated _ = []

-- `d[key] = value`
unfoldable pub put : Fields → String → Value → Fields
put end k v = entry k v end
put (entry j w d) k v = let rest = put d k v in if j == k then entry j v d else entry j w rest

-- `{**d, **more}`
unfoldable pub merge : Fields → Fields → Fields
unfolding put
merge d end = d
merge d (entry k v more) = merge (put d k v) more

-- A list of values, as the value.
unfoldable pub from_list : List Value → Items
from_list [] = nil
from_list (v ∷ vs) = cons v (from_list vs)

abbrev pub opt_text : Option String → Value
opt_text none = null
opt_text (some s) = string s

pub get-put :
    (d : Fields) (k j : String) (v : Value)
    → get (put d k v) j ≡ (if k == j then some v else get d j)
unfolding get put
get-put end k j v = refl
get-put (entry i w d) k j v = ground (arith, eq_iff k j, eq_iff i k, eq_iff i j, get-put d k j v)
