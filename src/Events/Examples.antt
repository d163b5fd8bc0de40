-- ===== src/Events/Examples.antt =====
-- The theorems of the event store at a codec that writes a number as one character.
use xbotics_hey_robot.Prelude.{
  ℕ, ◌+◌, ◌-◌, ◌<◌, ◌≡◌, refl, Option, none, some, true, false, List, [], ◌∷◌, arith, if◌then◌else◌,
  ltb,
}
use xbotics_hey_robot.Events.Store.{
  Utf8, Codec, is_line_end, splitlines, tail_lines, last_of, at_least_one, open_store,
  recent_events, count,
}
use xbotics_hey_robot.Events.Store.Tail.{IsUtf8, tail_lines-last_of}
use xbotics_hey_robot.Events.Store.Lines.{IsCodec}
use xbotics_hey_robot.Events.Store.Recent.{append_all, new_store, recent-append_all}

-- UTF-8 on texts of ASCII.
abbrev ascii : Utf8
ascii = record { encode = λ text. text; decode = λ bytes. some bytes; replace = λ bytes. bytes }

ascii-IsUtf8 : IsUtf8 ascii
ascii-IsUtf8 = record {
  empty = refl;
  decoded = λ text. refl;
  replaced = λ text. refl;
  joined = λ s t. refl;
  fed = λ a b. refl;
}

tail_lines-last_of_example :
    tail_lines ascii 2 1 (65 ∷ 13 ∷ 10 ∷ 66 ∷ 67 ∷ 10 ∷ [])
    ≡ last_of 1 (splitlines (65 ∷ 13 ∷ 10 ∷ 66 ∷ 67 ∷ 10 ∷ []))
tail_lines-last_of_example =
    tail_lines-last_of ascii ascii-IsUtf8 2 1 (65 ∷ 13 ∷ 10 ∷ 66 ∷ 67 ∷ 10 ∷ []) (ground arith)
      (ground arith)

abbrev loads : List ℕ → Option ℕ
loads [] = none
loads (c ∷ rest) = some (c - 9000)

-- Events written as one character each, none of which ends a line.
abbrev codec : Codec ℕ
codec = record { dumps = λ e. (e + 9000) ∷ []; loads = loads; is_blank = λ line. false }

codec-IsCodec : IsCodec codec
unfolding is_line_end
codec-IsCodec = record {
  one_line = λ e. ground arith;
  shown = λ e. refl;
  loaded = λ e. ground arith;
}

recent-append_all_example :
    let m = append_all ascii codec (1 ∷ 2 ∷ 3 ∷ 4 ∷ []) (new_store ascii 2 1) in
    (open_store ascii 2 1 [] ≡ some (new_store ascii 2 1))
    × (m.0 ≡ true)
    × (recent_events ascii codec 64 100 m.1
        ≡ last_of
            (at_least_one (if ltb (at_least_one 2) 100 then at_least_one 2 else 100))
            (1 ∷ 2 ∷ 3 ∷ 4 ∷ []))
    × ((n : ℕ) × (count ascii codec m.1 ≡ some n) × (n < at_least_one 2 + at_least_one 1))
recent-append_all_example =
    recent-append_all ascii ascii-IsUtf8 codec codec-IsCodec 64 100 2 1 (1 ∷ 2 ∷ 3 ∷ 4 ∷ [])
      (ground arith)
