-- ===== src/Events/Store.antt =====
-- RuntimeEventStore and _tail_lines, src/hey_robot/events/store.py, on the bytes of events.jsonl. The
-- JSON codec of an event and UTF-8 are parameters: a text is the list of its code points.
pub mod Tail
pub mod Lines
pub mod Recent
use xbotics_hey_robot.Prelude.{
  ℕ, zero, suc, ◌+◌, ◌-◌, not, Bool, true, false, ◌&&◌, ◌||◌, Option, none, some, List, [], ◌∷◌,
  ◌++◌, length, take, drop, if◌then◌else◌, ltb, leb, eqb, count_where,
}

abbrev pub feed : ℕ
feed = 10

-- `lines[-n:]` for a positive n
abbrev pub last_of {ℓ} : {A : Type ℓ} → ℕ → List A → List A
last_of n xs = drop (length xs - n) xs

-- What ends a line for `str.splitlines`, beside a carriage return with a line feed.
unfoldable pub is_line_end : ℕ → Bool
is_line_end c =
    (leb 10 c && leb c 13) || (leb 28 c && leb c 30) || eqb c 133 || eqb c 8232 || eqb c 8233

abbrev pub starts_with_feed : List ℕ → Bool
starts_with_feed [] = false
starts_with_feed (c ∷ text) = eqb c feed

abbrev pub put_front : ℕ → List (List ℕ) → List (List ℕ)
put_front c [] = (c ∷ []) ∷ []
put_front c (line ∷ rest) = (c ∷ line) ∷ rest

-- `text.splitlines()`
unfoldable pub splitlines : List ℕ → List (List ℕ)
unfolding is_line_end
splitlines [] = []
splitlines (c ∷ text) =
    let rest = splitlines text in
    if is_line_end c
    then if eqb c 13 && starts_with_feed text then rest else [] ∷ rest
    else put_front c rest

abbrev pub feeds : List ℕ → ℕ
feeds = count_where (λ c. eqb c feed)

-- UTF-8: `decode` where it may raise, and `replace` where it has `errors="replace"`.
pub record Utf8 : Type 0 where
  pub encode : List ℕ → List ℕ
  pub decode : List ℕ → Option (List ℕ)
  pub replace : List ℕ → List ℕ

-- The blocks that `_tail_lines` reads, from the end of the file, on `fuel`.
unfoldable pub read_blocks : ℕ → ℕ → ℕ → List ℕ → ℕ → ℕ → List ℕ → List ℕ
read_blocks zero block_size limit file position newline_count chunks = chunks
read_blocks (suc fuel) block_size limit file position newline_count chunks =
    let size = if ltb block_size position then block_size else position in
    let chunk = take size (drop (position - size) file) in
    let more =
      read_blocks fuel block_size limit file (position - size) (newline_count + feeds chunk)
        (chunk ++ chunks) in
    if ltb 0 position then if leb newline_count limit then more else chunks else chunks

-- Every block has a byte at least, so there are not more of them than bytes.
unfoldable pub tail_lines : Utf8 → ℕ → ℕ → List ℕ → List (List ℕ)
unfolding read_blocks splitlines
tail_lines u block_size limit file =
    if leb limit 0
    then []
    else last_of limit (
        splitlines (u.replace (read_blocks (length file) block_size limit file (length file) 0 [])))

pub record Codec {ℓ} (E : Type ℓ) : Type ℓ where
  pub dumps : E → List ℕ
  pub loads : List ℕ → Option E
  pub is_blank : List ℕ → Bool

pub record RuntimeEventStore : Type 0 where
  pub file : List ℕ
  pub max_items : ℕ
  pub trim_every : ℕ
  pub writes_since_trim : ℕ

abbrev pub at_least_one : ℕ → ℕ
at_least_one n = if ltb n 1 then 1 else n

-- `"\n".join(lines) + "\n"`, of lines of which there is one
abbrev pub write_lines : List (List ℕ) → List ℕ
write_lines [] = []
write_lines (line ∷ rest) = line ++ feed ∷ write_lines rest

-- `_trim`, `none` where the file does not decode
unfoldable pub trim : Utf8 → RuntimeEventStore → Option RuntimeEventStore
unfolding splitlines
trim u s = elim (u.decode s.file) [
  | none ↦ none
  | some text ↦
      let lines = splitlines text in
      if leb (length lines) s.max_items
      then some s
      else some (record s { file = u.encode (write_lines (last_of s.max_items lines)) })
]

-- `RuntimeEventStore(root, max_items=…, trim_every=…)` over a file that is there or empty.
unfoldable pub open_store : Utf8 → ℕ → ℕ → List ℕ → Option RuntimeEventStore
unfolding trim
open_store u max_items trim_every file = trim u (record {
  file = file;
  max_items = at_least_one max_items;
  trim_every = at_least_one trim_every;
  writes_since_trim = 0;
})

module _ {ℓ} {E : Type ℓ} (u : Utf8) (codec : Codec E) where
  -- `append`, whether it returns, and the store after it
  unfoldable pub append_line : E → RuntimeEventStore → Bool × RuntimeEventStore
  unfolding trim
  append_line event s =
      let written = record s {
        file = s.file ++ u.encode (codec.dumps event ++ feed ∷ []);
        writes_since_trim = s.writes_since_trim + 1;
      } in
      if leb s.trim_every (s.writes_since_trim + 1)
      then elim (trim u written) [
        | none ↦ (false, written)
        | some trimmed ↦ (true, record trimmed { writes_since_trim = 0 })
      ]
      else (true, written)

  unfoldable pub events_of : List (List ℕ) → List E
  events_of [] = []
  events_of (line ∷ rest) =
      let later = events_of rest in
      if codec.is_blank line
      then later
      else elim (codec.loads line) [ some event ↦ event ∷ later | none ↦ later ]

  -- `recent`, of a limit that is not negative
  unfoldable pub recent_events : ℕ → ℕ → RuntimeEventStore → List E
  unfolding tail_lines events_of
  recent_events block_size limit s =
      let least = if ltb s.max_items limit then s.max_items else limit in
      events_of (tail_lines u block_size (at_least_one least) s.file)

  -- `count`
  unfoldable pub count : RuntimeEventStore → Option ℕ
  unfolding splitlines
  count s = elim (u.decode s.file) [
    | none ↦ none
    | some text ↦ some (count_where (λ line. not (codec.is_blank line)) (splitlines text))
  ]
