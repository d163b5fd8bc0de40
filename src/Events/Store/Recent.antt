-- ===== src/Events/Store/Recent.antt =====
-- The recent events of a store, and the size of its file.
use xbotics_hey_robot.Prelude.{
  ℕ, ◌+◌, ◌-◌, ◌≤◌, ◌<◌, ◌≡◌, ◌⊎◌, refl, sym, ap, subst, ◌∙◌, Bool, true, ◌&&◌, not, some, List, [],
  ◌∷◌, ◌++◌, map, length, take, drop, arith, length-append, if◌then◌else◌, ltb, leb, count_where,
  Bool-cases, inl, inr,
}
use mathlib.Core.List as Lists
use xbotics_hey_robot.Events.Store.{
  feed, last_of, splitlines, Utf8, tail_lines, Codec, RuntimeEventStore, at_least_one, write_lines,
  trim, open_store, append_line, events_of, recent_events, count,
}
use xbotics_hey_robot.Events.Store.Lines.{
  IsCodec, splitlines-line, length-map, last_of-map, length-drop,
}
use xbotics_hey_robot.Events.Store.Tail.{
  IsUtf8, tail_lines-last_of, take-drop_append, drop-nil, last_of-append,
}

-- The events appended one after the other, and whether every append returned.
unfoldable pub append_all {ℓ} :
    {E : Type ℓ} → Utf8 → Codec E → List E → RuntimeEventStore → Bool × RuntimeEventStore
unfolding append_line
append_all u codec [] s = (true, s)
append_all u codec (e ∷ es) s =
    let m = append_line u codec e s in
    let rest = append_all u codec es m.1 in (m.0 && rest.0, rest.1)

-- The store that is opened on an empty file.
abbrev pub new_store : Utf8 → ℕ → ℕ → RuntimeEventStore
new_store u max every = record {
  file = u.encode [];
  max_items = at_least_one max;
  trim_every = at_least_one every;
  writes_since_trim = 0;
}

module _ {ℓ} {E : Type ℓ} (u : Utf8) (unicode : IsUtf8 u) (codec : Codec E)
    (sound : IsCodec codec) where
  abbrev lines_of : List E → List (List ℕ)
  lines_of es = map codec.dumps es

  splitlines-lines_of : (es : List E) → splitlines (write_lines (lines_of es)) ≡ lines_of es
  unfolding splitlines
  splitlines-lines_of [] = refl
  splitlines-lines_of (e ∷ es) =
      splitlines-line (codec.dumps e) (write_lines (lines_of es)) (sound.one_line e)
      ∙ ap (λ rest. codec.dumps e ∷ rest) (splitlines-lines_of es)

  write_lines-more :
      (es : List E) (e : E)
      → write_lines (lines_of (es ++ e ∷ []))
        ≡ write_lines (lines_of es) ++ (codec.dumps e ++ feed ∷ [])
  write_lines-more [] e = refl
  write_lines-more (x ∷ es) e =
      ap (λ rest. codec.dumps x ++ feed ∷ rest) (write_lines-more es e)
      ∙ sym (
          Lists.append_assoc (codec.dumps x) (feed ∷ write_lines (lines_of es))
            (codec.dumps e ++ feed ∷ []))

  events_of-lines_of : (es : List E) → events_of u codec (lines_of es) ≡ es
  unfolding events_of
  events_of-lines_of [] = refl
  events_of-lines_of (e ∷ es) =
      rw (sound.shown e, sound.loaded e) (ap (λ rest. e ∷ rest) (events_of-lines_of es))

  count-lines_of :
      (es : List E) → count_where (λ line. not (codec.is_blank line)) (lines_of es) ≡ length es
  count-lines_of [] = refl
  count-lines_of (e ∷ es) = ground (arith, sound.shown e, count-lines_of es)

  -- After the events `es`.
  record IsStored (max every : ℕ) (es : List E) (s : RuntimeEventStore) : Type ℓ where
    before : List E
    kept : List E
    all : es ≡ before ++ kept
    filed : s.file ≡ u.encode (write_lines (lines_of kept))
    enough : (before ≡ []) ⊎ (max ≤ length kept)
    sized : s.max_items ≡ max
    paced : s.trim_every ≡ every
    few : length kept ≤ max + s.writes_since_trim
    soon : s.writes_since_trim < every

  trim-file :
      (es : List E) (s : RuntimeEventStore)
      → s.file ≡ u.encode (write_lines (lines_of es))
      → trim u s
        ≡ some (record s { file = u.encode (write_lines (lines_of (last_of s.max_items es))) })
  unfolding trim
  trim-file es s filed =
      let text : u.decode s.file ≡ some (write_lines (lines_of es)) =
        ap u.decode filed ∙ unicode.decoded (write_lines (lines_of es)) in
      let lines = splitlines-lines_of es in
      let long : length (splitlines (write_lines (lines_of es))) ≡ length es =
        ap length lines ∙ length-map codec.dumps es in
      elim (Bool-cases (leb (length (splitlines (write_lines (lines_of es)))) s.max_items)) [
        | inl short ↦
            let whole : length es - s.max_items ≡ 0 = ground (arith, short, long) in
            rw (text, trim, short)
              (ap (λ f. some (record s { file = f }))
                (filed ∙ ap (λ k. u.encode (write_lines (lines_of (drop k es)))) (sym whole)))
        | inr over ↦
            rw (text, trim, over)
              (ap (λ ls. some (record s { file = u.encode (write_lines (last_of s.max_items ls)) }))
                  lines
                ∙ ap (λ ls. some (record s { file = u.encode (write_lines ls) }))
                    (last_of-map codec.dumps s.max_items es))
      ]

  -- The last `max` of the kept events, with what goes before them.
  last_of-all :
      (max : ℕ) (before kept : List E)
      → (before ≡ []) ⊎ (max ≤ length kept)
      → (earlier : List E) × (before ++ kept ≡ earlier ++ last_of max kept)
        × ((earlier ≡ []) ⊎ (max ≤ length (last_of max kept)))
  last_of-all max before kept enough =
      let n = length kept - max in
      let joined : before ++ kept ≡ before ++ take n kept ++ drop n kept =
        ap (λ k. before ++ k) (sym (take-drop_append n kept))
        ∙ sym (Lists.append_assoc before (take n kept) (drop n kept)) in
      (before ++ take n kept, joined, full enough)
    where
      full :
          ((before ≡ []) ⊎ (max ≤ length kept))
          → ((before ++ take (length kept - max) kept ≡ []) ⊎ (max ≤ length (last_of max kept)))
      full (inr many) = inr (ground (arith, many, length-drop (length kept - max) kept))
      full (inl nothing) = elim (Bool-cases (leb (length kept) max)) [
        | inl short ↦
            let whole : length kept - max ≡ 0 = ground (arith, short) in
            inl (ap (λ b. b ++ take (length kept - max) kept) nothing ∙ ap (λ k. take k kept) whole)
        | inr over ↦ inr (ground (arith, over, length-drop (length kept - max) kept))
      ]

  append-IsStored :
      (max every : ℕ) (es : List E) (e : E) (s : RuntimeEventStore)
      → IsStored max every es s
      → ((append_line u codec e s).0 ≡ true)
        × IsStored max every (es ++ e ∷ []) (append_line u codec e s).1
  unfolding append_line
  append-IsStored max every es e s h =
      elim (Bool-cases (leb s.trim_every (s.writes_since_trim + 1))) [
        | inr later ↦ rw later (
          refl,
          record {
            before = h.before;
            kept = h.kept ++ e ∷ [];
            all = whole;
            filed = written;
            enough = grown h.enough;
            sized = h.sized;
            paced = h.paced;
            few = ground (arith, h.few, length-append h.kept (e ∷ []));
            soon = ground (arith, later, h.paced);
          },
        )
        | inl now ↦
            let s' = record s {
              file = s.file ++ u.encode (codec.dumps e ++ feed ∷ []);
              writes_since_trim = s.writes_since_trim + 1;
            } in
            let kept' = last_of s.max_items (h.kept ++ e ∷ []) in
            let short = length-drop (length (h.kept ++ e ∷ []) - s.max_items) (h.kept ++ e ∷ []) in
            let rest =
              last_of-all s.max_items h.before (h.kept ++ e ∷ [])
                (ground (arith, grown h.enough, h.sized)) in
            rw (now, trim-file (h.kept ++ e ∷ []) s' written)
              (
                refl,
                record {
                  before = rest.0;
                  kept = kept';
                  all = whole ∙ rest.1;
                  filed = refl;
                  enough = ground (arith, rest.2, h.sized);
                  sized = h.sized;
                  paced = h.paced;
                  few = ground (arith, short, h.sized);
                  soon = ground (arith, h.soon);
                },
              )
      ]
    where
      whole : es ++ e ∷ [] ≡ h.before ++ (h.kept ++ e ∷ [])
      whole = ap (λ k. k ++ e ∷ []) h.all ∙ Lists.append_assoc h.before h.kept (e ∷ [])

      written :
          s.file ++ u.encode (codec.dumps e ++ feed ∷ [])
          ≡ u.encode (write_lines (lines_of (h.kept ++ e ∷ [])))
      written =
          ap (λ f. f ++ u.encode (codec.dumps e ++ feed ∷ [])) h.filed
          ∙ sym (unicode.joined (write_lines (lines_of h.kept)) (codec.dumps e ++ feed ∷ []))
          ∙ ap u.encode (sym (write_lines-more h.kept e))

      grown :
          ((h.before ≡ []) ⊎ (max ≤ length h.kept))
          → (h.before ≡ []) ⊎ (max ≤ length (h.kept ++ e ∷ []))
      grown (inl nothing) = inl nothing
      grown (inr many) = inr (ground (arith, many, length-append h.kept (e ∷ [])))

  append_all-IsStored :
      (max every : ℕ) (told es : List E) (s : RuntimeEventStore)
      → IsStored max every told s
      → ((append_all u codec es s).0 ≡ true)
        × IsStored max every (told ++ es) (append_all u codec es s).1
  unfolding append_all
  append_all-IsStored max every told [] s h =
      (refl, subst (λ all. IsStored max every all s) (sym (Lists.append-nil told)) h)
  append_all-IsStored max every told (e ∷ es) s h =
      let m = append_line u codec e s in
      let this = append-IsStored max every told e s h in
      let later = append_all-IsStored max every (told ++ e ∷ []) es m.1 this.1 in
      (
        ground (arith, this.0, later.0),
        subst (λ all. IsStored max every all (append_all u codec es m.1).1)
            (Lists.append_assoc told (e ∷ []) es) later.1,
      )

  new-IsStored :
      (max every : ℕ)
      → (open_store u max every [] ≡ some (new_store u max every))
        × IsStored (at_least_one max) (at_least_one every) [] (new_store u max every)
  unfolding open_store
  new-IsStored max every = (
    trim-file [] (record (new_store u max every) { file = [] }) (sym unicode.empty)
        ∙ ap
            (λ es.
              some (record (new_store u max every) { file = u.encode (write_lines (lines_of es)) }))
            (drop-nil (0 - at_least_one max)),
    record {
      before = [];
      kept = [];
      all = refl;
      filed = refl;
      enough = inl refl;
      sized = refl;
      paced = refl;
      few = ground arith;
      soon = ground arith;
    },
  )

  recent-IsStored :
      (block_size limit max every : ℕ) (es : List E) (s : RuntimeEventStore)
      → 1 ≤ block_size
      → 1 ≤ max
      → IsStored max every es s
      → (recent_events u codec block_size limit s
          ≡ last_of (at_least_one (if ltb max limit then max else limit)) es)
        × ((n : ℕ) × (count u codec s ≡ some n) × (n < max + every))
  unfolding recent_events count
  recent-IsStored block_size limit max every es s some_bytes room h =
      (read s.max_items h.sized, counted)
    where
      read_text : u.decode s.file ≡ some (write_lines (lines_of h.kept))
      read_text = ap u.decode h.filed ∙ unicode.decoded (write_lines (lines_of h.kept))

      lines : splitlines (u.replace s.file) ≡ lines_of h.kept
      lines =
          ap (λ f. splitlines (u.replace f)) h.filed
          ∙ ap splitlines (unicode.replaced (write_lines (lines_of h.kept)))
          ∙ splitlines-lines_of h.kept

      newest : (n : ℕ) → n ≤ max → last_of n h.kept ≡ last_of n es
      newest n fits = either h.enough
        where
          either : ((h.before ≡ []) ⊎ (max ≤ length h.kept)) → last_of n h.kept ≡ last_of n es
          either (inl nothing) = ap (last_of n) (sym (h.all ∙ ap (λ b. b ++ h.kept) nothing))
          either (inr many) =
              sym (
                ap (last_of n) h.all
                ∙ last_of-append n h.before h.kept (ground (arith, fits, many)))

      read :
          (m : ℕ)
          → m ≡ max
          → events_of u codec
              (tail_lines u block_size (at_least_one (if ltb m limit then m else limit)) s.file)
            ≡ last_of (at_least_one (if ltb max limit then max else limit)) es
      read m same =
          let n = at_least_one (if ltb max limit then max else limit) in
          ap
            (λ k.
              events_of u codec
                (tail_lines u block_size (at_least_one (if ltb k limit then k else limit)) s.file))
            same
          ∙ ap (events_of u codec) (
              tail_lines-last_of u unicode block_size n s.file some_bytes (ground arith)
              ∙ ap (last_of n) lines
              ∙ last_of-map codec.dumps n h.kept)
          ∙ events_of-lines_of (last_of n h.kept)
          ∙ newest n (ground (arith, room))

      counted : (n : ℕ) × (count u codec s ≡ some n) × (n < max + every)
      counted = (
        length h.kept,
        rw (read_text, count)
            (ap some (
              ap (count_where (λ line. not (codec.is_blank line))) (splitlines-lines_of h.kept)
              ∙ count-lines_of h.kept)),
        ground (arith, h.few, h.soon),
      )

  -- With a codec that writes an event of the type as one line, without any line end of `splitlines`
  -- and not a blank one, and reads it back, and blocks of a byte at least: a store of any asked size
  -- and pace opens on an empty file, every append of any events to it returns, and it reads back as
  -- its recent events the last ones of them, in their order: as many as asked for, but at most as
  -- many as the store is to keep, and one at least. Its file then has fewer events than that size
  -- and the pace of trimming together.
  pub recent-append_all :
      (block_size limit max every : ℕ) (es : List E)
      → 1 ≤ block_size
      → let m = append_all u codec es (new_store u max every) in
        (open_store u max every [] ≡ some (new_store u max every))
        × (m.0 ≡ true)
        × (recent_events u codec block_size limit m.1
            ≡ last_of
                (at_least_one (if ltb (at_least_one max) limit then at_least_one max else limit))
                es)
        × ((n : ℕ) × (count u codec m.1 ≡ some n) × (n < at_least_one max + at_least_one every))
  recent-append_all block_size limit max every es some_bytes =
      let opened = new-IsStored max every in
      let stored =
        append_all-IsStored (at_least_one max) (at_least_one every) [] es (new_store u max every)
          opened.1 in
      let read =
        recent-IsStored block_size limit (at_least_one max) (at_least_one every) es
          (append_all u codec es (new_store u max every)).1 some_bytes (ground arith) stored.1 in
      (opened.0, stored.0, read.0, read.1)
