-- ===== src/Events/Store/Tail.antt =====
-- Reading the end of a file by blocks gives the lines that reading all of it gives.
use xbotics_hey_robot.Prelude.{
  ℕ, zero, suc, ◌+◌, ◌-◌, ◌≤◌, ◌<◌, ◌≡◌, ◌⊎◌, refl, sym, ap, ◌∙◌, false, List, [], ◌∷◌, ◌++◌,
  length, length-append, some, ◌&&◌, take, drop, arith, count_where-append, if◌then◌else◌, ltb, leb,
  eqb, Bool-cases, inl, inr,
}
use mathlib.Core.List as Lists
use xbotics_hey_robot.Events.Store.{
  feed, last_of, starts_with_feed, is_line_end, Utf8, put_front, splitlines, feeds, read_blocks,
  tail_lines,
}

-- What is documented of UTF-8: a text is read back from its bytes, with either way to take errors,
-- texts are encoded one after the other, and a line feed is one byte, which no other character has
-- and which ends an incomplete one.
pub record IsUtf8 (u : Utf8) : Type 0 where
  pub empty : u.encode [] ≡ []
  pub decoded : (text : List ℕ) → u.decode (u.encode text) ≡ some text
  pub replaced : (text : List ℕ) → u.replace (u.encode text) ≡ text
  pub joined : (s t : List ℕ) → u.encode (s ++ t) ≡ u.encode s ++ u.encode t
  pub fed : (a b : List ℕ) → u.replace (a ++ feed ∷ b) ≡ u.replace a ++ feed ∷ u.replace b

length-put_front : (c : ℕ) (lines : List (List ℕ)) → length lines ≤ length (put_front c lines)
length-put_front c [] = ground arith
length-put_front c (line ∷ rest) = ground arith

starts_with_feed-append :
    (p q : List ℕ) → starts_with_feed (p ++ feed ∷ q) ≡ starts_with_feed (p ++ feed ∷ [])
starts_with_feed-append [] q = refl
starts_with_feed-append (c ∷ p) q = refl

some_lines : (p q : List ℕ) → 1 ≤ length (splitlines (p ++ feed ∷ q))
unfolding splitlines
some_lines [] q = ground arith
some_lines (c ∷ p) q =
    ground (arith, some_lines p q, length-put_front c (splitlines (p ++ feed ∷ q)))

put_front-append :
    (c : ℕ) (ls ks : List (List ℕ)) → 1 ≤ length ls → put_front c (ls ++ ks) ≡ put_front c ls ++ ks
put_front-append c [] ks h = absurd (ground (arith, h))
put_front-append c (l ∷ ls) ks h = refl

-- The lines up to a line feed, and those after it.
pub splitlines-feed :
    (p q : List ℕ) → splitlines (p ++ feed ∷ q) ≡ splitlines (p ++ feed ∷ []) ++ splitlines q
unfolding splitlines
splitlines-feed [] q = refl
splitlines-feed (c ∷ p) q = elim (Bool-cases (is_line_end c)) [
  | inl ends ↦ elim (Bool-cases (eqb c 13 && starts_with_feed (p ++ feed ∷ []))) [
    | inl both ↦ rw (ends, starts_with_feed-append p q, both) (splitlines-feed p q)
    | inr alone ↦
        rw (ends, starts_with_feed-append p q, alone) (ap (λ ls. [] ∷ ls) (splitlines-feed p q))
  ]
  | inr goes ↦ rw goes (
      ap (put_front c) (splitlines-feed p q)
      ∙ put_front-append c (splitlines (p ++ feed ∷ [])) (splitlines q) (some_lines p []))
]

module _ {ℓ} {A : Type ℓ} where
  pub take-drop_append : (n : ℕ) (xs : List A) → take n xs ++ drop n xs ≡ xs
  take-drop_append zero xs = refl
  take-drop_append (suc n) [] = refl
  take-drop_append (suc n) (x ∷ xs) = ap (λ l. x ∷ l) (take-drop_append n xs)

  drop-length : (xs : List A) → drop (length xs) xs ≡ []
  drop-length [] = refl
  drop-length (x ∷ xs) = drop-length xs

  pub drop-nil : (m : ℕ) → drop {A = A} m [] ≡ []
  drop-nil zero = refl
  drop-nil (suc m) = refl

  drop-drop : (m n : ℕ) (xs : List A) → drop m (drop n xs) ≡ drop (n + m) xs
  drop-drop m zero xs = ap (λ k. drop k xs) (ground arith)
  drop-drop m (suc n) [] = drop-nil m ∙ sym (drop-nil (suc n + m))
  drop-drop m (suc n) (x ∷ xs) =
      let more : suc n + m ≡ suc (n + m) = ground arith in
      drop-drop m n xs ∙ ap (λ k. drop k (x ∷ xs)) (sym more)

  drop-append : (n : ℕ) (xs ys : List A) → drop (length xs + n) (xs ++ ys) ≡ drop n ys
  drop-append n [] ys = ap (λ k. drop k ys) (ground arith)
  drop-append n (x ∷ xs) ys =
      let more : suc (length xs) + n ≡ suc (length xs + n) = ground arith in
      ap (λ k. drop k (x ∷ xs ++ ys)) more ∙ drop-append n xs ys

  pub last_of-append :
      (n : ℕ) (xs ys : List A) → n ≤ length ys → last_of n (xs ++ ys) ≡ last_of n ys
  last_of-append n xs ys h =
      let far : length (xs ++ ys) - n ≡ length xs + (length ys - n) =
        ground (arith, h, length-append xs ys) in
      ap (λ k. drop k (xs ++ ys)) far ∙ drop-append (length ys - n) xs ys

module _ (u : Utf8) (sound : IsUtf8 u) where
  abbrev lines : List ℕ → List (List ℕ)
  lines bytes = splitlines (u.replace bytes)

  lines-feed :
      (x y : List ℕ) → lines (x ++ feed ∷ y) ≡ splitlines (u.replace x ++ feed ∷ []) ++ lines y
  lines-feed x y = ap splitlines (sound.fed x y) ∙ splitlines-feed (u.replace x) (u.replace y)

  feeds-lines : (x y : List ℕ) → feeds y ≤ length (lines (x ++ y))
  feeds-lines x [] = ground arith
  feeds-lines x (c ∷ y) = elim (Bool-cases (eqb c feed)) [
    | inl ends ↦
        let here : c ≡ feed = ground (arith, ends) in
        let parts : lines (x ++ c ∷ y) ≡ splitlines (u.replace x ++ feed ∷ []) ++ lines y =
          ap (λ k. lines (x ++ k ∷ y)) here ∙ lines-feed x y in
        ground (
          arith,
          ends,
          ap length parts,
          length-append (splitlines (u.replace x ++ feed ∷ [])) (lines y),
          some_lines (u.replace x) [],
          feeds-lines [] y,
        )
    | inr goes ↦
        let more = feeds-lines (x ++ c ∷ []) y in
        ground (arith, goes, more, ap (λ k. length (lines k)) (Lists.append_assoc x (c ∷ []) y))
  ]

  last_of-lines :
      (n : ℕ) (x z y : List ℕ)
      → n < feeds y
      → last_of n (lines (x ++ y)) ≡ last_of n (lines (z ++ y))
  last_of-lines n x z [] h = absurd (ground (arith, h))
  last_of-lines n x z (c ∷ y) h = elim (Bool-cases (eqb c feed)) [
    | inl ends ↦
        let here : c ≡ feed = ground (arith, ends) in
        let enough : n ≤ length (lines y) = ground (arith, h, ends, feeds-lines [] y) in
        behind x here enough ∙ sym (behind z here enough)
    | inr goes ↦
        let enough : n < feeds y = ground (arith, h, goes) in
        ap (λ k. last_of n (lines k)) (sym (Lists.append_assoc x (c ∷ []) y))
        ∙ last_of-lines n (x ++ c ∷ []) (z ++ c ∷ []) y enough
        ∙ ap (λ k. last_of n (lines k)) (Lists.append_assoc z (c ∷ []) y)
  ]
    where
      behind :
          (x : List ℕ)
          → c ≡ feed
          → n ≤ length (lines y)
          → last_of n (lines (x ++ c ∷ y)) ≡ last_of n (lines y)
      behind x here enough =
          ap (λ k. last_of n (lines (x ++ k ∷ y))) here
          ∙ ap (last_of n) (lines-feed x y)
          ∙ last_of-append n (splitlines (u.replace x ++ feed ∷ [])) (lines y) enough

read_block :
    (size position : ℕ) (file : List ℕ)
    → size ≤ position
    → (take size (drop (position - size) file) ++ drop position file ≡ drop (position - size) file)
      × (feeds (drop position file) + feeds (take size (drop (position - size) file))
          ≡ feeds (drop (position - size) file))
read_block size position file fits =
    let rest = drop (position - size) file in
    let end : position - size + size ≡ position = ground (arith, fits) in
    let joined : take size rest ++ drop position file ≡ rest =
      ap (λ k. take size rest ++ k)
        (ap (λ k. drop k file) (sym end) ∙ sym (drop-drop size (position - size) file))
      ∙ take-drop_append size rest in
    (
      joined,
      ground (
        arith,
        count_where-append (λ k. eqb k feed) (take size rest) (drop position file),
        joined,
      ),
    )

-- What the loop has read is the file from some position on, which is its start unless there are more
-- line feeds behind it than the limit.
read_blocks-drop :
    (fuel block_size limit : ℕ) (file : List ℕ) (position : ℕ)
    → 1 ≤ block_size
    → position ≤ fuel
    → (q : ℕ) × (read_blocks fuel block_size limit file position
          (feeds (drop position file))
          (drop position file)
        ≡ drop q file)
      × ((q ≡ 0) ⊎ (limit < feeds (drop q file)))
unfolding read_blocks
read_blocks-drop zero block_size limit file position some_bytes enough =
    (position, refl, inl (ground (arith, enough)))
read_blocks-drop (suc fuel) block_size limit file position some_bytes enough =
    elim (Bool-cases (ltb 0 position)) [
      | inr start ↦ rw start (position, refl, inl (ground (arith, start)))
      | inl more ↦ elim (Bool-cases (leb (feeds (drop position file)) limit)) [
        | inr full ↦ rw (more, full) (position, refl, inr (ground (arith, full)))
        | inl few ↦
            let size = if ltb block_size position then block_size else position in
            let fits : size ≤ position = ground arith in
            let smaller : position - size ≤ fuel = ground (arith, some_bytes, enough, more) in
            let block = read_block size position file fits in
            rw (more, few, block.1, block.0)
              (read_blocks-drop fuel block_size limit file (position - size) some_bytes smaller)
      ]
    ]

-- For blocks of a byte at least, a limit of a line at least, and any bytes of the file, the lines that
-- `_tail_lines` gives are the last ones, at most as many as the limit, of all the lines that the
-- whole file has, decoded in the same way.
pub tail_lines-last_of :
    (u : Utf8)
    → IsUtf8 u
    → (block_size limit : ℕ) (file : List ℕ) → 1 ≤ block_size
    → 1 ≤ limit
    → tail_lines u block_size limit file ≡ last_of limit (splitlines (u.replace file))
unfolding tail_lines
tail_lines-last_of u sound block_size limit file some_bytes a_line =
    let whole = drop-length file in
    let loop =
      read_blocks-drop (length file) block_size limit file (length file) some_bytes
        (ground arith) in
    let none_yet : feeds (drop (length file) file) ≡ 0 = ap feeds whole in
    let read : read_blocks (length file) block_size limit file (length file) 0 []
        ≡ drop loop.0 file =
      ap (λ k. read_blocks (length file) block_size limit file (length file) (feeds k) k)
        (sym whole)
      ∙ loop.1 in
    let positive : leb limit 0 ≡ false = ground (arith, a_line) in
    rw (positive, read) (answer loop.0 loop.2)
  where
    answer :
        (q : ℕ)
        → ((q ≡ 0) ⊎ (limit < feeds (drop q file)))
        → last_of limit (splitlines (u.replace (drop q file)))
          ≡ last_of limit (splitlines (u.replace file))
    answer q (inl start) = ap (λ k. last_of limit (splitlines (u.replace (drop k file)))) start
    answer q (inr full) =
        last_of-lines u sound limit [] (take q file) (drop q file) full
        ∙ ap (λ k. last_of limit (splitlines (u.replace k))) (take-drop_append q file)
