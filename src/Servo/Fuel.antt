-- ===== src/Servo/Fuel.antt =====
-- The reader of replies ends, and what it accepts is a whole reply.
use xbotics_hey_robot.Prelude.{
  ℕ, zero, suc, ◌+◌, ◌≤◌, ◌<◌, ◌≡◌, refl, sym, ap, ◌∙◌, ◌⊎◌, Option, none, some, leb, or_else,
  Bool-cases, List, [], ◌∷◌, arith, length, take, inl, inr,
}
use xbotics_hey_robot.Servo.Reply.{
  CommResult, comm_success, comm_rx_corrupt, find_head, Round, answer, again, read_body, round,
  read_loop, read_rx,
}

length-find_head :
    (id last before : ℕ) (bytes : List ℕ) → length (find_head id last before bytes) ≤ length bytes
unfolding find_head
length-find_head id last before [] = omega arith
length-find_head id last before (b ∷ bytes) = ground (arith, length-find_head id b last bytes)

round-again :
    (id n : ℕ) (bytes later : List ℕ) → round id n bytes ≡ again later → length later < length bytes
unfolding round
round-again id n [] later h = absurd (ground arith)
round-again id n (size ∷ bytes) later h = ground arith

Round-cases :
    (r : Round)
    → ((a : Option (List ℕ) × CommResult) × (r ≡ answer a)) ⊎ ((later : List ℕ) × (r ≡ again later))
Round-cases (answer a) = inl (a, refl)
Round-cases (again later) = inr (later, refl)

read_loop_ends :
    (f g id n : ℕ) (bytes : List ℕ)
    → length bytes < f
    → length bytes < g
    → (a : Option (List ℕ) × CommResult) × (read_loop f id n bytes ≡ some a)
      × (read_loop g id n bytes ≡ some a)
unfolding read_loop
read_loop_ends zero g id n bytes h k = absurd (omega arith)
read_loop_ends (suc f) zero id n bytes h k = absurd (omega arith)
read_loop_ends (suc f) (suc g) id n bytes h k = elim (Bool-cases (leb (6 + n) (length bytes))) [
  | inr short ↦ rw short ((none, comm_rx_corrupt), refl, refl)
  | inl long ↦ elim (Round-cases (round id n (find_head id 0 0 bytes))) [
    | inl (a, e) ↦ rw (long, e) (a, refl, refl)
    | inr (later, e) ↦
        let less = round-again id n (find_head id 0 0 bytes) later e in
        let fewer = length-find_head id 0 0 bytes in
        rw (long, e) (read_loop_ends f g id n later (omega arith) (omega arith))
  ]
]

-- With more fuel than there are bytes, the loop of the reader ends by its own tests, never for lack
-- of fuel, and what it then answers is the answer of the reader.
pub read_rx-read_loop :
    (fuel id n : ℕ) (bytes : List ℕ)
    → length bytes < fuel
    → read_loop fuel id n bytes ≡ some (read_rx bytes id n)
unfolding read_rx
read_rx-read_loop fuel id n bytes h =
    let m = read_loop_ends fuel (suc (length bytes)) id n bytes h (omega arith) in
    m.1 ∙ ap (λ o. some (or_else o (none, comm_rx_corrupt))) (sym m.2)

length-take : (n : ℕ) (xs : List ℕ) → n ≤ length xs → length (take n xs) ≡ n
length-take zero xs h = refl
length-take (suc n) [] h = absurd (omega arith)
length-take (suc n) (x ∷ xs) h = omega (arith, length-take n xs)

read_body_accepts :
    (id n : ℕ) (bytes data_bytes : List ℕ)
    → n + 2 ≤ length bytes
    → read_body id n bytes ≡ (some data_bytes, comm_success)
    → length data_bytes ≡ n + 1
unfolding read_body
read_body_accepts id n [] d h e = absurd (ground arith)
read_body_accepts id n (error ∷ bytes) d h e = ground (arith, length-take n bytes)

round_accepts :
    (id n : ℕ) (bytes data_bytes : List ℕ)
    → round id n bytes ≡ answer (some data_bytes, comm_success)
    → length data_bytes ≡ n + 1
unfolding round
round_accepts id n [] d e = absurd (ground arith)
round_accepts id n (size ∷ bytes) d e = ground (arith, read_body_accepts id n bytes d)

read_loop_accepts :
    (fuel id n : ℕ) (bytes data_bytes : List ℕ)
    → read_loop fuel id n bytes ≡ some (some data_bytes, comm_success)
    → length data_bytes ≡ n + 1
unfolding read_loop
read_loop_accepts zero id n bytes d e = absurd (ground arith)
read_loop_accepts (suc fuel) id n bytes d e =
    elim (Round-cases (round id n (find_head id 0 0 bytes))) [
      | inl (a, r) ↦ ground (arith, r, round_accepts id n (find_head id 0 0 bytes) d)
      | inr (later, r) ↦ ground (arith, r, read_loop_accepts fuel id n later d)
    ]

-- What is answered with success is the error byte and exactly the data bytes asked for.
pub read_rx_accepts :
    (bytes data_bytes : List ℕ) (id n : ℕ)
    → read_rx bytes id n ≡ (some data_bytes, comm_success)
    → length data_bytes ≡ n + 1
unfolding read_rx
read_rx_accepts bytes d id n e =
    let m = read_rx-read_loop (suc (length bytes)) id n bytes (omega arith) in
    read_loop_accepts (suc (length bytes)) id n bytes d (m ∙ ap (λ a. some a) e)
