-- ===== src/Servo/Reply.antt =====
-- `GroupSyncRead.readRx`: the reply of one servo in the bytes of all. The index into the packet is
-- the list of the bytes from it on.
use xbotics_hey_robot.Prelude.{
  ℕ, zero, suc, ◌+◌, ◌-◌, ◌%◌, ◌&&◌, Option, none, some, List, [], ◌∷◌, if◌then◌else◌, eqb, leb,
  ltb, length, take, drop, or_else,
}

pub data CommResult : Type 0 where
  comm_success comm_rx_corrupt : CommResult

-- The inner loop: the bytes behind the first 0xFF 0xFF id, none where it does not come.
unfoldable pub find_head : ℕ → ℕ → ℕ → List ℕ → List ℕ
find_head id last before [] = []
find_head id last before (b ∷ bytes) =
    let rest = find_head id b last bytes in
    if eqb before 255 && eqb last 255 && eqb b id then bytes else rest

abbrev pub sum : List ℕ → ℕ
sum [] = 0
sum (b ∷ bytes) = b + sum bytes

-- `~checksum & 0xFF`
abbrev pub complement : ℕ → ℕ
complement n = 255 - n % 256

-- The bytes from the error byte on.
unfoldable pub read_body : ℕ → ℕ → List ℕ → Option (List ℕ) × CommResult
read_body id n [] = (none, comm_rx_corrupt)
read_body id n (error ∷ bytes) =
    let body = take n bytes in
    elim (drop n bytes) [
      | [] ↦ (none, comm_rx_corrupt)
      | check ∷ rest ↦
          if eqb (complement (id + (n + 2) + error + sum body)) check
          then (some (error ∷ body), comm_success)
          else (none, comm_rx_corrupt)
    ]

-- One round of the outer loop behind a head: an answer, or the bytes to go on with.
pub data Round : Type 0 where
  answer : Option (List ℕ) × CommResult → Round
  again : List ℕ → Round

unfoldable pub round : ℕ → ℕ → List ℕ → Round
unfolding read_body
round id n [] = answer (none, comm_rx_corrupt)
round id n (size ∷ bytes) =
    if ltb (length (size ∷ bytes)) (3 + n)
    then answer (none, comm_rx_corrupt)
    else if eqb size (n + 2)
    then answer (read_body id n bytes)
    else again bytes

-- The outer loop, on fuel; `none` where that runs out, as it would where the loop does not end.
unfoldable pub read_loop : ℕ → ℕ → ℕ → List ℕ → Option (Option (List ℕ) × CommResult)
unfolding find_head
read_loop zero id n bytes = none
read_loop (suc fuel) id n bytes =
    let next = round id n (find_head id 0 0 bytes) in
    let rest : Option (Option (List ℕ) × CommResult) = elim next [
      | answer a ↦ some a
      | again later ↦ read_loop fuel id n later
    ] in
    if leb (6 + n) (length bytes) then rest else some (none, comm_rx_corrupt)

unfoldable pub read_rx : List ℕ → ℕ → ℕ → Option (List ℕ) × CommResult
unfolding read_loop
read_rx bytes id n = or_else (read_loop (suc (length bytes)) id n bytes) (none, comm_rx_corrupt)
