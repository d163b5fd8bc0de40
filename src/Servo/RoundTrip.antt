-- ===== src/Servo/RoundTrip.antt =====
-- Positions and words survive the protocol, and a reply is read back.
use xbotics_hey_robot.Prelude.{
  ℕ, ◌+◌, ◌^◌, ◌<◌, ◌≡◌, refl, some, List, [], ◌∷◌, ◌++◌, arith, length, take, drop, length-append,
}
use xbotics_hey_robot.Prelude.Int.{ℤ, pos, negsuc, pos_part, neg_part}
use xbotics_hey_robot.Servo.Words.{
  scs_tohost, scs_toscs, scs_makeword, scs_makedword, scs_loword, scs_hiword, scs_lobyte,
  scs_hibyte,
}
use xbotics_hey_robot.Servo.Reply.{comm_success, sum, complement, round, read_rx}

-- A signed value below 2 ^ 15 in magnitude comes back from the sign bit that it is sent with.
pub scs_tohost-scs_toscs :
    (z : ℤ) → pos_part z + neg_part z < 2 ^ 15 → scs_tohost (scs_toscs z 15) 15 ≡ z
unfolding scs_tohost scs_toscs
scs_tohost-scs_toscs (pos n) h = ground arith
scs_tohost-scs_toscs (negsuc n) h = ground arith

-- A word is put together again from its bytes, in either order of bytes.
pub scs_makeword-bytes :
    (end w : ℕ) → w < 65536 → scs_makeword end (scs_lobyte end w) (scs_hibyte end w) ≡ w
unfolding scs_makeword scs_lobyte scs_hibyte
scs_makeword-bytes end w h = ground arith

-- A double word is put together again from its low and its high word.
pub scs_makedword-words : (w : ℕ) → w < 2 ^ 32 → scs_makedword (scs_loword w) (scs_hiword w) ≡ w
unfolding scs_makedword scs_loword scs_hiword
scs_makedword-words w h = omega arith

take-append : (xs ys : List ℕ) → take (length xs) (xs ++ ys) ≡ xs
take-append [] ys = refl
take-append (x ∷ xs) ys = rw (take-append xs ys)

drop-append : (xs ys : List ℕ) → drop (length xs) (xs ++ ys) ≡ ys
drop-append [] ys = refl
drop-append (x ∷ xs) ys = drop-append xs ys

-- The reply of a servo: the head, the size, the error byte, the data and the checksum.
abbrev pub reply : ℕ → ℕ → List ℕ → List ℕ → List ℕ
reply id error body rest =
    255
    ∷ 255
    ∷ id
    ∷ (length body + 2)
    ∷ error
    ∷ (body ++ complement (id + (length body + 2) + error + sum body) ∷ rest)

-- The reply that leads the bytes is read back whole, whatever bytes follow it.
pub read_rx-reply :
    (id error : ℕ) (body rest : List ℕ)
    → read_rx (reply id error body rest) id (length body) ≡ (some (error ∷ body), comm_success)
unfolding read_rx round
read_rx-reply id error body rest =
    let check = complement (id + (length body + 2) + error + sum body) in
    ground (
      arith,
      take-append body (check ∷ rest),
      drop-append body (check ∷ rest),
      length-append body (check ∷ rest),
    )
