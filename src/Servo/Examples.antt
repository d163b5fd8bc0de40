-- ===== src/Servo/Examples.antt =====
-- The theorems of the servo protocol at concrete bytes.
use xbotics_hey_robot.Prelude.{◌≡◌, refl, ℕ, some, List, [], ◌∷◌, arith}
use xbotics_hey_robot.Servo.Reply.{comm_success, round, read_loop, read_rx}
use xbotics_hey_robot.Servo.RoundTrip.{reply, read_rx-reply}
use xbotics_hey_robot.Servo.Fuel.{read_rx-read_loop}

read_rx-reply_example :
    read_rx (reply 1 0 (24 ∷ 8 ∷ []) (255 ∷ [])) 1 2 ≡ (some (0 ∷ 24 ∷ 8 ∷ []), comm_success)
read_rx-reply_example = read_rx-reply 1 0 (24 ∷ 8 ∷ []) (255 ∷ [])

read_rx-read_loop_example : read_loop 20 1 2 (7 ∷ 255 ∷ []) ≡ some (read_rx (7 ∷ 255 ∷ []) 1 2)
read_rx-read_loop_example = read_rx-read_loop 20 1 2 (7 ∷ 255 ∷ []) (omega arith)

abbrev whole : List ℕ
whole = 255 ∷ 255 ∷ 1 ∷ 4 ∷ 0 ∷ 24 ∷ 8 ∷ 218 ∷ []

read_rx-whole : read_rx whole 1 2 ≡ (some (0 ∷ 24 ∷ 8 ∷ []), comm_success)
unfolding read_rx round
read_rx-whole = refl
