-- ===== src/Servo/Words.antt =====
-- The helpers of `_StatefulAdapter`. The bit operations are written by division: `a & (1 << b)`
-- tests the digit at b, `a & ~(1 << b)` takes it off, and `n | (1 << b)` puts it on.
use xbotics_hey_robot.Prelude.{
  ℕ, ◌+◌, ◌-◌, ◌*◌, ◌/◌, ◌%◌, ◌^◌, Bool, List, [], ◌∷◌, if◌then◌else◌, eqb,
}
use xbotics_hey_robot.Prelude.Int.{ℤ, pos, negsuc, sub_ℕ}

-- `-n`
abbrev pub negated : ℕ → ℤ
negated n = sub_ℕ 0 n

abbrev pub bit_set : ℕ → ℕ → Bool
bit_set a b = eqb (a / 2 ^ b % 2) 1

unfoldable pub scs_tohost : ℕ → ℕ → ℤ
scs_tohost a b = if bit_set a b then negated (a - 2 ^ b) else pos a

unfoldable pub scs_toscs : ℤ → ℕ → ℕ
scs_toscs (pos n) b = n
scs_toscs (negsuc n) b = if bit_set (n + 1) b then n + 1 else n + 1 + 2 ^ b

-- The order of bytes: 0 puts the low byte first.
unfoldable pub scs_makeword : ℕ → ℕ → ℕ → ℕ
scs_makeword end a b = if eqb end 0 then a % 256 + b % 256 * 256 else b % 256 + a % 256 * 256

unfoldable pub scs_makedword : ℕ → ℕ → ℕ
scs_makedword a b = a % 65536 + b % 65536 * 65536

unfoldable pub scs_loword : ℕ → ℕ
scs_loword w = w % 65536

unfoldable pub scs_hiword : ℕ → ℕ
scs_hiword w = w / 65536 % 65536

unfoldable pub scs_lobyte : ℕ → ℕ → ℕ
scs_lobyte end w = if eqb end 0 then w % 256 else w / 256 % 256

unfoldable pub scs_hibyte : ℕ → ℕ → ℕ
scs_hibyte end w = if eqb end 0 then w / 256 % 256 else w % 256

-- The parameters that `WritePosEx` and `SyncWritePosEx` write from the address of the acceleration.
unfoldable pub position_packet : ℕ → ℤ → ℕ → ℕ → List ℕ
unfolding scs_lobyte scs_hibyte scs_toscs
position_packet end position speed acc =
    let word = scs_toscs position 15 in
    acc
    ∷ scs_lobyte end word
    ∷ scs_hibyte end word
    ∷ 0
    ∷ 0
    ∷ scs_lobyte end speed
    ∷ scs_hibyte end speed
    ∷ []
