-- ===== src/Worker/Retry.antt =====
-- The backoff of failed tasks.
use ginblade.Prelude.{
  if◌then◌else◌, ℕ, zero, suc, ◌+◌, ◌*◌, ◌%◌, ◌^◌, ◌<◌, ◌≡◌, refl, Bool, true, arith,
}
use ginblade.Prelude.Int.{ℤ, pos, eqb_ℤ}
use ginblade.Worker.{example_retry_delay}
use native.Mathlib.Nat.{pow-suc}
use Prim.Native.Nat.{min}

-- The documented delay: 5s × 2^n, capped at one hour.
abbrev pub backoff : ℕ → ℕ
backoff n = min (5000000000 * 2 ^ n) 3600000000000

eqb_ℤ_sound : (a b : ℤ) → eqb_ℤ a b ≡ true → a ≡ b
eqb_ℤ_sound a b h = ground arith

agrees : ℕ → Bool
agrees attempts = eqb_ℤ (example_retry_delay attempts) (pos (backoff attempts))

-- At how many numbers of attempts below a bound the delay is another.
differences : ℕ → ℕ
differences zero = 0
differences (suc bound) = let rest = differences bound in if agrees bound then rest else suc rest

no_differences : differences 31 ≡ 0
unfolding differences agrees example_retry_delay
no_differences = refl

agrees_of_differences :
    (bound attempts : ℕ) → differences bound ≡ 0 → attempts < bound → agrees attempts ≡ true
unfolding differences
agrees_of_differences zero attempts same lt = absurd (omega arith)
agrees_of_differences (suc bound) attempts same lt =
    ground (arith, agrees_of_differences bound attempts)

-- Up to 30 failed attempts the delay is the documented one.
pub example_retry_delay-eq-backoff : (n : ℕ) → n < 31 → example_retry_delay n ≡ pos (backoff n)
unfolding agrees
example_retry_delay-eq-backoff n h = eqb_ℤ_sound _ _ (agrees_of_differences 31 n no_differences h)

pow_shift : (n : ℕ) → 2 ^ (n + 64) ≡ 2 ^ n * 2 ^ 64
pow_shift zero = refl
pow_shift (suc n) =
    let e : suc n + 64 ≡ suc (n + 64) = omega arith in
    rw e (omega (arith, pow-suc 2 (n + 64), pow-suc 2 n, pow_shift n))

residue_zero : (n : ℕ) → 2 ^ (n + 64) * 5000000000 % 2 ^ 64 ≡ 0
residue_zero n = rw (pow_shift n) (omega arith)

-- From 64 failed attempts on the shift gives 0, and the task is retried at once.
pub example_retry_delay_wraps : (n : ℕ) → example_retry_delay (n + 64) ≡ pos 0
unfolding example_retry_delay
example_retry_delay_wraps n = rw (residue_zero n)
