-- ===== src/Middleware/Timeout.antt =====
-- Timeout: the deadline of the rest of the chain.
use ginblade.Prelude.{
  leb, if◌then◌else◌, ℕ, ◌+◌, ◌≤◌, ◌≡◌, refl, ◌⊎◌, inl, inr, Option, none, some, true, false, arith,
  Bool-cases,
}
use ginblade.Prelude.Int.{ℤ, pos_part, is_positive}
use ginblade.Context.{Context, deadline, with_deadline}
use ginblade.Http.{Gin, Handler}
use ginblade.Middleware.{timeout}

-- A deadline that is no later than a time, nor than the deadline that was there before.
abbrev pub IsWithin : ℕ → Option ℕ → Option ℕ → Type 0
IsWithin limit none after = after ≡ some limit
IsWithin limit (some d) after = (x : ℕ) × (after ≡ some x) × (x ≤ limit) × (x ≤ d)

deadline-IsWithin :
    (limit : ℕ) (ctx : Context) (before : Option ℕ)
    → deadline ctx ≡ before
    → IsWithin limit before (deadline (with_deadline limit ctx))
unfolding deadline
deadline-IsWithin limit ctx none h = rw h
deadline-IsWithin limit ctx (some d) h =
    (if leb limit d then limit else d, rw h, ground arith, ground arith)

module _ {W : Type 0} (d : ℤ) (now : ℕ) (next : Handler W) (c : Gin) (w : W) where
  -- With a positive timeout the rest of the chain runs under a deadline that is no later than the
  -- timeout from now, and no later than the one before; with another, the request is left alone.
  pub timeout_lem :
      ((is_positive d ≡ true)
        × ((ctx : Context) × (timeout d now next c w ≡ next (record c { ctx = ctx }) w)
            × IsWithin (now + pos_part d) (deadline c.ctx) (deadline ctx)))
      ⊎ ((is_positive d ≡ false) × (timeout d now next c w ≡ next c w))
  unfolding timeout
  timeout_lem = elim (Bool-cases (is_positive d)) [
    | inl bounded ↦ inl (
      bounded,
      (with_deadline (now + pos_part d) c.ctx, rw bounded, deadline-IsWithin _ c.ctx _ refl),
    )
    | inr free ↦ inr (free, rw free)
  ]
