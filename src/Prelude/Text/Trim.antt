-- ===== src/Prelude/Text/Trim.antt =====
-- Laws of `trim_space`.
use Prim.Native.Nat.{ℕ}
use Prim.Native.Char.{code, Char}
use Prim.Native.String.{String}
use mathlib.Core.Path.{◌≡◌, refl, ap, ◌∙◌}
use mathlib.Core.Logic.{inl, inr}
use mathlib.Core.Bool.{false}
use ginblade.Prelude.Tests.{Bool-cases, ◌==◌}
use native.Mathlib.Omega.{arith}
use ginblade.Prelude.Text.{is_space, trim_left, trim_right, trim_space, Lacks, true, is_empty, ◌==◌}

-- The text does not begin with a space.
abbrev StartsClean : String → Type 0
StartsClean String.[] = Unit
StartsClean (String.◌∷◌ c s) = is_space (code c) ≡ false

trim_left-StartsClean : (s : String) → StartsClean (trim_left s)
unfolding trim_left
trim_left-StartsClean String.[] = tt
trim_left-StartsClean (String.◌∷◌ c s) = ground (arith, trim_left-StartsClean s)

trim_left_of_StartsClean : (s : String) → StartsClean s → trim_left s ≡ s
unfolding trim_left
trim_left_of_StartsClean String.[] h = refl
trim_left_of_StartsClean (String.◌∷◌ c s) h = rw h

trim_right-StartsClean : (s : String) → StartsClean s → StartsClean (trim_right s)
unfolding trim_right
trim_right-StartsClean String.[] h = tt
trim_right-StartsClean (String.◌∷◌ c s) h = rw h h

pub trim_right_idem : (s : String) → trim_right (trim_right s) ≡ trim_right s
unfolding trim_right
trim_right_idem String.[] = refl
trim_right_idem (String.◌∷◌ c s) = ground (arith, trim_right_idem s)

pub trim_space_idem : (s : String) → trim_space (trim_space s) ≡ trim_space s
unfolding trim_space
trim_space_idem s =
    ap trim_right (trim_left_of_StartsClean _ (trim_right-StartsClean _ (trim_left-StartsClean s)))
    ∙ trim_right_idem (trim_left s)

trim_left-Lacks : (sep : ℕ) (s : String) → Lacks sep s → Lacks sep (trim_left s)
unfolding trim_left
trim_left-Lacks sep String.[] h = tt
trim_left-Lacks sep (String.◌∷◌ c s) h = ground (arith, trim_left-Lacks sep s)

trim_right-Lacks : (sep : ℕ) (s : String) → Lacks sep s → Lacks sep (trim_right s)
unfolding trim_right
trim_right-Lacks sep String.[] h = tt
trim_right-Lacks sep (String.◌∷◌ c s) h = ground (arith, trim_right-Lacks sep s)

pub trim_space-Lacks : (sep : ℕ) (s : String) → Lacks sep s → Lacks sep (trim_space s)
unfolding trim_space
trim_space-Lacks sep s h = trim_right-Lacks sep _ (trim_left-Lacks sep s h)

not_blank :
    (c : Char) (s : String)
    → is_space (code c) ≡ false
    → is_empty (trim_right (trim_left (String.◌∷◌ c s))) ≡ true
    → ⊥
unfolding trim_left trim_right
not_blank c s h e = ground arith

comma_no_space : (n : ℕ) → is_space n ≡ true → (n == b',') ≡ false
unfolding is_space
comma_no_space n h = ground arith

-- A text of spaces holds no comma.
pub blank-Lacks : (s : String) → is_empty (trim_space s) ≡ true → Lacks b',' s
unfolding trim_space
blank-Lacks String.[] h = tt
blank-Lacks (String.◌∷◌ c s) h = elim (Bool-cases (is_space (code c))) [
  | inl space ↦ (comma_no_space (code c) space, blank-Lacks s (rw (space, trim_left) at h))
  | inr other ↦ absurd (not_blank c s other h)
]
