-- ===== src/Prelude/Text/Split.antt =====
-- Laws of `split_on` and `join`.
use Prim.Native.Nat.{ℕ}
use Prim.Native.Char.{Char, code}
use Prim.Native.String.{String, ◌++◌}
use mathlib.Core.Path.{◌≡◌, refl, ap}
use mathlib.Core.Bool.{false}
use mathlib.Core.List.{List, [], ◌∷◌}
use native.Mathlib.Omega.{arith}
use text.Mathlib.TextLemmas.{nil-append, cons-append}
use ginblade.Prelude.Tests.{◌==◌}
use ginblade.Prelude.Lists.{All}
use ginblade.Prelude.Text.{push_head, split_on, join, Lacks}

push_head-Lacks :
    (sep : ℕ) (c : Char) (ps : List String)
    → (code c == sep) ≡ false
    → All (Lacks sep) ps
    → All (Lacks sep) (push_head c ps)
push_head-Lacks sep c [] h k = ((h, tt), tt)
push_head-Lacks sep c (p ∷ ps) h (k, ks) = ((h, k), ks)

pub split_on-Lacks : (sep : ℕ) (s : String) → All (Lacks sep) (split_on sep s)
unfolding split_on
split_on-Lacks sep String.[] = (tt, tt)
split_on-Lacks sep (String.◌∷◌ c s) =
    ground (arith, split_on-Lacks sep s, push_head-Lacks sep c (split_on sep s))

-- A text without the separator, the separator, and a rest.
split_on-append :
    (sep : Char) (p s : String)
    → Lacks (code sep) p
    → split_on (code sep) (p ++ String.◌∷◌ sep s) ≡ p ∷ split_on (code sep) s
unfolding split_on
split_on-append sep String.[] s h = rw nil-append (ground arith)
split_on-append sep (String.◌∷◌ c p) s h = rw cons-append (rw (h.0, split_on-append sep p s h.1))

pub split_on_of_Lacks : (sep : ℕ) (p : String) → Lacks sep p → split_on sep p ≡ p ∷ []
unfolding split_on
split_on_of_Lacks sep String.[] h = refl
split_on_of_Lacks sep (String.◌∷◌ c p) h = rw (h.0, split_on_of_Lacks sep p h.1)

-- Splitting undoes joining, where no part holds the separator.
pub split_on-join :
    (sep : Char) (p : String) (ps : List String)
    → All (Lacks (code sep)) (p ∷ ps)
    → split_on (code sep) (join (String.◌∷◌ sep String.[]) (p ∷ ps)) ≡ p ∷ ps
unfolding join
split_on-join sep p [] h = split_on_of_Lacks (code sep) p h.0
split_on-join sep p (q ∷ ps) h =
    rw (cons-append, nil-append)
      (rw (split_on-append sep p (join (String.◌∷◌ sep String.[]) (q ∷ ps)) h.0)
        (ap (λ r. p ∷ r) (split_on-join sep q ps h.1)))
