-- ===== src/Middleware/RateLimit/Sweep.antt =====
-- What a sweep removes, what one client's request changes, and what the middleware does with the
-- answer.
use mathlib.Core.Bool.{true}
use mathlib.Core.Path.{fun_ext}
use ginblade.Prelude.{
  Bool, true, false, List, [], ◌∷◌, ◌∙◌, ◌||◌, str_eq, eq_iff, eq_refl, if◌then◌else◌, refl, ap,
  Bool-cases, inl, inr, ℕ, ◌+◌, ◌-◌, ◌*◌, ◌≤◌, ◌≡◌, ◌↔◌, String, Option, none, some, arith,
}
use ginblade.Middleware.RateLimit.{
  sweep_one, sweep_all, cleanup_in_order, cleanup, minute, Visitor, IpRateLimiter, keep, tick, List,
  str_eq, false, Bool, ◌∷◌,
}
use ginblade.Middleware.RateLimit.Library.{Limiters}

keep-eq-some :
    (lib : Limiters) (cutoff : ℕ) (o : Option (Visitor lib)) (v : Visitor lib)
    → (keep lib cutoff o ≡ some v) ↔ ((o ≡ some v) × (cutoff ≤ v.last_seen))
keep-eq-some lib cutoff none v = ground arith
keep-eq-some lib cutoff (some u) v = ground arith

-- After a tick of the sweep the map holds exactly the visitors that it held before and that were
-- seen in the last three minutes.
visitors-tick :
    (lib : Limiters) (now : ℕ) (l : IpRateLimiter lib) (ip : String) (v : Visitor lib)
    → ((tick lib now l).visitors ip ≡ some v)
      ↔ ((l.visitors ip ≡ some v) × (now ≤ v.last_seen + 3 * minute))
unfolding tick
visitors-tick lib now l ip v =
    let (to, from) = keep-eq-some lib (now - 3 * minute) (l.visitors ip) v in
    (λ e. ((to e).0, omega (arith, (to e).1)), λ h. from (h.0, omega (arith, h.1)))

-- The address is among those that the loop visits.
abbrev pub visits : List String → String → Bool
visits [] key = false
visits (ip ∷ ips) key = str_eq ip key || visits ips key

-- The loop visits every address that the map holds a visitor for.
abbrev pub VisitsAll : (lib : Limiters) → List String → IpRateLimiter lib → Type 0
VisitsAll lib ips l = (ip : String) → visits ips ip ≡ false → l.visitors ip ≡ none

module _ (lib : Limiters) (cutoff : ℕ) where
  keep_idem : (o : Option (Visitor lib)) → keep lib cutoff (keep lib cutoff o) ≡ keep lib cutoff o
  keep_idem none = refl
  keep_idem (some v) = ground arith

  sweep_one_same :
      (ip : String) (o : Option (Visitor lib)) (m : String → Option (Visitor lib))
      → m ip ≡ o
      → sweep_one lib cutoff ip o m ip ≡ keep lib cutoff o
  sweep_one_same ip none m e = e
  sweep_one_same ip (some v) m e = rw (e, eq_refl ip) (ground arith)

  sweep_one_other :
      (ip key : String) (o : Option (Visitor lib)) (m : String → Option (Visitor lib))
      → str_eq ip key ≡ false
      → sweep_one lib cutoff ip o m key ≡ m key
  sweep_one_other ip key none m e = refl
  sweep_one_other ip key (some v) m e = ground arith

  sweep_one_at :
      (ip key : String) (m : String → Option (Visitor lib))
      → str_eq ip key ≡ true
      → sweep_one lib cutoff ip (m ip) m key ≡ keep lib cutoff (m key)
  sweep_one_at ip key m same = rw (← (eq_iff ip key).0 same) (sweep_one_same ip (m ip) m refl)

  sweep_all_at :
      (ips : List String) (m : String → Option (Visitor lib)) (key : String)
      → sweep_all lib cutoff ips m key ≡ (if visits ips key then keep lib cutoff (m key) else m key)
  unfolding sweep_all
  sweep_all_at [] m key = refl
  sweep_all_at (ip ∷ ips) m key =
      sweep_all_at ips (sweep_one lib cutoff ip (m ip) m) key ∙ elim (Bool-cases (str_eq ip key)) [
        | inl same ↦ rw (same, sweep_one_at ip key m same, keep_idem (m key)) (ground arith)
        | inr other ↦ rw (other, sweep_one_other ip key (m ip) m other) refl
      ]

  cleanup_in_order-eq-cleanup :
      (ips : List String) (l : IpRateLimiter lib)
      → VisitsAll lib ips l
      → cleanup_in_order lib ips cutoff l ≡ cleanup lib cutoff l
  unfolding cleanup_in_order cleanup
  cleanup_in_order-eq-cleanup ips l all =
      ap (λ m. record l { visitors = m })
        (fun_ext (λ ip. sweep_all_at ips l.visitors ip ∙ elim (Bool-cases (visits ips ip)) [
          | inl visited ↦ rw visited refl
          | inr missed ↦ rw (missed, all ip missed) refl
        ]))

-- In whatever order the loop of cleanup visits the map, it comes to the same; and after a tick the
-- map holds exactly the visitors that it held before and that were seen in the last three minutes.
pub cleanup_in_order_verdict :
    (lib : Limiters) (ips : List String) (now : ℕ) (l : IpRateLimiter lib)
    → VisitsAll lib ips l
    → (cleanup_in_order lib ips (now - 3 * minute) l ≡ tick lib now l)
      × ((ip : String) (v : Visitor lib)
          → ((cleanup_in_order lib ips (now - 3 * minute) l).visitors ip ≡ some v)
            ↔ ((l.visitors ip ≡ some v) × (now ≤ v.last_seen + 3 * minute)))
unfolding tick
cleanup_in_order_verdict lib ips now l all =
    let same = cleanup_in_order-eq-cleanup lib (now - 3 * minute) ips l all in
    (same, λ ip v. rw same (visitors-tick lib now l ip v))
