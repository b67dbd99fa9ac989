-- ===== src/Middleware/RateLimit/Stopping/Races.antt =====
-- When callers of Stop can crash the process, and that a returned Stop ends the loop.
use ginblade.Prelude.{
  ℕ, zero, suc, ◌+◌, ◌-◌, ap, ◌<◌, ◌≤◌, ◌≡◌, ◌↔◌, ◌⊎◌, inl, inr, refl, Bool, true, false, arith,
  if◌then◌else◌,
}
use ginblade.Middleware.RateLimit.Stopping.{
  Loop, selecting, ended, Stopping, initial, enter, find_open, find_closed, close, crash, leave,
  Step, call, pass, skip, shut, clash, sweep, finish, Reaches, start, next,
}

abbrev one : Bool → ℕ
one b = if b then 1 else 0

-- What holds in every state.
record IsCounted (callers limit : ℕ) (s : Stopping) : Type 0 where
  all : s.outside + (s.entered + s.deciding) + (s.returned + one s.crashed) ≡ callers
  few : s.entered + s.deciding + one s.crashed ≤ limit
  stopped : s.closed ≡ true → 1 ≤ s.returned
  closed : 1 ≤ s.returned → s.closed ≡ true
  spare : s.closed ≡ true → suc (s.deciding + one s.crashed) ≤ limit
  broken : s.crashed ≡ true → s.closed ≡ true
  left : s.loop ≡ ended → s.closed ≡ true

module _ (callers limit : ℕ) where
  initial-IsCounted : IsCounted callers limit (initial callers)
  initial-IsCounted = record {
    all = omega arith;
    few = omega arith;
    stopped = λ h. cc;
    closed = λ h. absurd (omega arith);
    spare = λ h. cc;
    broken = λ h. cc;
    left = λ h. cc;
  }

  Step-IsCounted :
      {s t : Stopping} → Step limit s t → IsCounted callers limit s → IsCounted callers limit t
  unfolding enter find_open find_closed close crash leave
  Step-IsCounted (call s o c e l) i = record {
    all = omega (arith, i.all, e);
    few = omega (arith, ap one c, l);
    stopped = i.stopped;
    closed = i.closed;
    spare = i.spare;
    broken = i.broken;
    left = i.left;
  }
  Step-IsCounted (pass s w c e o) i = record {
    all = omega (arith, i.all, e);
    few = omega (arith, i.few, e);
    stopped = i.stopped;
    closed = i.closed;
    spare = λ h. cc;
    broken = i.broken;
    left = i.left;
  }
  Step-IsCounted (skip s w c e o) i = record {
    all = omega (arith, i.all, e);
    few = omega (arith, i.few, e);
    stopped = λ h. omega arith;
    closed = λ h. o;
    spare = i.spare;
    broken = i.broken;
    left = i.left;
  }
  Step-IsCounted (shut s d c e o) i = record {
    all = omega (arith, i.all, e);
    few = omega (arith, i.few, e);
    stopped = λ h. omega arith;
    closed = λ h. refl;
    spare = λ h. omega (arith, i.few, e);
    broken = λ h. refl;
    left = λ h. refl;
  }
  Step-IsCounted (clash s d c e o) i = record {
    all = omega (arith, i.all, e, ap one c);
    few = omega (arith, i.few, e, ap one c);
    stopped = i.stopped;
    closed = i.closed;
    spare = λ h. omega (arith, i.spare o, e, ap one c);
    broken = λ h. o;
    left = i.left;
  }
  Step-IsCounted (sweep s c r) i = i
  Step-IsCounted (finish s c r o) i = record {
    all = i.all;
    few = i.few;
    stopped = i.stopped;
    closed = i.closed;
    spare = i.spare;
    broken = i.broken;
    left = λ h. o;
  }

  Reaches-IsCounted : {s : Stopping} → Reaches callers limit s → IsCounted callers limit s
  Reaches-IsCounted start = initial-IsCounted
  Reaches-IsCounted (next r s) = Step-IsCounted s (Reaches-IsCounted r)

  crashed-lt :
      (s : Stopping) → Reaches callers limit s → s.crashed ≡ true → (2 ≤ callers) × (2 ≤ limit)
  crashed-lt s r h =
      let i = Reaches-IsCounted r in
      let shut = i.broken h in
      (omega (arith, i.all, i.stopped shut, ap one h), omega (arith, i.spare shut, ap one h))

-- Two callers pass the select before either closes the channel.
two_callers :
    (n l : ℕ) → (s : Stopping) × Reaches (suc (suc n)) (suc (suc l)) s × (s.crashed ≡ true)
unfolding enter find_open close crash
two_callers n l =
    let r1 = next start (call (initial (suc (suc n))) (suc n) refl refl (omega arith)) in
    let r2 = next r1 (call _ n refl refl (omega arith)) in
    let r3 = next r2 (pass _ 1 refl refl refl) in
    let r4 = next r3 (pass _ 0 refl refl refl) in
    let r5 = next r4 (shut _ 1 refl refl refl) in (_, next r5 (clash _ 0 refl refl refl), refl)

two_or_more : (n : ℕ) → 2 ≤ n → (m : ℕ) × (n ≡ suc (suc m))
two_or_more n h = (n - 2, omega arith)

-- Callers of Stop can crash the process exactly when there are two of them and two may be in Stop at
-- a time.
pub crash_iff :
    (callers limit : ℕ)
    → ((s : Stopping) × Reaches callers limit s × (s.crashed ≡ true))
      ↔ ((2 ≤ callers) × (2 ≤ limit))
crash_iff callers limit = (
  λ (s, r, h). crashed-lt callers limit s r h,
  λ (c, l).
      let (n, e) = two_or_more callers c in
      let (m, f) = two_or_more limit l in rw (e, f) (two_callers n m),
)

-- The loop has returned, or its next step is to return.
abbrev pub EndsLoop : ℕ → Stopping → Type 0
EndsLoop limit s = (s.loop ≡ ended) ⊎ ((t : Stopping) × Step limit s t × (t.loop ≡ ended))

-- The steps that the callers in Stop have left.
abbrev pub steps_left : Stopping → ℕ
steps_left s = s.entered + s.entered + s.deciding

-- A caller in Stop can go on.
abbrev pub CanGoOn : ℕ → Stopping → Type 0
CanGoOn limit s = (t : Stopping) × Step limit s t × (steps_left t < steps_left s)

module _ (limit : ℕ) (s : Stopping) (live : s.crashed ≡ false) where
  from_select : (w : ℕ) (closed : Bool) → s.entered ≡ suc w → s.closed ≡ closed → CanGoOn limit s
  unfolding find_open find_closed
  from_select w false e o = (_, pass s w live e o, omega (arith, e))
  from_select w true e o = (_, skip s w live e o, omega (arith, e))

  from_default : (d : ℕ) (closed : Bool) → s.deciding ≡ suc d → s.closed ≡ closed → CanGoOn limit s
  unfolding close crash
  from_default d false e o = (_, shut s d live e o, omega (arith, e))
  from_default d true e o = (_, clash s d live e o, omega (arith, e))

  goes_on :
      (w d : ℕ) → s.entered ≡ w → s.deciding ≡ d → 1 ≤ s.entered + s.deciding → CanGoOn limit s
  goes_on (suc w) d e f h = from_select w s.closed e refl
  goes_on zero (suc d) e f h = from_default d s.closed f refl
  goes_on zero zero e f h = absurd (omega (arith, e, f))

  ends_loop : (l : Loop) → s.loop ≡ l → s.closed ≡ true → EndsLoop limit s
  unfolding leave
  ends_loop ended l c = inl l
  ends_loop selecting l c = inr (leave s, finish s live l c, refl)

zero_or_more : (n : ℕ) → (n ≡ 0) ⊎ (1 ≤ n)
zero_or_more zero = inl refl
zero_or_more (suc n) = inr (omega arith)

loop_cases : (l : Loop) → (l ≡ selecting) ⊎ (l ≡ ended)
loop_cases selecting = inl refl
loop_cases ended = inr refl

-- Short of a crash, Stop never waits: if a caller is in it, one can go on, and then fewer steps are
-- left. Once Stop has returned to a caller, the channel is closed, and the loop has returned or its
-- next step may be to return. The loop does not return while the channel is open.
pub stop_verdict :
    (callers limit : ℕ) (s : Stopping)
    → Reaches callers limit s
    → s.crashed ≡ false
    → ((s.entered + s.deciding ≡ 0) ⊎ CanGoOn limit s)
      × ((s.returned ≡ 0) ⊎ ((s.closed ≡ true) × EndsLoop limit s))
      × ((s.loop ≡ selecting) ⊎ (s.closed ≡ true))
stop_verdict callers limit s r live =
    let i = Reaches-IsCounted callers limit r in
    (
      elim (zero_or_more (s.entered + s.deciding)) [
        | inl none ↦ inl none
        | inr some ↦ inr (goes_on limit s live s.entered s.deciding refl refl some)
      ],
      elim (zero_or_more s.returned) [
        | inl none ↦ inl none
        | inr some ↦ inr (i.closed some, ends_loop limit s live s.loop refl (i.closed some))
      ],
      elim (loop_cases s.loop) [ inl on ↦ inl on | inr off ↦ inr (i.left off) ],
    )
