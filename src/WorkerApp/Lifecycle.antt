-- ===== src/WorkerApp/Lifecycle.antt =====
-- What Run comes to.
use ginblade.Prelude.{
  Bool-cases, ◌∙◌, ap, suc, ◌||◌, ◌≡◌, refl, Bool, true, false, Option, none, some, if◌then◌else◌,
  ◌⊎◌, inl, inr,
}
use ginblade.Errors.{GoError}
use ginblade.WorkerApp.{
  is_some, Serving, running, returned, Group, started, run_error, server_returns, shut_down, Step,
  cancel, signal, serve, watch, Reaches, start, step,
}

abbrev pub error_of : Serving → Option GoError
error_of running = none
error_of (returned e) = run_error e

-- What holds in every state of Run.
pub record IsConsistent (g : Group) : Type 0 where
  pub stops : g.shutdowns ≡ (if g.watching then 0 else 1)
  pub stopped : g.watching ≡ false → g.canceled ≡ true
  pub failed : g.failure ≡ error_of g.serving
  pub failing : (e : GoError) → g.failure ≡ some e → g.canceled ≡ true

started-IsConsistent : IsConsistent started
started-IsConsistent = record {
  stops = refl;
  stopped = λ h. cc;
  failed = refl;
  failing = λ e h. cc;
}

not_failed : (g : Group) → g.serving ≡ running → IsConsistent g → g.failure ≡ none
not_failed g r i = i.failed ∙ ap error_of r

one_stop : (g : Group) → g.watching ≡ true → IsConsistent g → suc g.shutdowns ≡ 1
one_stop g w i = rw (i.stops, w)

canceled_of :
    (canceled : Bool) (e : Option GoError) (x : GoError)
    → run_error e ≡ some x
    → (canceled || is_some e) ≡ true
canceled_of canceled none x h = cc
canceled_of true (some e) x h = refl
canceled_of false (some e) x h = refl

step-IsConsistent : {g h : Group} → Step g h → IsConsistent g → IsConsistent h
unfolding server_returns shut_down
step-IsConsistent (cancel g) i = record {
  stops = i.stops;
  stopped = λ h. refl;
  failed = i.failed;
  failing = λ e h. refl;
}
step-IsConsistent (signal g) i = record {
  stops = i.stops;
  stopped = i.stopped;
  failed = i.failed;
  failing = i.failing;
}
step-IsConsistent (serve g e r may) i = record {
  stops = i.stops;
  stopped = λ h. rw (i.stopped h);
  failed = rw (not_failed g r i);
  failing = λ x h. canceled_of g.canceled e x (rw (not_failed g r i) at h);
}
step-IsConsistent (watch g c w) i = record {
  stops = one_stop g w i;
  stopped = λ h. c;
  failed = i.failed;
  failing = i.failing;
}

pub Reaches-IsConsistent : {g : Group} → Reaches g → IsConsistent g
Reaches-IsConsistent start = started-IsConsistent
Reaches-IsConsistent (step g h r s) = step-IsConsistent s (Reaches-IsConsistent r)

-- Both goroutines have returned, and so does Wait.
abbrev pub IsDone : Group → Option GoError → Type 0
IsDone g e = (g.serving ≡ returned e) × (g.watching ≡ false)

-- When Run returns, its context was canceled, the server was told to shut down exactly once, and
-- the error of Run is the server's own, if there was one.
pub reached_done :
    (g : Group) (e : Option GoError)
    → Reaches g
    → IsDone g e
    → (g.canceled ≡ true) × (g.shutdowns ≡ 1) × (g.failure ≡ run_error e)
reached_done g e r (served, stopped) =
    let i = Reaches-IsConsistent r in
    (i.stopped stopped, rw stopped at i.stops, i.failed ∙ ap error_of served)

-- A server that failed cannot keep Run from returning: Run has returned, or its next step is to
-- tell the server to shut down, and then it has.
pub reached_progress :
    (g : Group) (e : GoError)
    → Reaches g
    → g.serving ≡ returned (some e)
    → IsDone g (some e) ⊎ ((h : Group) × Step g h × IsDone h (some e))
unfolding shut_down
reached_progress g e r served =
    let i = Reaches-IsConsistent r in
    elim (Bool-cases g.watching) [
      | inr stopped ↦ inl (served, stopped)
      | inl waiting ↦ inr (
        shut_down g,
        watch g (i.failing _ (i.failed ∙ ap error_of served)) waiting,
        (served, refl),
      )
    ]
