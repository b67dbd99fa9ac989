-- ===== src/WorkerApp/Termination.antt =====
-- How many steps Run takes of its own.
use ginblade.Prelude.{
  ◌≡◌, ◌≤◌, ◌+◌, refl, ◌∙◌, ap, ◌⊎◌, inl, inr, ℕ, Bool, true, false, Option, none, some, arith,
}
use ginblade.Errors.{GoError}
use ginblade.WorkerApp.{
  Serving, running, returned, Group, server_returns, shut_down, Step, cancel, signal, serve, watch,
  Reaches, start, step,
}
use ginblade.WorkerApp.Lifecycle.{error_of, IsDone, IsConsistent, Reaches-IsConsistent}

-- A step of one of the goroutines that no outside event stands for: neither the caller's, nor the
-- signal, nor a server that cannot start.
abbrev pub IsOwn : {g h : Group} → Step g h → Type 0
IsOwn (cancel g) = ⊥
IsOwn (signal g) = ⊥
IsOwn (serve g none r may) = Unit
IsOwn (serve g (some e) r may) = ⊥
IsOwn (watch g c w) = Unit

abbrev own : {g h : Group} → Step g h → ℕ
own (cancel g) = 0
own (signal g) = 0
own (serve g e r may) = 1
own (watch g c w) = 1

-- The number of the goroutines' steps.
unfoldable pub own_steps : {g : Group} → Reaches g → ℕ
own_steps start = 0
own_steps (step g h r s) = own_steps r + own s

abbrev served : Serving → ℕ
served running = 0
served (returned e) = 1

abbrev stopped : Bool → ℕ
stopped true = 0
stopped false = 1

-- How many goroutines have returned.
abbrev gone : Group → ℕ
gone g = served g.serving + stopped g.watching

gone-step : {g h : Group} (s : Step g h) → gone h ≡ gone g + own s
unfolding server_returns shut_down
gone-step (cancel g) = omega arith
gone-step (signal g) = omega arith
gone-step (serve g e r may) = omega (arith, ap served r)
gone-step (watch g c w) = omega (arith, ap stopped w)

-- Each of these steps is the return of one goroutine.
own_steps-eq-gone : {g : Group} (r : Reaches g) → own_steps r ≡ gone g
unfolding own_steps
own_steps-eq-gone start = refl
own_steps-eq-gone (step g h r s) = omega (arith, own_steps-eq-gone r, gone-step s)

served_le : (v : Serving) → served v ≤ 1
served_le running = omega arith
served_le (returned e) = omega arith

stopped_le : (b : Bool) → stopped b ≤ 1
stopped_le true = omega arith
stopped_le false = omega arith

-- The server returned, without an error: Run waits for the caller to cancel.
abbrev pub AwaitsCancel : Group → Type 0
AwaitsCancel g = (g.serving ≡ returned none) × (g.watching ≡ true) × (g.canceled ≡ false)

-- A step of a goroutine is possible.
abbrev pub CanMove : Group → Type 0
CanMove g = (h : Group) × (s : Step g h) × IsOwn s

-- The server runs, and no signal has come; the watching goroutine has nothing to do.
abbrev pub AwaitsSignal : Group → Type 0
AwaitsSignal g =
    (g.serving ≡ running) × (g.signalled ≡ false) × ((g.watching ≡ false) ⊎ (g.canceled ≡ false))

next_of :
    (g : Group) (serving : Serving) (watching canceled signalled : Bool)
    → IsConsistent g
    → g.serving ≡ serving
    → g.watching ≡ watching
    → g.canceled ≡ canceled
    → g.signalled ≡ signalled
    → CanMove g ⊎ ((e : Option GoError) × IsDone g e) ⊎ AwaitsSignal g ⊎ AwaitsCancel g
next_of g running watching canceled true i s w c on = inl (_, serve g none s on, tt)
next_of g running true true false i s w c on = inl (_, watch g c w, tt)
next_of g running false canceled false i s w c on = inr (inr (inl (s, on, inl w)))
next_of g running true false false i s w c on = inr (inr (inl (s, on, inr c)))
next_of g (returned e) false canceled signalled i s w c on = inr (inl (e, (s, w)))
next_of g (returned e) true true signalled i s w c on = inl (_, watch g c w, tt)
next_of g (returned none) true false signalled i s w c on = inr (inr (inr (s, w, c)))
next_of g (returned (some x)) true false signalled i s w c on =
    let canceled = i.failing _ (i.failed ∙ ap error_of s) in cc

-- The goroutines of Run take at most two steps, whatever the caller does. In every state that Run
-- gets into a goroutine can go on, or Run has returned, or it waits in one of two ways: its server
-- runs and no signal has come, while the context is not canceled or the server was told to shut down
-- already; or its server returned after a signal, without an error, and the context is not
-- canceled. So a canceled context alone does not end Run.
pub reached_terminates :
    (g : Group) (r : Reaches g)
    → (own_steps r ≤ 2)
      × (CanMove g ⊎ ((e : Option GoError) × IsDone g e) ⊎ AwaitsSignal g ⊎ AwaitsCancel g)
reached_terminates g r = (
  omega (arith, own_steps-eq-gone r, served_le g.serving, stopped_le g.watching),
  next_of g g.serving g.watching g.canceled g.signalled (Reaches-IsConsistent r) refl refl refl
      refl,
)
