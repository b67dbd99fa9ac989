-- ===== src/Cmd/Api/Lifecycle/Endings.antt =====
-- How the process ends, and that it does.
use ginblade.Prelude.{
  ℕ, ◌+◌, ◌≤◌, ◌≡◌, refl, ap, ◌⊎◌, inl, inr, Bool, true, false, Option, none, some, arith,
}
use ginblade.Errors.{GoError}
use ginblade.Cmd.Api.Lifecycle.{
  Runner, running, sending, gone, Main, selecting, fatal, returned, stopping, forcing, waiting,
  stopped, Running, receive, after_shutdown, take, Step, run_returns, send, signal, server_first,
  signal_first, shutdown_returns, close_returns, exit_comes, timer_fires, Reaches, start, next,
}
use ginblade.Cmd.Api.Lifecycle.States.{Knows, IsExit, IsConsistent, Reaches-IsConsistent}

-- A step of main, or the goroutine's send; neither depends on the outside.
abbrev pub IsOwn : {answer : Option GoError} {s t : Running} → Step answer s t → Type 0
IsOwn (run_returns s e r) = ⊥
IsOwn (send s e r c) = Unit
IsOwn (signal s) = ⊥
IsOwn (server_first s e m c) = Unit
IsOwn (signal_first s m g) = Unit
IsOwn (shutdown_returns s m) = Unit
IsOwn (close_returns s m) = Unit
IsOwn (exit_comes s forced e m c) = Unit
IsOwn (timer_fires s forced m) = Unit

abbrev of_main : {answer : Option GoError} {s t : Running} → Step answer s t → ℕ
of_main (run_returns s e r) = 0
of_main (send s e r c) = 0
of_main (signal s) = 0
of_main (server_first s e m c) = 1
of_main (signal_first s m g) = 1
of_main (shutdown_returns s m) = 1
of_main (close_returns s m) = 1
of_main (exit_comes s forced e m c) = 1
of_main (timer_fires s forced m) = 1

-- The number of main's steps.
unfoldable pub main_steps : {answer : Option GoError} {s : Running} → Reaches answer s → ℕ
main_steps start = 0
main_steps (next r s) = main_steps r + of_main s

-- How far main has got.
abbrev rank : Main → ℕ
rank selecting = 0
rank stopping = 1
rank forcing = 2
rank (waiting forced) = 3
rank returned = 4
rank (fatal e) = 4
rank (stopped forced x) = 4

rank_le : (m : Main) → rank m ≤ 4
rank_le selecting = omega arith
rank_le stopping = omega arith
rank_le forcing = omega arith
rank_le (waiting forced) = omega arith
rank_le returned = omega arith
rank_le (fatal e) = omega arith
rank_le (stopped forced x) = omega arith

rank-receive : (e : Option GoError) → rank (receive e) ≡ 4
rank-receive none = refl
rank-receive (some e) = refl

rank-after_shutdown : (answer : Option GoError) → 2 ≤ rank (after_shutdown answer)
rank-after_shutdown (some e) = omega arith
rank-after_shutdown none = omega arith

rank-step :
    {answer : Option GoError} {s t : Running} (x : Step answer s t)
    → rank s.main + of_main x ≤ rank t.main
unfolding take
rank-step (run_returns s e r) = omega arith
rank-step (send s e r c) = omega arith
rank-step (signal s) = omega arith
rank-step (server_first s e m c) = omega (arith, ap rank m, rank-receive e)
rank-step (signal_first s m g) = omega (arith, ap rank m)
rank-step {answer = answer} (shutdown_returns s m) =
    omega (arith, ap rank m, rank-after_shutdown answer)
rank-step (close_returns s m) = omega (arith, ap rank m)
rank-step (exit_comes s forced e m c) = omega (arith, ap rank m)
rank-step (timer_fires s forced m) = omega (arith, ap rank m)

main_steps-le :
    {answer : Option GoError} {s : Running} (r : Reaches answer s) → main_steps r ≤ rank s.main
unfolding main_steps
main_steps-le start = omega arith
main_steps-le (next r x) = omega (arith, main_steps-le r, rank-step x)

abbrev pub CanMove : Option GoError → Running → Type 0
CanMove answer s = (t : Running) × (x : Step answer s t) × IsOwn x

-- The server serves, and no signal has come.
abbrev pub IsServing : Running → Type 0
IsServing s = (s.main ≡ selecting) × (s.runner ≡ running) × (s.signalled ≡ false)

-- Main is dead of the server's error; or has returned, for a server that returned nil; or is behind
-- a stop that a signal asked for, with the timer's error or what the server returned.
abbrev pub IsOver : Running → Type 0
IsOver s =
    ((e : GoError) × (s.main ≡ fatal e) × (s.runner ≡ gone (some e)))
    ⊎ ((s.main ≡ returned) × (s.runner ≡ gone none))
    ⊎ ((forced : Bool) × (x : Option GoError) × (s.main ≡ stopped forced x)
        × (s.signalled ≡ true)
        × IsExit s.runner x)

at_select :
    {answer : Option GoError} (s : Running) (r : Runner) (g : Bool)
    → IsConsistent s
    → s.main ≡ selecting
    → s.runner ≡ r
    → s.signalled ≡ g
    → CanMove answer s ⊎ IsServing s ⊎ IsOver s
at_select s r true i m h g = inl (_, signal_first s m g, tt)
at_select s running false i m h g = inr (inl (m, h, g))
at_select s (sending e) false i m h g = inl (_, send s e h (i.room e h), tt)
at_select s (gone e) false i m h g =
    let k : Knows selecting s = rw m at i.knows in inl (_, server_first s e m (k e h), tt)

goes_on :
    {answer : Option GoError} (s : Running) (m : Main)
    → IsConsistent s
    → s.main ≡ m
    → CanMove answer s ⊎ IsServing s ⊎ IsOver s
goes_on s selecting i m = at_select s s.runner s.signalled i m refl refl
goes_on s stopping i m = inl (_, shutdown_returns s m, tt)
goes_on s forcing i m = inl (_, close_returns s m, tt)
goes_on s (waiting forced) i m = inl (_, timer_fires s forced m, tt)
goes_on s returned i m = inr (inr (inr (inl (m, rw m at i.knows))))
goes_on s (fatal e) i m = inr (inr (inl (e, m, rw m at i.knows)))
goes_on s (stopped forced x) i m =
    let k : Knows (stopped forced x) s = rw m at i.knows in
    inr (inr (inr (inr (forced, x, m, k.0, k.1))))

-- From its select on, main takes at most four steps, whatever Shutdown answers and whenever the
-- server returns, the signal comes and the timer fires. In every state that the process gets into, main or the goroutine's send can
-- go on, or the server serves and no signal has come, or main is over: by Fatal with the error that
-- the server returned, by a return after the server returned nil, or behind a stop that a signal
-- asked for, whose error is the timer's or what the server returned.
pub reached_verdict :
    (answer : Option GoError) (s : Running) (r : Reaches answer s)
    → (main_steps r ≤ 4) × (CanMove answer s ⊎ IsServing s ⊎ IsOver s)
reached_verdict answer s r =
    (omega (arith, main_steps-le r, rank_le s.main), goes_on s s.main (Reaches-IsConsistent r) refl)
