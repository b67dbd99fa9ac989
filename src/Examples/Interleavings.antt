-- ===== src/Examples/Interleavings.antt =====
-- Goroutines at concrete states: the callers of Stop, and the API process with its server.
use ginblade.Prelude.{◌≡◌, refl, ◌⊎◌, ◌↔◌, ◌≤◌, ◌+◌, true, none, some, Option, arith, ℕ}
use ginblade.Errors.{GoError, plain}
use ginblade.Middleware.RateLimit.Stopping.{
  selecting, Stopping, initial, enter, find_open, close, call, pass, shut, Reaches, start, next,
}
use ginblade.Middleware.RateLimit.Stopping.Races.{crash_iff, stop_verdict, CanGoOn, EndsLoop}
use ginblade.Cmd.Api.Lifecycle
use ginblade.Cmd.Api.Lifecycle.{Running, signal, signal_first, shutdown_returns, run_returns}
use ginblade.Cmd.Api.Lifecycle.Endings.{main_steps, CanMove, IsServing, IsOver, reached_verdict}

crash_iff_example : ((s : Stopping) × Reaches 2 1 s × (s.crashed ≡ true)) ↔ ((2 ≤ 2) × (2 ≤ 1))
crash_iff_example = crash_iff 2 1

-- One of two callers has been through Stop.
abbrev once_stopped : Stopping
once_stopped = record (initial 1) { returned = 1; closed = true }

once_stopped-Reaches : Reaches 2 1 once_stopped
unfolding enter find_open close
once_stopped-Reaches =
    next (next (next start (call (initial 2) 1 refl refl (omega arith))) (pass _ 0 refl refl refl))
      (shut _ 0 refl refl refl)

stop_verdict_example :
    ((once_stopped.entered + once_stopped.deciding ≡ 0) ⊎ CanGoOn 1 once_stopped)
    × ((once_stopped.returned ≡ 0) ⊎ ((once_stopped.closed ≡ true) × EndsLoop 1 once_stopped))
    × ((once_stopped.loop ≡ selecting) ⊎ (once_stopped.closed ≡ true))
stop_verdict_example = stop_verdict 2 1 once_stopped once_stopped-Reaches refl

-- What Shutdown answers in the process.
abbrev refusal : Option GoError
refusal = some (plain "context deadline exceeded")

-- A signal has come while the server serves.
abbrev signalled : Running
signalled = record Lifecycle.initial { signalled = true }

signalled-Reaches : Lifecycle.Reaches refusal signalled
signalled-Reaches = Lifecycle.next Lifecycle.start (signal Lifecycle.initial)

-- Main is in Shutdown.
abbrev stopping : Running
stopping = record signalled { main = Lifecycle.stopping }

stopping-Reaches : Lifecycle.Reaches refusal stopping
stopping-Reaches = Lifecycle.next signalled-Reaches (signal_first signalled refl refl)

reached_verdict_example :
    (main_steps stopping-Reaches ≤ 4)
    × (CanMove refusal stopping ⊎ IsServing stopping ⊎ IsOver stopping)
reached_verdict_example = reached_verdict refusal stopping stopping-Reaches

abbrev shutdown_fails : ℕ → Option GoError × ℕ
shutdown_fails n = (refusal, n)

abbrev close_succeeds : ℕ → Option GoError × ℕ
close_succeeds n = (none, n + 1)

abbrev exit_nil : ℕ → Option (Option GoError)
exit_nil n = some none
