-- ===== src/Cmd/Api/Lifecycle.antt =====
-- cmd/api/main.go: the goroutine that runs the server, the channel that it sends its error through,
-- the signal, and main from its select on. What Shutdown answers is an
-- argument, and Run returns at any time with any error.
pub mod States
pub mod Endings
pub mod Refinement
use ginblade.Prelude.{◌≡◌, Bool, true, false, Option, none, some}
use ginblade.Errors.{GoError}
use ginblade.Shutdown.{wait_for_server_exit}

-- The goroutine: Run runs, or has returned and is sent, or the goroutine has returned.
pub data Runner : Type 0 where
  running : Runner
  sending gone : Option GoError → Runner

-- Main: at its select; dead by Fatal; returned; in Shutdown; in Close; in waitForServerExit, with
-- what became of the stop so far; and behind shutdownWebServer, with its two results.
pub data Main : Type 0 where
  selecting returned stopping forcing : Main
  fatal : GoError → Main
  waiting : Bool → Main
  stopped : Bool → Option GoError → Main

pub record Running : Type 0 where
  pub runner : Runner
  -- errCh, with room for one error
  pub channel : Option (Option GoError)
  pub signalled : Bool
  pub main : Main

abbrev pub initial : Running
initial = record { runner = running; channel = none; signalled = false; main = selecting }

-- The case of the select for an error of the server.
abbrev pub receive : Option GoError → Main
receive none = returned
receive (some e) = fatal e

-- What follows Shutdown.
abbrev pub after_shutdown : Option GoError → Main
after_shutdown (some e) = forcing
after_shutdown none = waiting false

unfoldable pub take : Main → Running → Running
take m s = record s { channel = none; main = m }

-- `answer` is what Shutdown returns, if it is called.
module _ (answer : Option GoError) where
  -- One step of the goroutine, of the outside, or of main.
  pub data Step : Running → Running → Type 0 where
    run_returns :
        (s : Running) (e : Option GoError)
        → s.runner ≡ running
        → Step s (record s { runner = sending e })
    send :
        (s : Running) (e : Option GoError)
        → s.runner ≡ sending e
        → s.channel ≡ none
        → Step s (record s { runner = gone e; channel = some e })
    signal : (s : Running) → Step s (record s { signalled = true })
    server_first :
        (s : Running) (e : Option GoError)
        → s.main ≡ selecting
        → s.channel ≡ some e
        → Step s (take (receive e) s)
    signal_first :
        (s : Running)
        → s.main ≡ selecting
        → s.signalled ≡ true
        → Step s (record s { main = stopping })
    shutdown_returns :
        (s : Running) → s.main ≡ stopping → Step s (record s { main = after_shutdown answer })
    close_returns : (s : Running) → s.main ≡ forcing → Step s (record s { main = waiting true })
    exit_comes :
        (s : Running) (forced : Bool) (e : Option GoError)
        → s.main ≡ waiting forced
        → s.channel ≡ some e
        → Step s (take (stopped forced (wait_for_server_exit (some e))) s)
    timer_fires :
        (s : Running) (forced : Bool)
        → s.main ≡ waiting forced
        → Step s (record s { main = stopped forced (wait_for_server_exit none) })

  -- The states that the process can get into from its select on.
  pub data Reaches : Running → Type 0 where
    start : Reaches initial
    next : {s t : Running} → Reaches s → Step s t → Reaches t
