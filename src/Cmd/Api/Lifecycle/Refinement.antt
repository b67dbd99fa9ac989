-- ===== src/Cmd/Api/Lifecycle/Refinement.antt =====
-- shutdownWebServer as a function, against the steps of the process.
use ginblade.Prelude.{◌≡◌, ◌⊎◌, Bool, Option, none, some}
use ginblade.Errors.{GoError}
use ginblade.Cmd.Api.Lifecycle.{running, Running, stopped, Reaches}

-- What waitForServerExit gets can come in this state: nothing, before the timer; or an error that is
-- in the channel, or that the server still has to return.
abbrev pub CanGive : Running → Option (Option GoError) → Type 0
CanGive s none = Unit
CanGive s (some e) = (s.channel ≡ some e) ⊎ (s.runner ≡ running)

-- The process, in which Shutdown answers this, can get to the end of a stop with these results.
abbrev pub CanStop : Option GoError → Bool → Option GoError → Type 0
CanStop answer forced x = (t : Running) × Reaches answer t × (t.main ≡ stopped forced x)
