-- ===== src/Shutdown.antt =====
-- cmd/api/main.go: how the process stops its server. What Shutdown, Close and the channel of the
-- server's exit do is an argument; `S` is the state of the server.
use ginblade.Prelude.{
  String, Bool, true, false, Option, none, some, List, [], ◌∷◌, ◌++◌, if◌then◌else◌, ◌≡◌, refl, ◌↔◌,
  arith,
}
use ginblade.Errors.{GoError, sentinel, wrap, is_sentinel}
use ginblade.Http.{Entry, Level, info, warn, error, fault}

-- errServerExitTimeout
abbrev pub err_server_exit_timeout : GoError
err_server_exit_timeout = sentinel "web server exit wait timeout"

-- waitForServerExit: what came through the channel before the timer, if anything did. A closed
-- server sends nil.
unfoldable pub wait_for_server_exit : Option (Option GoError) → Option GoError
wait_for_server_exit none = some (wrap "after the timeout" err_server_exit_timeout)
wait_for_server_exit (some e) = e

abbrev pub process_entry : Level → String → Option GoError → Entry
process_entry level message none = record {
  level = level;
  message = message;
  trace = "";
  fields = [];
}
process_entry level message (some e) = record {
  level = level;
  message = message;
  trace = "";
  fields = fault e ∷ [];
}

abbrev pub close_entries : Option GoError → List Entry
close_entries none = []
close_entries (some e) = process_entry error "web server force close error" (some e) ∷ []

abbrev pub exit_entry : Bool → Option GoError → Entry
unfolding is_sentinel
exit_entry forced (some e) =
    if is_sentinel e "web server exit wait timeout"
    then process_entry warn "web server exit wait timed out" (some e)
    else process_entry error "web server exited with error" (some e)
exit_entry true none = process_entry info "forced shutdown completed" none
exit_entry false none = process_entry info "graceful shutdown completed" none

-- What shutdownWebServer leaves.
pub record Stopped (S : Type 0) : Type 0 where
  pub forced : Bool
  pub failure : Option GoError
  pub log : List Entry
  pub state : S

module _ {S : Type 0} (shutdown close : S → Option GoError × S)
    (exit : S → Option (Option GoError)) where
  abbrev pub finish : Bool → List Entry → S → Stopped S
  finish forced log s =
      let e = wait_for_server_exit (exit s) in
      record { forced = forced; failure = e; log = log ++ exit_entry forced e ∷ []; state = s }

  abbrev pub after_close : GoError → Option GoError × S → Stopped S
  after_close e (c, s) =
      finish true (process_entry error "web server shutdown error" (some e) ∷ close_entries c) s

  abbrev pub after_shutdown : Option GoError × S → Stopped S
  after_shutdown (none, s) = finish false [] s
  after_shutdown (some e, s) = after_close e (close s)

  -- shutdownWebServer
  unfoldable pub shutdown_web_server : S → Stopped S
  unfolding wait_for_server_exit
  shutdown_web_server s = after_shutdown (shutdown s)

  after_shutdown_keeps {ℓ} :
      (P : S → Type ℓ) (p : Option GoError × S)
      → P p.1
      → ((s : S) → P s → P (close s).1)
      → P (after_shutdown p).state
  after_shutdown_keeps P (none, s) h keeps = h
  after_shutdown_keeps P (some e, s) h keeps = keeps s h

  -- What holds of the state after Shutdown, and is kept by Close, holds of the state that is left.
  pub shutdown_web_server_keeps {ℓ} :
      (P : S → Type ℓ) (s : S)
      → P (shutdown s).1
      → ((s : S) → P s → P (close s).1)
      → P (shutdown_web_server s).state
  unfolding shutdown_web_server
  shutdown_web_server_keeps P s = after_shutdown_keeps P (shutdown s)

  -- What a stop comes to, by the answer of Shutdown.
  abbrev pub StopsAs : Option GoError × S → Stopped S → Type 0
  StopsAs (none, s) r =
      (r.forced ≡ false) × (r.state ≡ s) × ((r.failure ≡ none) ↔ (exit s ≡ some none))
  StopsAs (some e, s) r =
      (r.forced ≡ true)
      × (r.state ≡ (close s).1)
      × ((r.failure ≡ none) ↔ (exit (close s).1 ≡ some none))

  exit_iff : (s : S) → (wait_for_server_exit (exit s) ≡ none) ↔ (exit s ≡ some none)
  unfolding wait_for_server_exit
  exit_iff s = ground arith

  stops_as : (p : Option GoError × S) → StopsAs p (after_shutdown p)
  unfolding wait_for_server_exit
  stops_as (none, s) = (refl, refl, exit_iff s)
  stops_as (some e, s) = (refl, refl, exit_iff (close s).1)

  -- Stopping closes the server by force exactly when its graceful shutdown failed, and otherwise
  -- does not close it; either way it then waits for the server's exit, and succeeds exactly when
  -- that came in time and without an error.
  pub shutdown_web_server_lem : (s : S) → StopsAs (shutdown s) (shutdown_web_server s)
  unfolding shutdown_web_server
  shutdown_web_server_lem s = stops_as (shutdown s)
