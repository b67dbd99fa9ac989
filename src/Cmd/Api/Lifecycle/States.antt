-- ===== src/Cmd/Api/Lifecycle/States.antt =====
-- What holds in every state of the process.
use ginblade.Prelude.{◌≡◌, refl, ap, ◌⊎◌, inl, inr, true, Option, none, some, some-injective}
use ginblade.Errors.{GoError}
use ginblade.Shutdown.{wait_for_server_exit}
use ginblade.Cmd.Api.Lifecycle.{
  Runner, running, sending, gone, Main, selecting, fatal, returned, stopping, forcing, waiting,
  stopped, Running, initial, receive, after_shutdown, take, Step, run_returns, send, signal,
  server_first, signal_first, shutdown_returns, close_returns, exit_comes, timer_fires, Reaches,
  start, next,
}

-- What the goroutine has sent is still in the channel.
abbrev pub Owed : Running → Type 0
Owed s = (e : Option GoError) → s.runner ≡ gone e → s.channel ≡ some e

-- The stop's error is that of the timer, or the server's own.
abbrev pub IsExit : Runner → Option GoError → Type 0
IsExit r x = (x ≡ wait_for_server_exit none) ⊎ ((e : Option GoError) × (r ≡ gone e) × (x ≡ e))

-- What main knows where it is.
abbrev pub Knows : Main → Running → Type 0
Knows selecting s = Owed s
Knows returned s = s.runner ≡ gone none
Knows (fatal e) s = s.runner ≡ gone (some e)
Knows stopping s = (s.signalled ≡ true) × Owed s
Knows forcing s = (s.signalled ≡ true) × Owed s
Knows (waiting forced) s = (s.signalled ≡ true) × Owed s
Knows (stopped forced x) s = (s.signalled ≡ true) × IsExit s.runner x

-- What holds in every state.
pub record IsConsistent (s : Running) : Type 0 where
  pub unsent : s.runner ≡ running → s.channel ≡ none
  pub room : (e : Option GoError) → s.runner ≡ sending e → s.channel ≡ none
  pub sent : (e : Option GoError) → s.channel ≡ some e → s.runner ≡ gone e
  pub knows : Knows s.main s

initial-IsConsistent : IsConsistent initial
initial-IsConsistent = record {
  unsent = λ h. refl;
  room = λ e h. refl;
  sent = λ e h. cc;
  knows = λ e h. cc;
}

IsExit-later :
    (r r' : Runner) (x : Option GoError)
    → ((e : Option GoError) → r ≡ gone e → r' ≡ gone e)
    → IsExit r x
    → IsExit r' x
IsExit-later r r' x kept (inl late) = inl late
IsExit-later r r' x kept (inr (e, has, is)) = inr (e, kept e has, is)

-- A step that is not main's leaves main what it knows.
Knows-later :
    (m : Main) (s t : Running)
    → (s.signalled ≡ true → t.signalled ≡ true)
    → ((e : Option GoError) → s.runner ≡ gone e → t.runner ≡ gone e)
    → (Owed s → Owed t)
    → Knows m s
    → Knows m t
Knows-later selecting s t on kept owed k = owed k
Knows-later returned s t on kept owed k = kept none k
Knows-later (fatal e) s t on kept owed k = kept (some e) k
Knows-later stopping s t on kept owed k = (on k.0, owed k.1)
Knows-later forcing s t on kept owed k = (on k.0, owed k.1)
Knows-later (waiting forced) s t on kept owed k = (on k.0, owed k.1)
Knows-later (stopped forced x) s t on kept owed k =
    (on k.0, IsExit-later s.runner t.runner x kept k.1)

gone-injective : {a b : Option GoError} → gone a ≡ gone b → a ≡ b
gone-injective h = cc

running-ne-gone : (r : Runner) (e : Option GoError) → r ≡ running → r ≡ gone e → ⊥
running-ne-gone r e h k = cc

sending-ne-gone : (r : Runner) (e f : Option GoError) → r ≡ sending e → r ≡ gone f → ⊥
sending-ne-gone r e f h k = cc

receive-Knows :
    (s : Running) (e : Option GoError) → s.runner ≡ gone e → Knows (receive e) (take (receive e) s)
unfolding take
receive-Knows s none h = h
receive-Knows s (some e) h = h

after_shutdown-Knows :
    (s : Running) (answer : Option GoError)
    → (s.signalled ≡ true) × Owed s
    → Knows (after_shutdown answer) (record s { main = after_shutdown answer })
after_shutdown-Knows s (some e) k = k
after_shutdown-Knows s none k = k

Step-IsConsistent :
    {answer : Option GoError} {s t : Running} → Step answer s t → IsConsistent s → IsConsistent t
unfolding take wait_for_server_exit
Step-IsConsistent (run_returns s e r) i = record {
  unsent = λ h. i.unsent r;
  room = λ f h. i.unsent r;
  sent = λ f h. absurd (running-ne-gone s.runner f r (i.sent f h));
  knows =
      Knows-later s.main s _ (λ h. h) (λ f h. absurd (running-ne-gone s.runner f r h)) (λ o f h. cc)
        i.knows;
}
Step-IsConsistent (send s e r c) i = record {
  unsent = λ h. cc;
  room = λ f h. cc;
  sent = λ f h. ap gone (some-injective e f h);
  knows =
      Knows-later s.main s _ (λ h. h) (λ f h. absurd (sending-ne-gone s.runner e f r h))
        (λ o f h. ap some (gone-injective h)) i.knows;
}
Step-IsConsistent (signal s) i = record {
  unsent = i.unsent;
  room = i.room;
  sent = i.sent;
  knows = Knows-later s.main s _ (λ h. refl) (λ f h. h) (λ o. o) i.knows;
}
Step-IsConsistent (server_first s e m c) i = record {
  unsent = λ h. refl;
  room = λ f h. refl;
  sent = λ f h. cc;
  knows = receive-Knows s e (i.sent e c);
}
Step-IsConsistent (signal_first s m g) i = record {
  unsent = i.unsent;
  room = i.room;
  sent = i.sent;
  knows = (g, rw m at i.knows);
}
Step-IsConsistent {answer = answer} (shutdown_returns s m) i = record {
  unsent = i.unsent;
  room = i.room;
  sent = i.sent;
  knows = after_shutdown-Knows s answer (rw m at i.knows);
}
Step-IsConsistent (close_returns s m) i = record {
  unsent = i.unsent;
  room = i.room;
  sent = i.sent;
  knows = rw m at i.knows;
}
Step-IsConsistent (exit_comes s forced e m c) i =
    let k : (s.signalled ≡ true) × Owed s = rw m at i.knows in
    record {
      unsent = λ h. refl;
      room = λ f h. refl;
      sent = λ f h. cc;
      knows = (k.0, inr (e, i.sent e c, refl));
    }
Step-IsConsistent (timer_fires s forced m) i =
    let k : (s.signalled ≡ true) × Owed s = rw m at i.knows in
    record { unsent = i.unsent; room = i.room; sent = i.sent; knows = (k.0, inl refl) }

pub Reaches-IsConsistent :
    {answer : Option GoError} {s : Running} → Reaches answer s → IsConsistent s
Reaches-IsConsistent start = initial-IsConsistent
Reaches-IsConsistent (next r s) = Step-IsConsistent s (Reaches-IsConsistent r)
