-- ===== src/Middleware/RateLimit/Stopping.antt =====
-- internal/middleware/rate_limit.go under concurrency: callers of Stop, and the goroutine of
-- cleanupLoop. Stop reads its channel in a select and closes it in the default case, with nothing
-- held in between, so these are two steps.
pub mod Races
use ginblade.Prelude.{ℕ, suc, ◌+◌, ◌<◌, ◌≡◌, Bool, true, false}

-- The goroutine of cleanupLoop: at its select, or returned.
pub data Loop : Type 0 where
  selecting ended : Loop

-- The callers that have not called Stop yet, that are before its select, that are in its default
-- case, and that it has returned to; the channel; and whether closing it twice crashed the process.
pub record Stopping : Type 0 where
  pub outside : ℕ
  pub entered : ℕ
  pub deciding : ℕ
  pub returned : ℕ
  pub closed : Bool
  pub loop : Loop
  pub crashed : Bool

abbrev pub initial : ℕ → Stopping
initial n = record {
  outside = n;
  entered = 0;
  deciding = 0;
  returned = 0;
  closed = false;
  loop = selecting;
  crashed = false;
}

-- A caller calls Stop.
unfoldable pub enter : ℕ → Stopping → Stopping
enter o s = record s { outside = o; entered = suc s.entered }

-- The select finds the channel open, and takes the default case.
unfoldable pub find_open : ℕ → Stopping → Stopping
find_open w s = record s { entered = w; deciding = suc s.deciding }

-- The select finds the channel closed, and Stop returns.
unfoldable pub find_closed : ℕ → Stopping → Stopping
find_closed w s = record s { entered = w; returned = suc s.returned }

-- close(l.stop), and Stop returns.
unfoldable pub close : ℕ → Stopping → Stopping
close d s = record s { deciding = d; returned = suc s.returned; closed = true }

-- close(l.stop) on a closed channel panics, outside of a handler.
unfoldable pub crash : ℕ → Stopping → Stopping
crash d s = record s { deciding = d; crashed = true }

-- The select of cleanupLoop finds the channel closed.
unfoldable pub leave : Stopping → Stopping
leave s = record s { loop = ended }

-- One step, where at most `limit` callers are in Stop at a time. The ticker may fire while the loop
-- runs; a sweep changes nothing here. A closed channel may lose the race with the ticker.
pub data Step (limit : ℕ) : Stopping → Stopping → Type 0 where
  call :
      (s : Stopping) (o : ℕ)
      → s.crashed ≡ false
      → s.outside ≡ suc o
      → s.entered + s.deciding < limit
      → Step limit s (enter o s)
  pass :
      (s : Stopping) (w : ℕ)
      → s.crashed ≡ false
      → s.entered ≡ suc w
      → s.closed ≡ false
      → Step limit s (find_open w s)
  skip :
      (s : Stopping) (w : ℕ)
      → s.crashed ≡ false
      → s.entered ≡ suc w
      → s.closed ≡ true
      → Step limit s (find_closed w s)
  shut :
      (s : Stopping) (d : ℕ)
      → s.crashed ≡ false
      → s.deciding ≡ suc d
      → s.closed ≡ false
      → Step limit s (close d s)
  clash :
      (s : Stopping) (d : ℕ)
      → s.crashed ≡ false
      → s.deciding ≡ suc d
      → s.closed ≡ true
      → Step limit s (crash d s)
  sweep : (s : Stopping) → s.crashed ≡ false → s.loop ≡ selecting → Step limit s s
  finish :
      (s : Stopping)
      → s.crashed ≡ false
      → s.loop ≡ selecting
      → s.closed ≡ true
      → Step limit s (leave s)

-- The states that `callers` callers get a limiter into, at most `limit` of them in Stop at a time.
pub data Reaches (callers limit : ℕ) : Stopping → Type 0 where
  start : Reaches callers limit (initial callers)
  next : {s t : Stopping} → Reaches callers limit s → Step limit s t → Reaches callers limit t
