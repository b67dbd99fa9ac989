-- ===== src/Repository.antt =====
-- internal/repository: the example repository, and transactions carried by the context (tx.go).
-- gorm is a parameter, `Gorm`. `S` is what the database holds.
pub mod Library
pub mod Tx
use ginblade.Prelude.{ℕ, String, Option, none, some, List}
use ginblade.Prelude.Int.{ℤ}
use ginblade.Errors.{GoError, sentinel, Result, ok, err}
use ginblade.Context.{Db, Context, with_tx, tx_value, normalize_context}
use ginblade.Model.{Example}
use Library.{Gorm}

abbrev pub err_nil_db : GoError
err_nil_db = sentinel "repository: database connection is required"

abbrev pub err_nil_tx_fn : GoError
err_nil_tx_fn = sentinel "repository: transaction callback is required"

-- WithTx
unfoldable pub with_tx_context : Option Context → Option Db → Context
unfolding normalize_context
with_tx_context ctx tx = with_tx tx (normalize_context ctx)

abbrev flatten : Option (Option Db) → Option Db
flatten none = none
flatten (some tx) = tx

-- txFromContext
unfoldable pub tx_from_context : Option Context → Option Db
unfolding tx_value
tx_from_context none = none
tx_from_context (some ctx) = flatten (tx_value ctx)

abbrev or_db : Option Db → Option Db → Option Db
or_db none db = db
or_db (some tx) db = some tx

-- dbFromContext
unfoldable pub db_from_context : Option Context → Option Db → Option Db
unfolding tx_from_context
db_from_context ctx db = or_db (tx_from_context ctx) db

abbrev pub tx_or : Db → Option Db → Db
tx_or db none = db
tx_or db (some tx) = tx

-- dbFromContext for a repository, whose handle is not nil.
abbrev pub handle : Db → Context → Db
unfolding tx_from_context
handle db ctx = tx_or db (tx_from_context (some ctx))

module _ {S : Type 0} (gorm : Gorm S) where
  -- A function on the database that may return an error; nil is `none`.
  abbrev pub Callback : Type 0
  Callback = Context → S → Option GoError × S

  abbrev in_own_tx : Context → Option Db → Callback → S → Option GoError × S
  in_own_tx base none fn s = (some err_nil_db, s)
  in_own_tx base (some db) fn s =
      gorm.transaction db base (λ tx. fn (with_tx_context (some base) (some tx))) s

  abbrev in_tx_with : Option Db → Context → Option Db → Callback → S → Option GoError × S
  in_tx_with (some tx) base db fn s = fn base s
  in_tx_with none base db fn s = in_own_tx base db fn s

  -- InTx
  unfoldable pub in_tx : Option Context → Option Db → Option Callback → S → Option GoError × S
  unfolding tx_from_context with_tx_context normalize_context
  in_tx ctx db none s = (some err_nil_tx_fn, s)
  in_tx ctx db (some fn) s = in_tx_with (tx_from_context ctx) (normalize_context ctx) db fn s

  -- (*ExampleRepository).Create; `db` is the repository's handle. gorm fills in the row's id and
  -- times.
  unfoldable pub create : Db → Context → Example → S → Result Example × S
  create db ctx example s = gorm.create (handle db ctx) ctx example s

  abbrev pub found : ℕ → Result (List Example) × S → Result (List Example × ℕ) × S
  found total (ok examples, s) = (ok (examples, total), s)
  found total (err e, s) = (err e, s)

  abbrev pub counted : Db → Context → ℤ → ℤ → Result ℕ × S → Result (List Example × ℕ) × S
  counted db ctx limit offset (err e, s) = (err e, s)
  counted db ctx limit offset (ok total, s) = found total (gorm.find_newest db ctx limit offset s)

  -- (*ExampleRepository).List
  unfoldable pub list : Db → Context → ℤ → ℤ → S → Result (List Example × ℕ) × S
  list db ctx limit offset s =
      counted (handle db ctx) ctx limit offset (gorm.count (handle db ctx) ctx s)
