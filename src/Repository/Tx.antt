-- ===== src/Repository/Tx.antt =====
-- What InTx promises: all or nothing at the outermost call, and one transaction for nested calls.
use ginblade.Prelude.{◌≡◌, refl, ap, ◌⊎◌, inl, inr, Option, none, some, Option-cases}
use ginblade.Errors.{GoError}
use ginblade.Context.{background, Db, Context, normalize_context}
use ginblade.Repository.{in_tx_with, Callback, in_tx, tx_from_context, with_tx_context, in_own_tx}
use ginblade.Repository.Library.{Gorm, TransactionLaws}

-- What the callback of a transaction does: a part that uses the context's handle, two pieces of work
-- one after the other, which stop at the first error, or a piece of work in an InTx of its own, on
-- whatever handle.
pub data Work (S : Type 0) : Type 0 where
  part : (Context → S → Option GoError × S) → Work S
  seq : Work S → Work S → Work S
  nested : Option Db → Work S → Work S

-- `if err := f(ctx); err != nil { return err }; return g(ctx)`
abbrev pub then : {S : Type 0} → Option GoError × S → (S → Option GoError × S) → Option GoError × S
then (some e, s) g = (some e, s)
then (none, s) g = g s

-- The parts of the work alone, one after the other in one context, up to the first error.
pub parts : {S : Type 0} → Work S → Context → S → Option GoError × S
parts (part f) c s = f c s
parts (seq v w) c s = then (parts v c s) (parts w c)
parts (nested db w) c s = parts w c s

module _ {S : Type 0} (gorm : Gorm S) where
  -- The work as it is written, with its calls of InTx.
  pub perform : Work S → Callback gorm
  perform (part f) c s = f c s
  perform (seq v w) c s = then (perform v c s) (perform w c)
  perform (nested db w) c s = in_tx gorm (some c) db (some (perform w)) s

  -- What an InTx leaves of a run `run` on the state `s`: the error that the run returned, and the
  -- state as it was; or the run's state, for a run without an error; or, if the commit failed, its
  -- error and the state as it was.
  abbrev pub AllOrNothing :
      TransactionLaws gorm → Option GoError × S → S → Option GoError × S → Type 0
  AllOrNothing laws (some e, after) s result = result ≡ (some e, s)
  AllOrNothing laws (none, after) s result =
      ((laws.commit_error after ≡ none) × (result ≡ (none, after)))
      ⊎ ((e : GoError) × (laws.commit_error after ≡ some e) × (result ≡ (some e, s)))

  -- The context that InTx hands to its callback.
  abbrev pub inside : TransactionLaws gorm → Option Context → Db → S → Context
  inside laws ctx db s =
      with_tx_context (some (normalize_context ctx))
        (some (laws.handle db (normalize_context ctx) s))

  nested_new :
      (ctx : Context) (db inner_db : Option Db) (fn : Callback gorm) (s : S)
      → in_own_tx gorm ctx db (λ c. in_tx gorm (some c) inner_db (some fn)) s
        ≡ in_own_tx gorm ctx db fn s
  unfolding in_tx
  nested_new ctx none inner_db fn s = refl
  nested_new ctx (some db) inner_db fn s = refl

  -- A nested InTx joins the transaction that it finds: it is the plain call of its callback.
  pub in_tx_nested :
      (ctx : Option Context) (db inner_db : Option Db) (fn : Callback gorm) (s : S)
      → in_tx gorm ctx db (some (λ c. in_tx gorm (some c) inner_db (some fn))) s
        ≡ in_tx gorm ctx db (some fn) s
  unfolding in_tx
  in_tx_nested none db inner_db fn s = nested_new background db inner_db fn s
  in_tx_nested (some c) db inner_db fn s = elim (Option-cases (tx_from_context (some c))) [
    | inl fresh ↦ rw fresh (nested_new c db inner_db fn s)
    | inr (tx, joined) ↦ rw joined (ap (λ o. in_tx_with gorm o c inner_db fn s) joined)
  ]
