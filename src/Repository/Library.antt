-- ===== src/Repository/Library.antt =====
-- gorm, which internal/repository calls: its operations are a parameter, and what the program
-- relies on is a record of laws, from gorm's documentation.
use ginblade.Prelude.{ℕ, ◌≡◌, Option, none, some, List, length, take, drop, ◌⊎◌, ◌∷◌}
use ginblade.Prelude.Int.{ℤ, pos}
use ginblade.Errors.{GoError, Result, ok, err}
use ginblade.Context.{Db, Context}
use ginblade.Model.{Example}

pub record Gorm (S : Type 0) : Type 0 where
  -- db.WithContext(ctx).Transaction(fn)
  pub transaction : Db → Context → (Db → S → Option GoError × S) → S → Option GoError × S
  -- db.WithContext(ctx).Create(example).Error; the row as it was stored
  pub create : Db → Context → Example → S → Result Example × S
  -- db.Model(&model.Example{}).Count(&total).Error
  pub count : Db → Context → S → Result ℕ × S
  -- db.Order("id DESC").Limit(limit).Offset(offset).Find(&examples).Error
  pub find_newest : Db → Context → ℤ → ℤ → S → Result (List Example) × S

-- Transaction runs its function on the handle of a new transaction. If that returns an error, the
-- changes are rolled back and the error is returned; if it returns nil, they are committed, or the
-- commit fails with an error and nothing is changed.
pub record TransactionLaws {S : Type 0} (gorm : Gorm S) : Type 0 where
  pub handle : Db → Context → S → Db
  pub rolls_back :
      (db : Db) (ctx : Context) (fn : Db → S → Option GoError × S) (s : S) (e : GoError)
      → (fn (handle db ctx s) s).0 ≡ some e
      → gorm.transaction db ctx fn s ≡ (some e, s)
  -- the error of COMMIT behind these changes
  pub commit_error : S → Option GoError
  pub commits :
      (db : Db) (ctx : Context) (fn : Db → S → Option GoError × S) (s after : S)
      → fn (handle db ctx s) s ≡ (none, after)
      → commit_error after ≡ none
      → gorm.transaction db ctx fn s ≡ (none, after)
  pub commit_fails :
      (db : Db) (ctx : Context) (fn : Db → S → Option GoError × S) (s after : S) (e : GoError)
      → fn (handle db ctx s) s ≡ (none, after)
      → commit_error after ≡ some e
      → gorm.transaction db ctx fn s ≡ (some e, s)

-- The queries read the rows of the table, the newest first, and change nothing. A limit and an
-- offset that are not negative cut out a page.
pub record QueryLaws {S : Type 0} (gorm : Gorm S) : Type 0 where
  pub newest_first : Db → S → List Example
  pub counts :
      (db : Db) (ctx : Context) (s : S)
      → (gorm.count db ctx s ≡ (ok (length (newest_first db s)), s))
        ⊎ ((e : GoError) × (gorm.count db ctx s ≡ (err e, s)))
  pub finds :
      (db : Db) (ctx : Context) (limit offset : ℕ) (s : S)
      → (gorm.find_newest db ctx (pos limit) (pos offset) s
          ≡ (ok (take limit (drop offset (newest_first db s))), s))
        ⊎ ((e : GoError) × (gorm.find_newest db ctx (pos limit) (pos offset) s ≡ (err e, s)))

-- A row that Create stored has the example's name, and the sequence gave it the greatest id.
pub record InsertLaws {S : Type 0} {gorm : Gorm S} (queries : QueryLaws gorm) : Type 0 where
  pub inserts :
      (db : Db) (ctx : Context) (e row : Example) (s s' : S)
      → gorm.create db ctx e s ≡ (ok row, s')
      → (row.name ≡ e.name) × (queries.newest_first db s' ≡ row ∷ queries.newest_first db s)
