-- ===== src/Service/Listing.antt =====
-- The page that a listing returns, through the service and the repository.
use ginblade.Prelude.{
  ℕ, ◌≡◌, refl, ap, ◌∙◌, ◌⊎◌, inl, inr, List, Option, length, take, drop, arith, if◌then◌else◌,
  ◌==◌,
}
use ginblade.Prelude.Int.{pos}
use ginblade.Errors.{GoError, api, Result, ok, err}
use ginblade.Errcode.{database_error}
use ginblade.Context.{Db, Context}
use ginblade.Model.{Example, ListExamplesRes}
use ginblade.Repository
use ginblade.Repository.{handle, counted, found}
use ginblade.Repository.Library.{Gorm, QueryLaws}
use ginblade.Service.{
  ExampleRepository, ExampleService, ExampleQueue, Reply, default_limit, list, page_reply,
}

-- NewExampleRepository: the repository behind the service's interface.
unfoldable pub new_example_repository : {S : Type 0} → Gorm S → Db → ExampleRepository S
new_example_repository gorm db = record {
  create = Repository.create gorm db;
  list = Repository.list gorm db;
}

module _ {S : Type 0} (gorm : Gorm S) (laws : QueryLaws gorm) (db : Db)
    (queue : Option (ExampleQueue S)) (ctx : Context) (s : S) where
  -- The rows that the repository's handle reads, the newest first.
  abbrev pub rows : List Example
  rows = laws.newest_first (handle db ctx) s

  abbrev pub service : ExampleService S
  service = record { repo = new_example_repository gorm db; queue = queue }

  -- One page of the rows with their total number, or the API's database error; the state is as
  -- before.
  pub record IsPage (limit offset : ℕ) (r : Reply S ListExamplesRes) : Type 0 where
    pub unchanged : r.state ≡ s
    pub page :
        (r.result ≡ ok (record { examples = take limit (drop offset rows); total = length rows }))
        ⊎ (r.result ≡ err (api database_error))

  repository_page :
      (n offset : ℕ)
      → (Repository.list gorm db ctx (pos n) (pos offset) s
          ≡ (ok (take n (drop offset rows), length rows), s))
        ⊎ ((e : GoError) × (Repository.list gorm db ctx (pos n) (pos offset) s ≡ (err e, s)))
  unfolding Repository.list
  repository_page n offset = elim (laws.counts (handle db ctx) ctx s) [
    | inr (e, failed) ↦ inr (e, ap (counted gorm (handle db ctx) ctx (pos n) (pos offset)) failed)
    | inl counts ↦ elim (laws.finds (handle db ctx) ctx n offset s) [
      | inl finds ↦ inl (
          ap (counted gorm (handle db ctx) ctx (pos n) (pos offset)) counts
          ∙ ap (found gorm (length rows)) finds)
      | inr (e, failed) ↦ inr (
        e,
        ap (counted gorm (handle db ctx) ctx (pos n) (pos offset)) counts
            ∙ ap (found gorm (length rows)) failed,
      )
    ]
  ]

  default_limit_pos :
      (limit : ℕ) → default_limit (pos limit) ≡ pos (if limit == 0 then 20 else limit)
  default_limit_pos limit = ground arith

  page_reply-IsPage :
      (n offset : ℕ) (r : Result (List Example × ℕ) × S)
      → (r ≡ (ok (take n (drop offset rows), length rows), s)) ⊎ ((e : GoError) × (r ≡ (err e, s)))
      → IsPage n offset (page_reply ctx r)
  page_reply-IsPage n offset r h = elim h [
    | inl e ↦ rw e (record { unchanged = refl; page = inl refl })
    | inr (x, e) ↦ rw e (record { unchanged = refl; page = inr refl })
  ]

  -- A listing of a validated request returns one page of the newest rows, of 20 rows if no limit is
  -- given, with the number of all rows; or the API's database error. Nothing else changes.
  pub list-IsPage :
      (limit offset : ℕ)
      → IsPage
          (if limit == 0 then 20 else limit)
          offset
          (list service ctx (record { limit = pos limit; offset = pos offset }) s)
  unfolding list new_example_repository
  list-IsPage limit offset = rw (default_limit_pos limit) (
      page_reply-IsPage (if limit == 0 then 20 else limit) offset _
        (repository_page (if limit == 0 then 20 else limit) offset))
