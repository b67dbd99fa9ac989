-- ===== src/Handler/ReadBack.antt =====
-- POST and GET of the examples: what was created is answered first of the page.
use ginblade.Prelude.{
  ℕ, suc, ◌-◌, ◌≡◌, refl, ap, ◌∙◌, ◌⊎◌, inl, inr, List, [], ◌∷◌, ◌++◌, append-nil, Option, length,
  take,
}
use ginblade.Prelude.Int.{pos}
use ginblade.Errors.{api, Result, ok, err}
use ginblade.Errcode.{database_error}
use ginblade.Context.{Db}
use ginblade.Model.{Example, CreateExampleReq, ListExamplesRes}
use ginblade.Response.{Data, example, examples}
use ginblade.Http.{Gin, Outcome, finished, write_success, write_error}
use ginblade.Repository.{handle}
use ginblade.Repository.Library.{Gorm, QueryLaws, InsertLaws}
use ginblade.Service.{ExampleQueue, Reply}
use ginblade.Service.Listing.{service}
use ginblade.Service.ReadBack.{
  created, listed, before, page_limit, create-list, created-log, listed-log, created-error,
}
use ginblade.Handler.{Binder, bound, respond, create_example, list_examples}

module _ {S : Type 0} where
  -- The outcome is the envelope of the data, or that of the API's database error.
  abbrev pub Answers : {A : Type 0} → (A → Data) → Gin → A → S → Outcome S → Type 0
  Answers f c a s o = o ≡ finished (write_success (f a) c) s

  abbrev pub AnswersDatabaseError : S → Outcome S → Type 0
  AnswersDatabaseError s o = (c : Gin) × (o ≡ finished (write_error (api database_error) c) s)

  respond-ok :
      {A : Type 0} (f : A → Data) (c : Gin) (r : Reply S A) (a : A)
      → r.result ≡ ok a
      → r.log ≡ []
      → Answers f c a r.state (respond f c r)
  respond-ok f c r a h k = rw (h, k, append-nil c.log)

  respond-err :
      {A : Type 0} (f : A → Data) (c : Gin) (r : Reply S A)
      → r.result ≡ err (api database_error)
      → AnswersDatabaseError r.state (respond f c r)
  respond-err f c r h = (record c { log = c.log ++ r.log }, rw h)

module _ {S : Type 0} (gorm : Gorm S) (laws : QueryLaws gorm) (inserts : InsertLaws laws) (db : Db)
    (queue : Option (ExampleQueue S)) (binder : Binder) (c later : Gin) (req : CreateExampleReq)
    (limit : ℕ) (s : S) where
  -- The state after the creation.
  abbrev pub after : S
  unfolding created
  after = (created gorm laws inserts db queue c.ctx later.ctx req limit s).state

  abbrev pub posted : Outcome S
  unfolding create_example
  posted = create_example binder (service gorm laws db queue c.ctx s) c s

  abbrev pub got : Outcome S
  unfolding list_examples
  got = list_examples binder (service gorm laws db queue c.ctx s) later after

  abbrev rows_before : List Example
  rows_before = before gorm laws inserts db queue c.ctx later.ctx req limit s

  abbrev pub page_from : Example → ListExamplesRes
  page_from row = record {
    examples =
        row
        ∷ take (page_limit gorm laws inserts db queue c.ctx later.ctx req limit s - 1) rows_before;
    total = suc (length rows_before);
  }

  -- The created row, with the request's name, is answered, and then first of the page.
  abbrev pub ReadsBack : Type 0
  ReadsBack =
      ((row : Example) × (row.name ≡ req.name)
        × Answers example c row after posted
        × (Answers examples later (page_from row) after got ⊎ AnswersDatabaseError after got))
      ⊎ AnswersDatabaseError after posted

  posted-eq :
      binder.create_example c ≡ bound req
      → posted ≡ respond example c (created gorm laws inserts db queue c.ctx later.ctx req limit s)
  unfolding posted create_example created
  posted-eq h = rw h

  got-eq :
      binder.list_examples later ≡ bound (record { limit = pos limit; offset = pos 0 })
      → got ≡ respond examples later (listed gorm laws inserts db queue c.ctx later.ctx req limit s)
  unfolding got after list_examples listed
  got-eq h = rw h

  listing :
      (row : Example)
      → binder.list_examples later ≡ bound (record { limit = pos limit; offset = pos 0 })
      → (listed gorm laws inserts db queue c.ctx later.ctx req limit s).state ≡ after
      → ((listed gorm laws inserts db queue c.ctx later.ctx req limit s).result
          ≡ ok (page_from row))
        ⊎ ((listed gorm laws inserts db queue c.ctx later.ctx req limit s).result
            ≡ err (api database_error))
      → Answers examples later (page_from row) after got ⊎ AnswersDatabaseError after got
  unfolding after
  listing row asked kept h =
      rw (got-eq asked, ← kept)
        (elim h [
          | inl page ↦ inl (
              respond-ok examples later _ (page_from row) page
                (listed-log gorm laws inserts db queue c.ctx later.ctx req limit s _ page))
          | inr failed ↦ inr (respond-err examples later _ failed)
        ])

  verdict :
      (r : Result Example)
      → binder.create_example c ≡ bound req
      → binder.list_examples later ≡ bound (record { limit = pos limit; offset = pos 0 })
      → handle db c.ctx ≡ handle db later.ctx
      → (created gorm laws inserts db queue c.ctx later.ctx req limit s).result ≡ r
      → ReadsBack
  unfolding after
  verdict (ok row) sent asked same h =
      let (named, (kept, page)) =
        create-list gorm laws inserts db queue c.ctx later.ctx req limit s row same h in
      inl (
        row,
        named,
        posted-eq sent
            ∙ respond-ok example c _ row h
                (created-log gorm laws inserts db queue c.ctx later.ctx req limit s row h),
        listing row asked kept page,
      )
  verdict (err e) sent asked same h =
      let shown = created-error gorm laws inserts db queue c.ctx later.ctx req limit s e h in
      rw (posted-eq sent) (inr (respond-err example c _ (h ∙ ap err shown)))

  -- A valid POST of an example and then a valid GET of the first page, through one database handle:
  -- the POST is answered with a row that has the request's name, and the GET with a page that
  -- begins with this row, goes on with the rows that were there before, and counts it in the total;
  -- or one of the two is answered with the envelope of the database error.
  pub created_is_listed :
      binder.create_example c ≡ bound req
      → binder.list_examples later ≡ bound (record { limit = pos limit; offset = pos 0 })
      → handle db c.ctx ≡ handle db later.ctx
      → ReadsBack
  unfolding after
  created_is_listed sent asked same = verdict _ sent asked same refl
