-- ===== src/Service/ReadBack.antt =====
-- What was created is listed first.
use ginblade.Prelude.{
  ℕ, zero, suc, ◌-◌, ◌<◌, ◌≡◌, refl, ap, sym, ◌∙◌, ◌⊎◌, inl, inr, List, ◌∷◌, [], String, Option,
  length, take, arith, if◌then◌else◌, ◌==◌,
}
use ginblade.Prelude.Int.{pos}
use ginblade.Errors.{GoError, api, Result, ok, err, ok-ne-err}
use ginblade.Errcode.{database_error}
use ginblade.Context.{Db, Context}
use ginblade.Model.{Example, CreateExampleReq, ListExamplesRes}
use ginblade.Repository
use ginblade.Repository.{handle}
use ginblade.Repository.Library.{Gorm, QueryLaws, InsertLaws}
use ginblade.Service.{ExampleQueue, Reply, create, list, reply}
use ginblade.Service.Listing.{new_example_repository, service, rows, IsPage, list-IsPage}

first_of_page {ℓ} :
    {A : Type ℓ} (n : ℕ) (x : A) (xs : List A) → 0 < n → take n (x ∷ xs) ≡ x ∷ take (n - 1) xs
first_of_page zero x xs h = absurd (omega arith)
first_of_page (suc n) x xs h = ap (λ m. x ∷ take m xs) (omega arith)

page_limit_pos : (limit : ℕ) → 0 < (if limit == 0 then 20 else limit)
page_limit_pos limit = ground arith

module _ {S : Type 0} where
  log_of_ok :
      {A B : Type 0} (f : A → B) (message : String) (shown : GoError) (ctx : Context)
      (q : Result A × S) (b : B)
      → (reply f message shown ctx q).result ≡ ok b
      → (reply f message shown ctx q).log ≡ []
  log_of_ok f message shown ctx (ok a, s) b h = refl
  log_of_ok f message shown ctx (err e, s) b h = absurd (ok-ne-err (sym h))

  error_of_reply :
      {A B : Type 0} (f : A → B) (message : String) (shown : GoError) (ctx : Context)
      (q : Result A × S) (e : GoError)
      → (reply f message shown ctx q).result ≡ err e
      → e ≡ shown
  error_of_reply f message shown ctx (ok a, s) e h = absurd (ok-ne-err h)
  error_of_reply f message shown ctx (err x, s) e h = cc

  reply-eq-ok :
      {A : Type 0} (message : String) (shown : GoError) (ctx : Context) (q : Result A × S) (a : A)
      → (reply (λ x. x) message shown ctx q).result ≡ ok a
      → q ≡ (ok a, (reply (λ x. x) message shown ctx q).state)
  reply-eq-ok message shown ctx (ok b, s) a h = ap (λ r. (r, s)) h
  reply-eq-ok message shown ctx (err e, s) a h = absurd (ok-ne-err (sym h))

module _ {S : Type 0} (gorm : Gorm S) (laws : QueryLaws gorm) (inserts : InsertLaws laws) (db : Db)
    (queue : Option (ExampleQueue S)) (ctx later : Context) (req : CreateExampleReq) (limit : ℕ)
    (s : S) where
  abbrev pub page_limit : ℕ
  page_limit = if limit == 0 then 20 else limit

  unfoldable pub created : Reply S Example
  unfolding create
  created = create (service gorm laws db queue ctx s) ctx req s

  unfoldable pub listed : Reply S ListExamplesRes
  unfolding list
  listed =
      list (service gorm laws db queue later s) later (record { limit = pos limit; offset = pos 0 })
        created.state

  -- The rows before.
  abbrev pub before : List Example
  before = rows gorm laws db queue ctx s

  -- The row is the first of the page, the rows before follow, and it counts.
  abbrev pub ListsFirst : Example → Reply S ListExamplesRes → Type 0
  ListsFirst row r =
      (r.state ≡ created.state)
      × ((r.result
            ≡ ok (record {
              examples = row ∷ take (page_limit - 1) before;
              total = suc (length before);
            }))
          ⊎ (r.result ≡ err (api database_error)))

  abbrev page : List Example → ℕ → ListExamplesRes
  page xs total = record { examples = take page_limit xs; total = total }

  stored :
      (row : Example)
      → created.result ≡ ok row
      → gorm.create
          (handle db ctx)
          ctx
          (record { id = 0; name = req.name; created_at = 0; updated_at = 0 })
          s
        ≡ (ok row, created.state)
  unfolding created create new_example_repository Repository.create
  stored row h = reply-eq-ok _ _ _ _ row h

  IsPage-ListsFirst :
      (row : Example) (r : Reply S ListExamplesRes)
      → rows gorm laws db queue later created.state ≡ row ∷ before
      → IsPage gorm laws db queue later created.state page_limit 0 r
      → ListsFirst row r
  IsPage-ListsFirst row r newest i = (
    i.unchanged,
    elim i.page [
      | inl e ↦ inl (
          e
          ∙ ap (λ xs. ok (page xs (length xs))) newest
          ∙ ap (λ xs. ok (record { examples = xs; total = suc (length before) }))
              (first_of_page page_limit row before (page_limit_pos limit)))
      | inr e ↦ inr e
    ],
  )

  -- A row that Create of the service stored has the request's name, and is the first of the page
  -- that List then returns from the start, before the rows that were there, and counts in the
  -- total; or List returns the API's database error.
  pub create-list :
      (row : Example)
      → handle db ctx ≡ handle db later
      → created.result ≡ ok row
      → (row.name ≡ req.name) × ListsFirst row listed
  unfolding listed
  create-list row same h =
      let (named, first) = inserts.inserts _ _ _ row s created.state (stored row h) in
      (
        named,
        IsPage-ListsFirst row _ (ap (λ d. laws.newest_first d created.state) (sym same) ∙ first)
            (list-IsPage gorm laws db queue later created.state limit 0),
      )

  pub created-log : (row : Example) → created.result ≡ ok row → created.log ≡ []
  unfolding created create
  created-log row h = log_of_ok _ _ _ _ _ row h

  pub created-error : (e : GoError) → created.result ≡ err e → e ≡ api database_error
  unfolding created create
  created-error e h = error_of_reply _ _ _ _ _ e h

  pub listed-log : (page : ListExamplesRes) → listed.result ≡ ok page → listed.log ≡ []
  unfolding listed list
  listed-log page h = log_of_ok _ _ _ _ _ page h
