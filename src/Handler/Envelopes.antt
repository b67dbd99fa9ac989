-- ===== src/Handler/Envelopes.antt =====
-- What a client reads off the answers of the handlers.
use ginblade.Prelude.{
  ℕ, ◌≡◌, refl, ◌⊎◌, inl, inr, String, true, Option, none, some, List, [], ◌∷◌, ◌++◌, Bool-cases,
}
use ginblade.Prelude.Int.{pos, is_positive}
use ginblade.Errors.{GoError, api, Result, ok, err}
use ginblade.Errcode.{database_error, queue_unavailable, queue_error, invalid_params, unauthorized}
use ginblade.Context.{Context}
use ginblade.Auth.{JwtManager}
use ginblade.Auth.Library.{Jwt}
use ginblade.Task.{Json, Task}
use ginblade.Response.{Response, Data, BindError, envelope_of_error, build_metadata}
use ginblade.Http.{
  Gin, Outcome, finished, envelope, write_success, write_error, write_validation_error, trace_of,
  Entry,
}
use ginblade.Service
use ginblade.Model.{EnqueueExampleTaskReq}
use ginblade.Service.{publish, reply, is_available, ExampleService, ExampleQueue, Reply}
use ginblade.Handler.{
  Bound, bound, refused, Binder, AuthHandler, respond, with_request, create_example, list_examples,
  enqueue_task, create_token, show_me, issued, create_token_with, manager_of,
}

-- An envelope that tells success by its code: 0 with data, or a positive code with a reason, no
-- data, and the request's trace id.
abbrev pub TellsSuccess : String → Response → Type 0
TellsSuccess trace r =
    ((r.code ≡ pos 0) × ((d : Data) × (r.payload ≡ some d)))
    ⊎ ((is_positive r.code ≡ true) × (r.payload ≡ none) × (r.metadata ≡ build_metadata trace))

-- The envelope of an error has a positive code.
abbrev pub HasCode : GoError → Type 0
HasCode e = (trace : String) → is_positive (envelope_of_error trace e).code ≡ true

database_error-HasCode : HasCode (api database_error)
unfolding envelope_of_error database_error
database_error-HasCode trace = refl

queue_unavailable-HasCode : HasCode (api queue_unavailable)
unfolding envelope_of_error queue_unavailable
queue_unavailable-HasCode trace = refl

queue_error-HasCode : HasCode (api queue_error)
unfolding envelope_of_error queue_error
queue_error-HasCode trace = refl

invalid_params-HasCode : HasCode (api invalid_params)
unfolding envelope_of_error invalid_params
invalid_params-HasCode trace = refl

unauthorized-HasCode : HasCode (api unauthorized)
unfolding envelope_of_error unauthorized
unauthorized-HasCode trace = refl

-- So does the error of a result, if there is one.
abbrev pub ShowsCode : {A : Type 0} → Result A → Type 0
ShowsCode (ok a) = Unit
ShowsCode (err e) = HasCode e

module _ {S : Type 0} where
  -- One envelope was written, at status 200.
  pub record IsAnswered (c : Gin) (o : Outcome S) : Type 0 where
    pub at : Gin
    pub state : S
    pub finishes : o ≡ finished at state
    pub status : at.status ≡ 200
    pub answer : Response
    pub written : at.bodies ≡ c.bodies ++ envelope answer ∷ []
    pub tells : TellsSuccess (trace_of c) answer

  write_success-IsAnswered :
      (d : Data) (c : Gin) (s : S) → IsAnswered c (finished (write_success d c) s)
  unfolding write_success
  write_success-IsAnswered d c s = record {
    at = _;
    state = s;
    finishes = refl;
    status = refl;
    answer = _;
    written = refl;
    tells = inl (refl, (d, refl));
  }

  write_validation_error-IsAnswered :
      (e : BindError) (c : Gin) (s : S) → IsAnswered c (finished (write_validation_error e c) s)
  unfolding write_validation_error invalid_params
  write_validation_error-IsAnswered e c s = record {
    at = _;
    state = s;
    finishes = refl;
    status = refl;
    answer = _;
    written = refl;
    tells = inr (refl, refl, refl);
  }

  write_error-IsAnswered :
      (e : GoError) (c : Gin) (s : S)
      → is_positive (envelope_of_error (trace_of c) e).code ≡ true
      → IsAnswered c (finished (write_error e c) s)
  unfolding write_error envelope_of_error
  write_error-IsAnswered e c s h = record {
    at = _;
    state = s;
    finishes = refl;
    status = refl;
    answer = _;
    written = refl;
    tells = inr (h, refl, refl);
  }

  logged_before :
      (c : Gin) (log : List Entry) (o : Outcome S)
      → IsAnswered (record c { log = log }) o
      → IsAnswered c o
  unfolding trace_of
  logged_before c log o h = record {
    at = h.at;
    state = h.state;
    finishes = h.finishes;
    status = h.status;
    answer = h.answer;
    written = h.written;
    tells = h.tells;
  }

  respond_with :
      {A : Type 0} (f : A → Data) (c : Gin) (r : Result A) (log : List Entry) (s : S)
      → ShowsCode r
      → IsAnswered c (respond f c (record { result = r; log = log; state = s }))
  respond_with f c (ok a) log s h = logged_before c _ _ (write_success-IsAnswered (f a) _ s)
  respond_with f c (err e) log s h = logged_before c _ _ (write_error-IsAnswered e _ s (h _))

  respond-IsAnswered :
      {A : Type 0} (f : A → Data) (c : Gin) (r : Reply S A)
      → ShowsCode r.result
      → IsAnswered c (respond f c r)
  respond-IsAnswered f c r h = respond_with f c r.result r.log r.state h

  with_request-IsAnswered :
      {A : Type 0} (b : Bound A) (k : A → Outcome S) (c : Gin) (s : S)
      → ((a : A) → IsAnswered c (k a))
      → IsAnswered c (with_request b k c s)
  with_request-IsAnswered (bound a) k c s h = h a
  with_request-IsAnswered (refused e) k c s h = write_validation_error-IsAnswered e c s

  reply-ShowsCode :
      {A B : Type 0} (f : A → B) (message : String) (shown : GoError) (ctx : Context)
      (r : Result A × S)
      → HasCode shown
      → ShowsCode (reply f message shown ctx r).result
  reply-ShowsCode f message shown ctx (ok a, s) h = tt
  reply-ShowsCode f message shown ctx (err e, s) h = h

  publish-ShowsCode :
      (q : Option (ExampleQueue S)) (ctx : Context) (t : Result Task) (s : S)
      → ShowsCode (publish q ctx t s).result
  publish-ShowsCode none ctx t s = queue_unavailable-HasCode
  publish-ShowsCode (some q) ctx (err e) s = queue_error-HasCode
  publish-ShowsCode (some q) ctx (ok t) s = reply-ShowsCode _ _ _ ctx _ queue_error-HasCode

  enqueue_task-ShowsCode :
      (json : Json) (svc : ExampleService S) (ctx : Context) (req : EnqueueExampleTaskReq) (s : S)
      → ShowsCode (Service.enqueue_task json svc ctx req s).result
  unfolding Service.enqueue_task
  enqueue_task-ShowsCode json svc ctx req s = elim (Bool-cases (is_available svc.queue)) [
    | inl up ↦ rw up (publish-ShowsCode svc.queue ctx _ s)
    | inr down ↦ rw down queue_unavailable-HasCode
  ]

  issued-IsAnswered :
      (binder : Binder) (c : Gin) (s : S) (r : Result String) → IsAnswered c (issued binder c s r)
  issued-IsAnswered binder c s (ok t) = write_success-IsAnswered _ c s
  issued-IsAnswered binder c s (err e) = write_error-IsAnswered _ c s (invalid_params-HasCode _)

  create_token_with-IsAnswered :
      (binder : Binder) (jwt : Jwt) (now : ℕ) (m : Option JwtManager) (c : Gin) (s : S)
      → IsAnswered c (create_token_with binder jwt now m c s)
  create_token_with-IsAnswered binder jwt now none c s =
      write_error-IsAnswered _ c s (unauthorized-HasCode _)
  create_token_with-IsAnswered binder jwt now (some m) c s =
      with_request-IsAnswered (binder.create_token c) _ c s (λ req. issued-IsAnswered binder c s _)

  -- Every handler of the API writes one envelope, at status 200; a client tells success by the
  -- envelope's code, which is 0 with data, and positive, without data and with the request's trace
  -- id, for a failure.
  pub handlers-IsAnswered :
      (binder : Binder) (jwt : Jwt) (json : Json) (svc : ExampleService S) (h : Option AuthHandler)
      (now : ℕ) (c : Gin) (s : S)
      → IsAnswered c (create_example binder svc c s)
        × IsAnswered c (list_examples binder svc c s)
        × IsAnswered c (enqueue_task binder json svc c s)
        × IsAnswered c (create_token binder jwt now h c s)
        × IsAnswered c (show_me c s)
  unfolding create_example list_examples enqueue_task create_token show_me Service.create
      Service.list
  handlers-IsAnswered binder jwt json svc h now c s = (
    with_request-IsAnswered (binder.create_example c) _ c s
        (λ req. respond-IsAnswered _ c _ (reply-ShowsCode _ _ _ c.ctx _ database_error-HasCode)),
    with_request-IsAnswered (binder.list_examples c) _ c s
        (λ req. respond-IsAnswered _ c _ (reply-ShowsCode _ _ _ c.ctx _ database_error-HasCode)),
    with_request-IsAnswered (binder.enqueue_task c) _ c s
        (λ req. respond-IsAnswered _ c _ (enqueue_task-ShowsCode json svc c.ctx req s)),
    create_token_with-IsAnswered binder jwt now (manager_of h) c s,
    write_success-IsAnswered _ c s,
  )
