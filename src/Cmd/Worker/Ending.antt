-- ===== src/Cmd/Worker/Ending.antt =====
-- How the worker process can end.
use ginblade.Prelude.{
  ◌≡◌, ◌⊎◌, refl, inl, inr, ap, sym, ◌∙◌, true, Option, none, some, [], ◌∷◌, List, ◌++◌,
}
use ginblade.Errors.{GoError, Result, ok, err}
use mathlib.Core.Path.{ap₂}
use ginblade.Http.{Entry, info, fatal}
use ginblade.Shutdown.{process_entry}
use ginblade.Cmd.Starting.{NeverStarted}
use ginblade.Cmd.{close_warning, Process, returned, exited, dies, returns}
use ginblade.Cmd.Worker.{
  started_entry, Waits, after_run, run_worker, leave, work, with_runtime, with_registry,
  with_worker,
}
use ginblade.Context.{Context}
use ginblade.Log.{Loggers}
use ginblade.Config.Types.{Config}
use ginblade.Task.{Json}
use ginblade.Database.{Sql}
use ginblade.Cache.{Redis}
use ginblade.Bootstrap
use ginblade.Bootstrap.{
  Asynq, Registry, init_runtime, Platform, RuntimeStart, set_up, refused, crashed, init_worker,
}
use ginblade.Worker.{TaskRuntimeMetadata}
use ginblade.Worker.Runtime.{Muxes, AsynqServer}
use ginblade.WorkerApp
use ginblade.WorkerApp.Ready.{init_worker-IsReady, IsMade, new_worker-IsMade}
use ginblade.WorkerApp.{Worker, Group, Reaches, new_worker, started, run_error}
use ginblade.WorkerApp.Lifecycle.{IsDone, reached_done}

module _ {S : Type 0} (sql : Sql S) (redis : Redis S) (asynq : Asynq S) (muxes : Muxes S)
    (json : Json) (meta : Context → TaskRuntimeMetadata)
    (waits : Waits sql redis asynq muxes json meta) where
  -- Wait returns in a state that Run's group gets into, in which both goroutines have returned.
  pub record WaitLaws : Type 0 where
    pub served : Worker sql redis asynq muxes json meta → S → Option GoError
    pub reaches : (w : Worker sql redis asynq muxes json meta) (s : S) → Reaches (waits w s).0
    pub done :
        (w : Worker sql redis asynq muxes json meta) (s : S) → IsDone (waits w s).0 (served w s)

  module _ (laws : WaitLaws) (platform : Platform) (cfg : Config) (loggers : Loggers) (s : S) where
    -- The state once InitWorker has run.
    abbrev pub opened : S
    opened = (init_worker sql redis asynq (some cfg) s).2

    -- What InitWorker logs.
    abbrev pub opening : List Entry
    opening = (init_worker sql redis asynq (some cfg) s).1

    -- The registry that InitWorker made, and the worker that NewWorker made of it.
    pub record Assembled : Type 0 where
      pub r : Registry sql redis asynq
      pub w : Worker sql redis asynq muxes json meta
      pub server : AsynqServer
      pub mux : muxes.Mux
      pub initialized : init_worker sql redis asynq (some cfg) s ≡ (ok r, opening, opened)
      pub made : new_worker sql redis asynq muxes json meta (some r) ≡ ok w
      pub served : w.server ≡ some server
      pub routed : w.mux ≡ some mux

    -- An exit for the error of InitWorker.
    abbrev pub NeverServed : Process S → Type 0
    NeverServed p =
        (e : GoError) × ((init_worker sql redis asynq (some cfg) s).0 ≡ err e)
        × (p.exit ≡ exited)
        × (p.state ≡ opened)
        × (p.log ≡ opening ++ process_entry fatal "initialize worker" (some e) ∷ [])

    -- An exit since asynq's server failed. The registry is not closed.
    pub record Failed (p : Process S) : Type 0 where
      pub a : Assembled
      pub e : GoError
      pub left : p.exit ≡ exited
      pub failed : laws.served a.w opened ≡ some e
      pub state : p.state ≡ (waits a.w opened).1
      pub logged :
          p.log
          ≡ (opening ++ started_entry ∷ [])
            ++ process_entry fatal "worker runtime error" (run_error (some e)) ∷ []

    -- main returned: asynq's server had no error and was told to shut down once, and the deferred
    -- calls closed the registry and synced the log.
    pub record Returned (p : Process S) : Type 0 where
      pub a : Assembled
      pub left : p.exit ≡ returned
      pub synced : p.synced ≡ true
      pub served : laws.served a.w opened ≡ none
      pub stops : (waits a.w opened).0.shutdowns ≡ 1
      pub closed : p.state ≡ (Bootstrap.close sql redis asynq (some a.r) (waits a.w opened).1).1
      pub logged :
          p.log
          ≡ (opening ++ started_entry ∷ process_entry info "worker shutdown completed" none ∷ [])
            ++ close_warning "close registry"
                (Bootstrap.close sql redis asynq (some a.r) (waits a.w opened).1).0

    abbrev pub Ends : Process S → Type 0
    Ends p = NeverStarted platform cfg loggers "worker" s p ⊎ NeverServed p ⊎ Failed p ⊎ Returned p

    run_error-eq : (o : Option GoError) (e : Option GoError) → run_error o ≡ e → e ≡ none → o ≡ none
    run_error-eq none e h n = refl
    run_error-eq (some x) e h n = cc

    run_error-some :
        (o : Option GoError) (x : GoError) → run_error o ≡ some x → (e : GoError) × (o ≡ some e)
    run_error-some none x h = cc
    run_error-some (some e) x h = (e, refl)

    after_run-Ends :
        (a : Assembled) (l : Loggers) (p : Option GoError × S)
        → ((waits a.w opened).0.failure, (waits a.w opened).1) ≡ p
        → Ends (after_run sql redis asynq muxes json meta waits a.r opening l p)
    unfolding after_run dies leave returns
    after_run-Ends a l (some e, last) h =
        let (stopped, once, said) =
          reached_done _ _ (laws.reaches a.w opened) (laws.done a.w opened) in
        let (x, failed) = run_error-some _ e (sym said ∙ ap (λ q. q.0) h) in
        inr (
          inr (
            inl (record {
              a = a;
              e = x;
              left = refl;
              failed = failed;
              state = sym (ap (λ q. q.1) h);
              logged =
                  ap
                    (λ o.
                      (opening ++ started_entry ∷ [])
                      ++ process_entry fatal "worker runtime error" o ∷ [])
                    (sym (ap (λ q. q.0) h) ∙ said ∙ ap run_error failed);
            })))
    after_run-Ends a l (none, last) h =
        let (stopped, once, said) =
          reached_done _ _ (laws.reaches a.w opened) (laws.done a.w opened) in
        inr (
          inr (
            inr (record {
              a = a;
              left = refl;
              synced = refl;
              served = run_error-eq _ _ (sym said) (ap (λ q. q.0) h);
              stops = once;
              closed =
                  ap (λ t. (Bootstrap.close sql redis asynq (some a.r) t).1)
                    (sym (ap (λ q. q.1) h));
              logged =
                  ap
                    (λ t.
                      (opening
                        ++ started_entry ∷ process_entry info "worker shutdown completed" none ∷ [])
                      ++ close_warning "close registry"
                          (Bootstrap.close sql redis asynq (some a.r) t).0)
                    (sym (ap (λ q. q.1) h));
            })))

    run_worker-eq :
        (a : Assembled)
        → run_worker sql redis asynq muxes json meta waits a.w opened
          ≡ ((waits a.w opened).0.failure, (waits a.w opened).1)
    unfolding run_worker WorkerApp.run
    run_worker-eq a = simp (a.served, a.routed)

    init_worker-IsMade :
        (r : Registry sql redis asynq)
        → init_worker sql redis asynq (some cfg) s ≡ (ok r, opening, opened)
        → IsMade sql redis asynq muxes json meta r
    init_worker-IsMade r h =
        new_worker-IsMade sql redis asynq muxes json meta r cfg
          (init_worker-IsReady sql redis asynq (some cfg) s opened r opening h)

    with_registry-Ends :
        (l : Loggers) (q : Result (Registry sql redis asynq) × List Entry × S)
        → init_worker sql redis asynq (some cfg) s ≡ q
        → Ends (with_registry sql redis asynq muxes json meta waits l q)
    unfolding with_registry with_worker dies
    with_registry-Ends l (err e, log, after) h = inr (
        inl (
          e,
          ap (λ q. q.0) h,
          refl,
          sym (ap (λ q. q.2) h),
          sym (ap (λ q. q.1 ++ process_entry fatal "initialize worker" (some e) ∷ []) h),
        ))
    with_registry-Ends l (ok r, log, after) h =
        let at = ap (λ q. q.2) h in
        let initialized = h ∙ ap₂ (λ x y. (ok r, x, y)) (sym (ap (λ q. q.1) h)) (sym at) in
        let m = init_worker-IsMade r initialized in
        let a : Assembled = record {
          r = r;
          w = m.w;
          server = m.server;
          mux = m.mux;
          initialized = initialized;
          made = m.made;
          served = m.served;
          routed = m.routed;
        } in
        rw (← at, ← ap (λ q. q.1) h, m.made) (after_run-Ends a l _ (sym (run_worker-eq a)))

    with_runtime-Ends :
        (q : Loggers × RuntimeStart)
        → init_runtime platform (some cfg) ("worker" ∷ []) loggers ≡ q
        → Ends (with_runtime sql redis asynq muxes json meta waits cfg s q)
    unfolding with_runtime
    with_runtime-Ends (l, refused e) h = inl (refl, (e, inl (ap (λ q. q.1) h, refl)))
    with_runtime-Ends (l, crashed e) h = inl (refl, (e, inr (ap (λ q. q.1) h, refl)))
    with_runtime-Ends (l, set_up) h = with_registry-Ends l _ refl

    -- The worker process either panics, for InitRuntime, and has opened nothing; or exits
    -- for the error of InitWorker, never for one of NewWorker; or exits since asynq's server failed,
    -- in the state that Run left, without the deferred calls; or returns, and then asynq's server
    -- had no error and was told to shut down exactly once, the registry was closed and the log
    -- synced. Its log is what InitWorker logged and what main logs for that end. Wait is taken to
    -- return when both goroutines of Run have.
    pub work_verdict : Ends (work sql redis asynq muxes json meta waits platform cfg loggers s)
    unfolding work
    work_verdict = with_runtime-Ends _ refl
