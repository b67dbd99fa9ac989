-- ===== src/Middleware/Recovery.antt =====
-- Recovery: no panic of the chain behind it goes further.
use ginblade.Prelude.{◌≡◌, refl, ◌⊎◌, inl, inr, String, true, [], ◌∷◌, ◌++◌}
use ginblade.Http.{Gin, Outcome, finished, panicked, Handler, envelope, trace_of}
use ginblade.Response.{error_response}
use ginblade.Errcode.{internal_error}
use ginblade.Middleware.{recovery, recover, recovery_entry, recovered}

module _ {W : Type 0} (next : Handler W) (c : Gin) (w : W) where
  -- The chain behind Recovery panicked, with the request and the state as they were then.
  pub record IsRecovered (o : Outcome W) : Type 0 where
    pub panic : String
    pub at : Gin
    pub state : W
    pub panics : next c w ≡ panicked panic at state
    pub finishes : o ≡ finished (recover panic at) state
    pub status : (recover panic at).status ≡ 200
    pub aborted : (recover panic at).aborted ≡ true
    pub answer :
        (recover panic at).bodies
        ≡ at.bodies ++ envelope (error_response (trace_of at) internal_error) ∷ []
    pub logged : (recover panic at).log ≡ at.log ++ recovery_entry panic at ∷ []

  -- The chain behind Recovery finished, and Recovery changed nothing.
  pub record IsUntouched (o : Outcome W) : Type 0 where
    pub at : Gin
    pub state : W
    pub finished_there : next c w ≡ finished at state
    pub same : o ≡ finished at state

  recovered_verdict :
      (o : Outcome W) → next c w ≡ o → IsRecovered (recovered o) ⊎ IsUntouched (recovered o)
  recovered_verdict (finished at state) h =
      inr (record { at = at; state = state; finished_there = h; same = refl })
  recovered_verdict (panicked p at state) h = inl (record {
    panic = p;
    at = at;
    state = state;
    panics = h;
    finishes = refl;
    status = unfold recover in refl;
    aborted = unfold recover in refl;
    answer = unfold recover in refl;
    logged = unfold recover in refl;
  })

  -- Behind Recovery every request finishes: as the chain left it, or, after a panic, with the
  -- envelope for INTERNAL_ERROR at status 200, aborted, and one error in the log.
  pub recovery_verdict : IsRecovered (recovery next c w) ⊎ IsUntouched (recovery next c w)
  unfolding recovery
  recovery_verdict = recovered_verdict (next c w) refl
