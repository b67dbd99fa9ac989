-- ===== src/Cmd/Starting.antt =====
-- How a process of cmd ends that InitRuntime keeps from starting.
use ginblade.Prelude.{◌≡◌, ◌⊎◌, String, some, [], ◌∷◌}
use ginblade.Errors.{GoError, wrap}
use ginblade.Log.{Loggers}
use ginblade.Config.Types.{Config}
use ginblade.Bootstrap.{init_runtime, Platform, refused, crashed}
use ginblade.Cmd.{Process, panicked}

-- A panic, for the error of InitRuntime or a mode that gin does not know, before anything is opened.
abbrev pub NeverStarted :
    {S : Type 0} → Platform → Config → Loggers → String → S → Process S → Type 0
NeverStarted platform cfg loggers service s p =
    (p.state ≡ s)
    × ((e : GoError) × (((((init_runtime platform (some cfg) (service ∷ []) loggers).1 ≡ refused e)
            × (p.exit ≡ panicked (wrap "init runtime" e))))
          ⊎ (((init_runtime platform (some cfg) (service ∷ []) loggers).1 ≡ crashed e)
              × (p.exit ≡ panicked e))))
