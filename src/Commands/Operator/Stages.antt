-- ===== src/Commands/Operator/Stages.antt =====
-- How the operator ends: its stages in order, up to the first that fails.
use rancid_syncer.Base.{String, ◌≡◌, refl, sym, ap, ◌++◌, List, [], ◌∷◌, Option, none, some}
use mathlib.Core.List.{append_assoc}
use rancid_syncer.Base.Outcome.{Outcome, ok, err, panic}
use rancid_syncer.Base.Effect.{Effect}
use rancid_syncer.Commands.Console.{Finish, finished, exited, World, Program, go_on}
use rancid_syncer.Commands.Operator.{
  Flags, ControllerRuntime, default_flags, options_of, exit_on_error, setup_with_manager,
  run_manager, operator_main,
}

pub data Stage : Type 0 where
  manager : Stage
  controller : Stage
  health_check : Stage
  ready_check : Stage
  running : Stage

abbrev pub message : Stage → String
message manager = "unable to start manager"
message controller = "unable to create controller"
message health_check = "unable to set up health check"
message ready_check = "unable to set up ready check"
message running = "problem running manager"

-- What the log says of a run in which that stage failed.
abbrev pub log_of : Option Stage → List String
log_of none = "starting manager" ∷ []
log_of (some running) = "starting manager" ∷ message running ∷ []
log_of (some stage) = message stage ∷ []

abbrev pub ends_with : Option Stage → Finish (Unit {0})
ends_with none = finished (ok tt)
ends_with (some stage) = exited 1

abbrev pub DoesNotPanic : {A : Type 0} → Outcome A → Type 0
DoesNotPanic (panic m) = ⊥
DoesNotPanic _ = Unit

module _ {S : Type 0} where
  abbrev pub next_stage : Outcome (Unit {0}) → Stage → Option Stage × S → S → Option Stage × S
  next_stage (ok u) stage rest s = rest
  next_stage (err e) stage rest s = (some stage, s)
  next_stage (panic m) stage rest s = (some stage, s)

  -- The calls in their order: the first that fails, and the state that is left.
  abbrev pub first_failure : List (Stage × Effect S (Unit {0})) → S → Option Stage × S
  first_failure [] s = (none, s)
  first_failure ((stage, m) ∷ stages) s =
      let rest = first_failure stages (m s).1 in next_stage (m s).0 stage rest (m s).1

module _ {S : Type 0} (rt : ControllerRuntime S) where
  abbrev pub stages : rt.Manager → List (Stage × Effect S (Unit {0}))
  stages mgr =
      (controller, rt.complete mgr (rt.get_client mgr))
      ∷ (health_check, rt.add_healthz_check mgr "healthz")
      ∷ (ready_check, rt.add_readyz_check mgr "readyz")
      ∷ (running, rt.start mgr)
      ∷ []

  abbrev pub ended : Option Stage × S → List String → Finish (Unit {0}) × World S
  ended (o, s) log = (ends_with o, record { cluster = s; printed = log ++ log_of o })

  started :
      (r : Outcome (Unit {0})) (s : S) (log : List String)
      → DoesNotPanic r
      → exit_on_error "problem running manager" r s (log ++ "starting manager" ∷ [])
        ≡ ended (next_stage r running (none, s) s) log
  started (ok u) s log h = refl
  started (err e) s log h =
      ap (λ l. (exited 1, record { cluster = s; printed = l }))
        (append_assoc log ("starting manager" ∷ []) ("problem running manager" ∷ []))
  started (panic m) s log h = absurd h

  -- The controller runtime returns errors and does not panic.
  pub record IsTotal : Type 0 where
    pub new_manager-returns :
        (config : rt.Config) (flags : Flags) (s : S)
        → DoesNotPanic (rt.new_manager config (options_of flags) s).0
    pub complete-returns :
        (mgr : rt.Manager) (s : S) → DoesNotPanic (rt.complete mgr (rt.get_client mgr) s).0
    pub healthz-returns :
        (mgr : rt.Manager) (s : S) → DoesNotPanic (rt.add_healthz_check mgr "healthz" s).0
    pub readyz-returns :
        (mgr : rt.Manager) (s : S) → DoesNotPanic (rt.add_readyz_check mgr "readyz" s).0
    pub start-returns : (mgr : rt.Manager) (s : S) → DoesNotPanic (rt.start mgr s).0

  staged :
      (r : Outcome (Unit {0})) (s : S) (log : List String) (stage : Stage)
      (next : Program S (Unit {0})) (rest : Option Stage × S)
      → DoesNotPanic r
      → log_of (some stage) ≡ message stage ∷ []
      → next (record { cluster = s; printed = log }) ≡ ended rest log
      → go_on
          (exit_on_error (message stage) r s log).0
          (λ u. next)
          (exit_on_error (message stage) r s log).1
        ≡ ended (next_stage r stage rest s) log
  staged (ok u) s log stage next rest h e f = f
  staged (err x) s log stage next rest h e f =
      ap (λ l. (exited 1, record { cluster = s; printed = log ++ l })) (sym e)
  staged (panic m) s log stage next rest h e f = absurd h

  run_manager_lem :
      (total : IsTotal) (mgr : rt.Manager) (w : World S)
      → run_manager rt mgr w ≡ ended (first_failure (stages mgr) w.cluster) w.printed
  unfolding run_manager setup_with_manager
  run_manager_lem total mgr w =
      let s1 = (rt.complete mgr (rt.get_client mgr) w.cluster).1 in
      let s2 = (rt.add_healthz_check mgr "healthz" s1).1 in
      let s3 = (rt.add_readyz_check mgr "readyz" s2).1 in
      staged _ s1 w.printed controller _ _ (total.complete-returns mgr w.cluster) refl (
        staged _ s2 w.printed health_check _ _ (total.healthz-returns mgr s1) refl (
          staged _ s3 w.printed ready_check _ _ (total.readyz-returns mgr s2) refl (
            started (rt.start mgr s3).0 (rt.start mgr s3).1 w.printed
              (total.start-returns mgr s3))))

  -- The stages that depend on the manager come after the one that makes it.
  abbrev pub all_stages : Outcome rt.Manager × S → Option Stage × S
  all_stages (ok mgr, s) = first_failure (stages mgr) s
  all_stages (err e, s) = (some manager, s)
  all_stages (panic m, s) = (some manager, s)

  -- If the flags are parsed, the configuration is found and the controller runtime does not panic
  -- (`IsTotal`), the operator makes a manager with the options of the flags, sets up the controller,
  -- the health check and the ready check and runs the manager, up to the first of these that fails:
  -- it leaves the state that this one left. If none fails, it ends without an error and its log is
  -- `starting manager`; else it exits with status 1 and its log is the message of the stage that
  -- failed, after `starting manager` if the manager was running.
  pub operator_main-eq-all_stages :
      (total : IsTotal) (w w1 w2 : World S) (flags : Flags) (config : rt.Config)
      → rt.parse default_flags w ≡ (finished (ok flags), w1)
      → rt.get_config_or_die w1 ≡ (finished (ok config), w2)
      → operator_main rt w
        ≡ ended (all_stages (rt.new_manager config (options_of flags) w2.cluster)) w2.printed
  unfolding operator_main
  operator_main-eq-all_stages total w w1 w2 flags config e f =
      rw (e, f)
        (made (rt.new_manager config (options_of flags) w2.cluster).0
          (rt.new_manager config (options_of flags) w2.cluster).1
          (total.new_manager-returns config flags w2.cluster))
    where
      made :
          (r : Outcome rt.Manager) (s : S)
          → DoesNotPanic r
          → go_on
              (exit_on_error "unable to start manager" r s w2.printed).0
              (run_manager rt)
              (exit_on_error "unable to start manager" r s w2.printed).1
            ≡ ended (all_stages (r, s)) w2.printed
      made (ok mgr) s h = run_manager_lem total mgr (record { cluster = s; printed = w2.printed })
      made (err x) s h = refl
      made (panic m) s h = absurd h
