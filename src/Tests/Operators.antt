-- ===== src/Tests/Operators.antt =====
-- The operator in a cluster where the ready check cannot be set up.
use rancid_syncer.Base.{ℕ, suc, ◌≡◌, refl, [], ◌∷◌, false}
use rancid_syncer.Base.Outcome.{ok, err, failure}
use rancid_syncer.Commands.Console.{World, pure, exited}
use rancid_syncer.Commands.Operator.{ControllerRuntime, Options, operator_main}
use rancid_syncer.Commands.Operator.Stages.{IsTotal, operator_main-eq-all_stages}

-- The state counts the calls.
abbrev runtime : ControllerRuntime ℕ
runtime = record {
  Config = Unit {0};
  Manager = Options;
  Client = Unit {0};
  add_to_scheme = λ s. (ok tt, s);
  add_api_to_scheme = λ s. (ok tt, s);
  parse = λ flags. pure (record flags { metrics_addr = ":9090" });
  get_config_or_die = pure tt;
  new_manager = λ config options s. (ok options, suc s);
  get_client = λ mgr. tt;
  complete = λ mgr client s. (ok tt, suc s);
  add_healthz_check = λ mgr name s. (ok tt, suc s);
  add_readyz_check = λ mgr name s. (err (failure name), suc s);
  start = λ mgr s. (ok tt, suc s);
}

abbrev runtime_total : IsTotal runtime
runtime_total = record {
  new_manager-returns = λ config flags s. tt;
  complete-returns = λ mgr s. tt;
  healthz-returns = λ mgr s. tt;
  readyz-returns = λ mgr s. tt;
  start-returns = λ mgr s. tt;
}

abbrev fresh : World ℕ
fresh = record { cluster = 0; printed = [] }

operator_main-eq-all_stages_example :
    operator_main runtime fresh
    ≡ (exited 1, record { cluster = 4; printed = "unable to set up ready check" ∷ [] })
operator_main-eq-all_stages_example =
    operator_main-eq-all_stages runtime runtime_total fresh fresh fresh
      (record { metrics_addr = ":9090"; probe_addr = ":8081"; enable_leader_election = false }) tt
      refl refl
