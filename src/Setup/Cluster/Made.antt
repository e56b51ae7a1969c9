-- ===== src/Setup/Cluster/Made.antt =====
-- Calls that make the patches of a plan, in its order, up to some point.
use mathlib.Core.List.{append_assoc, append-nil}
use rancid_syncer.Base.{◌≡◌, refl, sym, ◌∙◌, subst, List, [], ◌∷◌, ◌++◌, Bool}
use rancid_syncer.Base.Outcome.{Outcome, ok, err, panic}
use rancid_syncer.Base.Effect.{Effect, and_then, read, ◌>>=◌}
use rancid_syncer.Kube.{ObjectKey, object_key}
use rancid_syncer.Setup.{Server, Preset, AppBinding}
use rancid_syncer.Setup.Access.{Access, ServiceAccount, Role, RoleBinding}

-- A call that patches the object of a key.
pub data Write : Type 0 where
  service_account role role_binding cluster_preset project_preset app_binding : ObjectKey → Write

-- `log` has the patches so far: a call of each kind adds one, whether it succeeds or not, and a
-- wait adds none.
pub record IsLog (c : Server) (a : Access c) (log : c.State → List Write) : Type 1 where
  pub service_accounts :
      (obj : ServiceAccount) (change : ServiceAccount → Outcome ServiceAccount) (s : c.State)
      → log (a.patch_service_account obj change s).1
        ≡ log s ++ service_account (object_key obj.meta) ∷ []
  pub roles :
      (obj : Role) (change : Role → Outcome Role) (s : c.State)
      → log (a.patch_role obj change s).1 ≡ log s ++ role (object_key obj.meta) ∷ []
  pub role_bindings :
      (obj : RoleBinding) (change : RoleBinding → Outcome RoleBinding) (s : c.State)
      → log (a.patch_role_binding obj change s).1 ≡ log s ++ role_binding (object_key obj.meta) ∷ []
  pub cluster_presets :
      (obj : Preset) (change : Preset → Preset) (s : c.State)
      → log (c.patch_cluster_chart_preset obj change s).1
        ≡ log s ++ cluster_preset (object_key obj.meta) ∷ []
  pub project_presets :
      (obj : Preset) (change : Preset → Preset) (s : c.State)
      → log (c.patch_chart_preset obj change s).1
        ≡ log s ++ project_preset (object_key obj.meta) ∷ []
  pub app_bindings :
      (obj : AppBinding) (change : AppBinding → AppBinding) (s : c.State)
      → log (c.patch_app_binding obj change s).1 ≡ log s ++ app_binding (object_key obj.meta) ∷ []
  pub waits :
      {L : Type 0} (condition : L → c.State → Outcome Bool × L) (l : L) (s : c.State)
      → log (a.poll_immediate condition l s).1 ≡ log s

module _ {S : Type 0} (log : S → List Write) where
  -- From the log `before` a call with the outcome `r` came to the log `after`: it made the planned
  -- patches in their order up to some point, and all of them if it returned a value.
  pub record IsMade {A : Type 0} (plan : List Write) (before : List Write) (r : Outcome A)
      (after : List Write) : Type 0 where
    pub made : List Write
    pub left : List Write
    pub planned : plan ≡ made ++ left
    pub logged : after ≡ before ++ made
    pub finished : (a : A) → r ≡ ok a → left ≡ []

  abbrev pub Makes : {A : Type 0} → List Write → Effect S A → Type 0
  Makes plan m = (s : S) → IsMade plan (log s) (m s).0 (log (m s).1)

  pub read-Makes : {A : Type 0} (f : S → Outcome A) → Makes [] (read f)
  read-Makes f s = record {
    made = [];
    left = [];
    planned = refl;
    logged = sym (append-nil (log s));
    finished = λ a e. refl;
  }

  pub one-Makes :
      {A : Type 0} (m : Effect S A) (w : Write)
      → ((s : S) → log (m s).1 ≡ log s ++ w ∷ [])
      → Makes (w ∷ []) m
  one-Makes m w h s = record {
    made = w ∷ [];
    left = [];
    planned = refl;
    logged = h s;
    finished = λ a e. refl;
  }

  pub none-Makes : {A : Type 0} (m : Effect S A) → ((s : S) → log (m s).1 ≡ log s) → Makes [] m
  none-Makes m h s = record {
    made = [];
    left = [];
    planned = refl;
    logged = h s ∙ sym (append-nil (log s));
    finished = λ a e. refl;
  }

  and_then-Makes :
      {A B : Type 0} (ws vs : List Write) (before : List Write) (r : Outcome A) (f : A → Effect S B)
      → (s : S) → IsMade ws before r (log s)
      → ((a : A) → Makes vs (f a))
      → IsMade (ws ++ vs) before (and_then r f s).0 (log (and_then r f s).1)
  and_then-Makes ws vs before (ok a) f s p k =
      let q = k a s in
      let all : p.left ≡ [] = p.finished a refl in
      let whole : ws ≡ p.made = p.planned ∙ rw all (append-nil p.made) in
      record {
        made = p.made ++ q.made;
        left = q.left;
        planned = rw whole (rw q.planned (sym (append_assoc p.made q.made q.left)));
        logged = q.logged ∙ rw p.logged (append_assoc before p.made q.made);
        finished = q.finished;
      }
  and_then-Makes ws vs before (err e) f s p k = record {
    made = p.made;
    left = p.left ++ vs;
    planned = rw p.planned (append_assoc p.made p.left vs);
    logged = p.logged;
    finished = λ b e. cc;
  }
  and_then-Makes ws vs before (panic m) f s p k = record {
    made = p.made;
    left = p.left ++ vs;
    planned = rw p.planned (append_assoc p.made p.left vs);
    logged = p.logged;
    finished = λ b e. cc;
  }

  pub bind-Makes :
      {A B : Type 0} (ws vs : List Write) (m : Effect S A) (f : A → Effect S B)
      → Makes ws m
      → ((a : A) → Makes vs (f a))
      → Makes (ws ++ vs) (m >>= f)
  bind-Makes ws vs m f p k s = and_then-Makes ws vs (log s) (m s).0 f (m s).1 (p s) k

  -- What comes after makes no patch.
  pub end-Makes :
      {A B : Type 0} (ws : List Write) (m : Effect S A) (f : A → Effect S B)
      → Makes ws m
      → ((a : A) → Makes [] (f a))
      → Makes ws (m >>= f)
  end-Makes ws m f p k s =
      subst (λ vs. IsMade vs (log s) ((m >>= f) s).0 (log ((m >>= f) s).1)) (append-nil ws)
        (bind-Makes ws [] m f p k s)
