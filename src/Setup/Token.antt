-- ===== src/Setup/Token.antt =====
-- main.go: the wait of `SetupClusterForPrometheus` for the token of its service account.
pub mod States
pub mod Polling
use rancid_syncer.Base.{
  String, List, [], ◌∷◌, Option, none, some, Bool, true, false, ◌&&◌, if◌then◌else◌,
}
use rancid_syncer.Base.Dict.{Dict, lookup, has_key}
use rancid_syncer.Base.Outcome.{Outcome, ok, err, panic, Error, is_not_found}
use rancid_syncer.Base.Effect.{Effect}
use rancid_syncer.Kube.{ObjectKey, object_key}
use rancid_syncer.Setup.{Server}
use rancid_syncer.Setup.Access.{Access, ServiceAccount}

-- The captured variables `caData` and `tokenData`.
pub record Token : Type 0 where
  pub ca : String
  pub token : String

abbrev pub no_token : Token
no_token = record { ca = ""; token = "" }

abbrev pub text_at : Option String → String
text_at none = ""
text_at (some v) = v

-- What is assigned from the entries of a secret, and whether both were found.
unfoldable pub read_token : Dict String → Bool × Token
read_token entries = (
  has_key "ca.crt" entries && has_key "token" entries,
  record { ca = text_at (lookup "ca.crt" entries); token = text_at (lookup "token" entries) },
)

module _ {A : Type 0} where
  -- `if apierrors.IsNotFound(err) { return false, nil } else if err != nil { return false, err }`
  abbrev pub retry_missing : Outcome A → Token → (A → Outcome Bool × Token) → Outcome Bool × Token
  retry_missing (ok a) l f = f a
  retry_missing (err e) l f = (if is_not_found e then ok false else err e, l)
  retry_missing (panic m) l f = (panic m, l)

module _ (c : Server) (a : Access c) where
  unfoldable pub check_secret : ObjectKey → String → Token → c.State → Outcome Bool × Token
  unfolding read_token
  check_secret sa name l s =
      retry_missing (a.get_secret (record { namespace = sa.namespace; name = name }) s) l
        λ entries. let (found, l') = read_token entries in (ok found, l')

  abbrev pub first_secret : ObjectKey → List String → Token → c.State → Outcome Bool × Token
  first_secret sa [] l s = (ok false, l)
  first_secret sa (name ∷ _) l s = check_secret sa name l s

  -- The condition that is polled.
  unfoldable pub check_token : ObjectKey → Token → c.State → Outcome Bool × Token
  unfolding check_secret
  check_token sa l s =
      retry_missing (a.get_service_account sa s) l λ sacc. first_secret sa sacc.secrets l s

  unfoldable pub await_token : ObjectKey → Effect c.State Token
  unfolding check_token
  await_token sa = a.poll_immediate (check_token sa) no_token
