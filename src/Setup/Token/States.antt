-- ===== src/Setup/Token/States.antt =====
-- The states of the cluster that the wait for a token goes through, and `PollImmediate` on them.
use rancid_syncer.Base.{
  String, ◌≡◌, refl, List, [], ◌∷◌, some, Bool, true, false, ◌&&◌, inl, inr, Bool-cases,
}
use rancid_syncer.Base.Dict.{Dict, lookup, has_key, lookup-has_key}
use rancid_syncer.Base.Outcome.{Outcome, ok, err, panic, Error, failure, not_found, no_match}
use rancid_syncer.Kube.{ObjectKey}
use rancid_syncer.Setup.{Server}
use rancid_syncer.Setup.Access.{Access, ServiceAccount}
use rancid_syncer.Setup.Token.{Token, retry_missing, read_token}

abbrev pub timed_out : Error
timed_out = failure "timed out waiting for the condition"

module _ {L S : Type 0} (condition : L → S → Outcome Bool × L) where
  abbrev pub after_poll : Outcome Bool × L → (L → Outcome L) → Outcome L
  after_poll (ok true, l) rest = ok l
  after_poll (ok false, l) rest = rest l
  after_poll (err e, l) rest = err e
  after_poll (panic m, l) rest = panic m

  -- The condition at one state after the other, until it is true or fails.
  unfoldable pub poll_each : L → List S → Outcome L
  poll_each l [] = err timed_out
  poll_each l (s ∷ states) = after_poll (condition l s) (λ l'. poll_each l' states)

-- Inversion of a poll that found a token.
pub retry_missing-eq-true :
    {A : Type 0} (r : Outcome A) (l t : Token) (f : A → Outcome Bool × Token)
    → retry_missing r l f ≡ (ok true, t)
    → (x : A) × (r ≡ ok x) × (f x ≡ (ok true, t))
retry_missing-eq-true (ok x) l t f h = (x, refl, h)
retry_missing-eq-true (err not_found) l t f h = cc
retry_missing-eq-true (err no_match) l t f h = cc
retry_missing-eq-true (err (failure m)) l t f h = cc
retry_missing-eq-true (panic m) l t f h = cc

pub read_token-eq-true :
    (entries : Dict String) (t : Token)
    → ◌≡◌ {A = Outcome Bool × Token}
        (ok (read_token entries).0, (read_token entries).1)
        (ok true, t)
    → (lookup "ca.crt" entries ≡ some t.ca) × (lookup "token" entries ≡ some t.token)
unfolding read_token
read_token-eq-true entries t h = elim (Bool-cases (has_key "ca.crt" entries)) [
  | inl p ↦ elim (Bool-cases (has_key "token" entries)) [
    | inl q ↦
        let (ca, e) = lookup-has_key "ca.crt" entries p in
        let (token, d) = lookup-has_key "token" entries q in (cc, cc)
    | inr q ↦ cc
  ]
  | inr p ↦ cc
]

-- `PollImmediate` evaluates the condition at once and then at each interval, until it returns true
-- or an error, or the time is up. What it sees is the present state and the states that the cluster
-- is in at the later ticks within the time.
pub record IsPolling (c : Server) (a : Access c) (later : c.State → List c.State) : Type 1 where
  pub polls :
      {L : Type 0} (condition : L → c.State → Outcome Bool × L) (l : L) (s : c.State)
      → (a.poll_immediate condition l s).0 ≡ poll_each condition l (s ∷ later s)

module _ (c : Server) (a : Access c) (sa : ObjectKey) where
  -- A poll in this state goes on: the account or its first secret is not there yet, or the secret
  -- lacks one of its two entries.
  pub data IsWaiting (s : c.State) : Type 0 where
    no_account : a.get_service_account sa s ≡ err not_found → IsWaiting s
    no_secret :
        (sacc : ServiceAccount)
        → a.get_service_account sa s ≡ ok sacc
        → sacc.secrets ≡ []
        → IsWaiting s
    missing_secret :
        (sacc : ServiceAccount) (name : String) (others : List String)
        → a.get_service_account sa s ≡ ok sacc
        → sacc.secrets ≡ name ∷ others
        → a.get_secret (record { namespace = sa.namespace; name = name }) s ≡ err not_found
        → IsWaiting s
    incomplete :
        (sacc : ServiceAccount) (name : String) (others : List String) (entries : Dict String)
        → a.get_service_account sa s ≡ ok sacc
        → sacc.secrets ≡ name ∷ others
        → a.get_secret (record { namespace = sa.namespace; name = name }) s ≡ ok entries
        → (has_key "ca.crt" entries && has_key "token" entries) ≡ false
        → IsWaiting s

  -- In this state the account has a first secret with both entries, and they are these.
  pub data IsReady (s : c.State) (t : Token) : Type 0 where
    ready :
        (sacc : ServiceAccount) (name : String) (others : List String) (entries : Dict String)
        → a.get_service_account sa s ≡ ok sacc
        → sacc.secrets ≡ name ∷ others
        → a.get_secret (record { namespace = sa.namespace; name = name }) s ≡ ok entries
        → lookup "ca.crt" entries ≡ some t.ca
        → lookup "token" entries ≡ some t.token
        → IsReady s t
