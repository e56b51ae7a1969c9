-- ===== src/Setup/Token/Polling.antt =====
-- The wait for a token against the states of the cluster that the polls see.
use rancid_syncer.Base.{
  String, ◌≡◌, refl, sym, ◌∙◌, ap, List, [], ◌∷◌, ◌++◌, Bool, true, false, ◌&&◌, All,
}
use rancid_syncer.Base.Dict.{has_key, has_key-lookup}
use rancid_syncer.Base.Outcome.{Outcome, ok, ok-injective, err, panic}
use rancid_syncer.Kube.{ObjectKey}
use rancid_syncer.Setup.{Server}
use rancid_syncer.Setup.Access.{Access, ServiceAccount}
use rancid_syncer.Setup.Token.{
  Token, no_token, first_secret, read_token, check_secret, check_token, await_token,
}
use rancid_syncer.Setup.Token.States.{
  timed_out, after_poll, poll_each, retry_missing-eq-true, read_token-eq-true, IsPolling, IsWaiting,
  no_account, no_secret, missing_secret, incomplete, IsReady, ready,
}

module _ (c : Server) (a : Access c) (sa : ObjectKey) where
  -- The condition is false, whatever it assigns.
  abbrev GoesOn : Outcome Bool × Token → Type 0
  GoesOn r = r.0 ≡ ok false

  check_token-GoesOn :
      (s : c.State) (l : Token) → IsWaiting c a sa s → GoesOn (check_token c a sa l s)
  unfolding check_token check_secret read_token
  check_token-GoesOn s l (no_account e) = rw e
  check_token-GoesOn s l (no_secret sacc e f) = rw e (rw f)
  check_token-GoesOn s l (missing_secret sacc name others e f g) = rw e (rw f (rw g))
  check_token-GoesOn s l (incomplete sacc name others entries e f g h) =
      rw e (rw f (rw g (ap (λ b. ok b) h)))

  check_token-IsTrue :
      (s : c.State) (l t : Token) → IsReady c a sa s t → check_token c a sa l s ≡ (ok true, t)
  unfolding check_token check_secret read_token
  check_token-IsTrue s l t (ready sacc name others entries e f g h k) =
      rw e (rw f (rw g (rw (h, k) (ap (λ b. (ok b, t)) both))))
    where
      both : (has_key "ca.crt" entries && has_key "token" entries) ≡ true
      both = cc (has_key-lookup "ca.crt" t.ca entries h, has_key-lookup "token" t.token entries k)

  poll_each-IsTrue :
      (t : Token) (l : Token) (before after : List c.State) (u : c.State)
      → All (IsWaiting c a sa) before
      → IsReady c a sa u t
      → poll_each (check_token c a sa) l (before ++ u ∷ after) ≡ ok t
  unfolding poll_each
  poll_each-IsTrue t l [] after u w r = rw (check_token-IsTrue u l t r)
  poll_each-IsTrue t l (s ∷ before) after u (p, w) r =
      next (check_token c a sa l s) (check_token-GoesOn s l p)
        (λ l'. poll_each-IsTrue t l' before after u w r)
    where
      next :
          (r : Outcome Bool × Token)
          → GoesOn r
          → ((l' : Token) → poll_each (check_token c a sa) l' (before ++ u ∷ after) ≡ ok t)
          → after_poll
              (check_token c a sa)
              r
              (λ l'. poll_each (check_token c a sa) l' (before ++ u ∷ after))
            ≡ ok t
      next (ok true, l') e ih = cc
      next (ok false, l') e ih = ih l'
      next (err x, l') e ih = cc
      next (panic m, l') e ih = cc

  poll_each_timeout :
      (l : Token) (states : List c.State)
      → All (IsWaiting c a sa) states
      → poll_each (check_token c a sa) l states ≡ err timed_out
  unfolding poll_each
  poll_each_timeout l [] w = refl
  poll_each_timeout l (s ∷ states) (p, w) =
      next (check_token c a sa l s) (check_token-GoesOn s l p) (λ l'. poll_each_timeout l' states w)
    where
      next :
          (r : Outcome Bool × Token)
          → GoesOn r
          → ((l' : Token) → poll_each (check_token c a sa) l' states ≡ err timed_out)
          → after_poll (check_token c a sa) r (λ l'. poll_each (check_token c a sa) l' states)
            ≡ err timed_out
      next (ok true, l') e ih = cc
      next (ok false, l') e ih = ih l'
      next (err x, l') e ih = cc
      next (panic m, l') e ih = cc

  -- If the condition is true at a state, that state is ready.
  IsReady-check_token :
      (s : c.State) (l t : Token) → check_token c a sa l s ≡ (ok true, t) → IsReady c a sa s t
  unfolding check_token check_secret
  IsReady-check_token s l t h =
      let (sacc, e, f) = retry_missing-eq-true (a.get_service_account sa s) l t _ h in
      by_secrets sacc e sacc.secrets refl f
    where
      by_secrets :
          (sacc : ServiceAccount)
          → a.get_service_account sa s ≡ ok sacc
          → (names : List String) → sacc.secrets ≡ names
          → first_secret c a sa names l s ≡ (ok true, t)
          → IsReady c a sa s t
      by_secrets sacc e [] d f = cc
      by_secrets sacc e (name ∷ others) d f =
          let (entries, g, k) =
            retry_missing-eq-true
              (a.get_secret (record { namespace = sa.namespace; name = name }) s) l t _ f in
          let (ca, token) = read_token-eq-true entries t k in
          ready sacc name others entries e d g ca token

  -- Polls that ended with a token ended at a state that is ready with it.
  poll_each-IsReady :
      (states : List c.State) (l t : Token)
      → poll_each (check_token c a sa) l states ≡ ok t
      → (before : List c.State) × (u : c.State) × (after : List c.State) × (states
          ≡ before ++ u ∷ after)
        × IsReady c a sa u t
  unfolding poll_each
  poll_each-IsReady [] l t h = cc
  poll_each-IsReady (s ∷ states) l t h =
      next (check_token c a sa l s) refl (λ l'. poll_each-IsReady states l' t) h
    where
      next :
          (r : Outcome Bool × Token)
          → check_token c a sa l s ≡ r
          → ((l' : Token)
              → poll_each (check_token c a sa) l' states ≡ ok t
              → (before : List c.State) × (u : c.State) × (after : List c.State) × (states
                  ≡ before ++ u ∷ after)
                × IsReady c a sa u t)
          → after_poll (check_token c a sa) r (λ l'. poll_each (check_token c a sa) l' states)
            ≡ ok t
          → (before : List c.State) × (u : c.State) × (after : List c.State) × (s ∷ states
              ≡ before ++ u ∷ after)
            × IsReady c a sa u t
      next (ok true, l') e ih g = (
        [],
        s,
        states,
        refl,
        IsReady-check_token s l t (e ∙ ap (λ (x : Token). (ok true, x)) (ok-injective g)),
      )
      next (ok false, l') e ih g =
          let (before, u, after, d, p) = ih l' g in (s ∷ before, u, after, ap (λ x. s ∷ x) d, p)
      next (err x, l') e ih g = cc
      next (panic m, l') e ih g = cc

  module _ (later : c.State → List c.State) (lawful : IsPolling c a later) where
    -- With `PollImmediate` as documented (`IsPolling`): if the polls come to a state in which the
    -- first secret of the account has both entries, and at every state before it they found nothing
    -- yet, then the wait ends with these entries.
    pub await_token-IsReady :
        (s : c.State) (before after : List c.State) (u : c.State) (t : Token)
        → s ∷ later s ≡ before ++ u ∷ after
        → All (IsWaiting c a sa) before
        → IsReady c a sa u t
        → (await_token c a sa s).0 ≡ ok t
    unfolding await_token
    await_token-IsReady s before after u t e w r =
        lawful.polls (check_token c a sa) no_token s
        ∙ rw e (poll_each-IsTrue t no_token before after u w r)

    -- If at no polled state there is a token yet, the wait ends with the error of the timeout.
    await_token_timeout :
        (s : c.State)
        → All (IsWaiting c a sa) (s ∷ later s)
        → (await_token c a sa s).0 ≡ err timed_out
    unfolding await_token
    await_token_timeout s w =
        lawful.polls (check_token c a sa) no_token s ∙ poll_each_timeout no_token (s ∷ later s) w

    -- A token that the wait ended with is that of one of the polled states.
    pub IsReady-await_token :
        (s : c.State) (t : Token)
        → (await_token c a sa s).0 ≡ ok t
        → (before : List c.State) × (u : c.State) × (after : List c.State) × (s ∷ later s
            ≡ before ++ u ∷ after)
          × IsReady c a sa u t
    unfolding await_token
    IsReady-await_token s t h =
        poll_each-IsReady (s ∷ later s) no_token t
          (sym (lawful.polls (check_token c a sa) no_token s) ∙ h)
