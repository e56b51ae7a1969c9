-- ===== src/Base/Effect.antt =====
-- Calls that read or change the state of the cluster. The state outlives an error and a panic.
use Prim.Native.String.{String}
use mathlib.Core.Path.{◌≡◌, refl, sym, ap, ◌∙◌}
use mathlib.Core.List.{List, [], ◌∷◌, ◌++◌, append-nil}
use mathlib.Core.Logic.{◌⊎◌, inl, inr}
use rancid_syncer.Base.Outcome.{Outcome, ok, err, panic, Error, ok-injective}

abbrev pub Effect : Type 0 → Type 0 → Type 0
Effect S A = S → Outcome A × S

module _ {S A : Type 0} where
  abbrev pub pure : A → Effect S A
  pure a s = (ok a, s)

  abbrev pub throw : Error → Effect S A
  throw e s = (err e, s)

  abbrev pub crash : String → Effect S A
  crash m s = (panic m, s)

  -- A call that only reads.
  abbrev pub read : (S → Outcome A) → Effect S A
  read f s = (f s, s)

  abbrev pub lift : Outcome A → Effect S A
  lift r s = (r, s)

module _ {S A B : Type 0} where
  abbrev pub and_then : Outcome A → (A → Effect S B) → Effect S B
  and_then (ok a) f = f a
  and_then (err e) f = throw e
  and_then (panic m) f = crash m

  infixl 5 ◌>>=◌ ◌>>◌
  abbrev pub ◌>>=◌ : Effect S A → (A → Effect S B) → Effect S B
  m >>= f = λ s. let (r, s') = m s in and_then r f s'

  abbrev pub ◌>>◌ : Effect S A → Effect S B → Effect S B
  m >> n = m >>= λ _. n

module _ {A : Type 0} where
  -- `a, err := …`, where the code goes on after an error.
  abbrev pub returned : Outcome A → Outcome (Error ⊎ A)
  returned (ok a) = ok (inr a)
  returned (err e) = ok (inl e)
  returned (panic m) = panic m

  -- `if err := …; err != nil { errList = append(errList, err) }`
  abbrev pub gathered : List Error → Outcome A → Outcome (List Error)
  gathered errs (ok a) = ok errs
  gathered errs (err e) = ok (errs ++ e ∷ [])
  gathered errs (panic m) = panic m

module _ {S A : Type 0} where
  abbrev pub try : Effect S A → Effect S (Error ⊎ A)
  try m s = let (r, s') = m s in (returned r, s')

  abbrev pub gather : List Error → Effect S A → Effect S (List Error)
  gather errs m s = let (r, s') = m s in (gathered errs r, s')

module _ {S A B : Type 0} where
  -- Inversion of a chain that returned a value.
  pub and_then-eq-ok :
      (r : Outcome A) (f : A → Effect S B) (s : S) {b : B}
      → (and_then r f s).0 ≡ ok b
      → (a : A) × (r ≡ ok a) × ((f a s).0 ≡ ok b)
  and_then-eq-ok (ok a) f s h = (a, refl, h)
  and_then-eq-ok (err e) f s h = cc
  and_then-eq-ok (panic m) f s h = cc

  pub >>=-eq-ok :
      (m : Effect S A) (f : A → Effect S B) (s : S) {b : B}
      → ((m >>= f) s).0 ≡ ok b
      → (a : A) × ((m s).0 ≡ ok a) × ((f a (m s).1).0 ≡ ok b)
  >>=-eq-ok m f s h = and_then-eq-ok (m s).0 f (m s).1 h

  -- The same with the states between the calls.
  and_then-eq-run :
      (p : Outcome A × S) (f : A → Effect S B) {b : B} {after : S}
      → and_then p.0 f p.1 ≡ (ok b, after)
      → (a : A) × (between : S) × (p ≡ (ok a, between)) × (f a between ≡ (ok b, after))
  and_then-eq-run (ok a, s) f h = (a, s, refl, h)
  and_then-eq-run (err e, s) f h = let k = ap (λ x. x.0) h in cc
  and_then-eq-run (panic m, s) f h = let k = ap (λ x. x.0) h in cc

  pub >>=-eq-run :
      (m : Effect S A) (f : A → Effect S B) (s : S) {b : B} {after : S}
      → (m >>= f) s ≡ (ok b, after)
      → (a : A) × (between : S) × (m s ≡ (ok a, between)) × (f a between ≡ (ok b, after))
  >>=-eq-run m f s h = and_then-eq-run (m s) f h

module _ {A : Type 0} where
  -- The error of a call, if it has one.
  abbrev pub failed : Outcome A → List Error
  failed (err e) = e ∷ []
  failed _ = []

  -- What the call returned, from what `try` made of it.
  abbrev pub outcome_of : Error ⊎ A → Outcome A
  outcome_of (inl e) = err e
  outcome_of (inr a) = ok a

module _ {S A : Type 0} where
  pub gather-eq-run :
      (errs : List Error) (m : Effect S A) (s : S) {errs' : List Error} {after : S}
      → gather errs m s ≡ (ok errs', after)
      → (r : Outcome A) × (m s ≡ (r, after)) × (errs' ≡ errs ++ failed r)
  gather-eq-run errs m s {errs'} {after} h = inverted (m s) h
    where
      inverted :
          (p : Outcome A × S)
          → ◌≡◌ {A = Outcome (List Error) × S} (gathered errs p.0, p.1) (ok errs', after)
          → (r : Outcome A) × (p ≡ (r, after)) × (errs' ≡ errs ++ failed r)
      inverted (ok a, s1) h = (
        ok a,
        ap (λ x. (ok a, x.1)) h,
        sym (ok-injective (ap (λ x. x.0) h)) ∙ sym (append-nil errs),
      )
      inverted (err e, s1) h =
          (err e, ap (λ x. (err e, x.1)) h, sym (ok-injective (ap (λ x. x.0) h)))
      inverted (panic e, s1) h = let k = ap (λ x. x.0) h in cc

  pub try-eq-run :
      (m : Effect S A) (s : S) {x : Error ⊎ A} {after : S}
      → try m s ≡ (ok x, after)
      → m s ≡ (outcome_of x, after)
  try-eq-run m s {x} {after} h = inverted (m s) h
    where
      inverted :
          (p : Outcome A × S)
          → ◌≡◌ {A = Outcome (Error ⊎ A) × S} (returned p.0, p.1) (ok x, after)
          → p ≡ (outcome_of x, after)
      inverted (ok a, s1) h =
          let e : inr a ≡ x = ok-injective (ap (λ q. q.0) h) in rw (← e) (ap (λ q. (ok a, q.1)) h)
      inverted (err e, s1) h =
          let d : inl e ≡ x = ok-injective (ap (λ q. q.0) h) in rw (← d) (ap (λ q. (err e, q.1)) h)
      inverted (panic e, s1) h = let k = ap (λ q. q.0) h in cc
