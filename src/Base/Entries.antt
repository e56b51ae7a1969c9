-- ===== src/Base/Entries.antt =====
-- Maps whose keys are distinct: their entries in any order give the same values.
use Prim.Native.String.{String}
use mathlib.Core.Path.{◌≡◌, refl, sym, ◌∙◌, ap, subst}
use mathlib.Core.Bool.{true, false}
use mathlib.Core.Option.{Option, none, some}
use mathlib.Core.List.{[], ◌∷◌}
use mathlib.Core.List.Permᴰ
use mathlib.Core.List.{Permᴰ}
use mathlib.Core.Logic.{inl, inr, ∥∥₁_elim}
use native.Mathlib.Omega.{arith}
use text.Mathlib.Text.{◌==◌}
use text.Mathlib.TextEquality.{eq_iff}
use rancid_syncer.Base.Tests.{Bool-cases}
use mathlib.Core.HLevel.{hedberg}
use rancid_syncer.Base.Lists.{All}
use rancid_syncer.Base.Runtime.{Runtime, IsRuntime}
use rancid_syncer.Base.Dict.{Dict, lookup, insert, erase, has_key, has_key-insert}

pub true_not_false : true ≡ false → ⊥
true_not_false e = cc

module _ {ℓ} {V : Type ℓ} where
  pub some_injective : {a b : V} → Option.some a ≡ some b → a ≡ b
  some_injective e = cc

  -- No key has two entries.
  abbrev pub IsMap : Dict V → Type 0
  IsMap [] = Unit
  IsMap ((k, v) ∷ entries) = (has_key k entries ≡ false) × IsMap entries

  has_key-Permᴰ : (key : String) {xs ys : Dict V} → Permᴰ xs ys → has_key key xs ≡ has_key key ys
  unfolding has_key
  has_key-Permᴰ key Permᴰ.nil = refl
  has_key-Permᴰ key (Permᴰ.cons e p) = rw (e, has_key-Permᴰ key p) refl
  has_key-Permᴰ key (Permᴰ.swap e d) = rw (e, d) (ground arith)
  has_key-Permᴰ key (Permᴰ.trans p q) = has_key-Permᴰ key p ∙ has_key-Permᴰ key q

  IsMap-swap : (a b : String × V) (l : Dict V) → IsMap (a ∷ b ∷ l) → IsMap (b ∷ a ∷ l)
  unfolding has_key
  IsMap-swap a b l (f, (g, h)) = (ground (arith, eq_iff a.0 b.0, eq_iff b.0 a.0), (ground arith, h))

  lookup-swap :
      (key : String) (a b : String × V) (l : Dict V)
      → IsMap (a ∷ b ∷ l)
      → lookup key (a ∷ b ∷ l) ≡ lookup key (b ∷ a ∷ l)
  unfolding has_key lookup
  lookup-swap key a b l (f, (g, h)) = elim (Bool-cases (a.0 == key)) [
    | inl same ↦ elim (Bool-cases (b.0 == key)) [
      | inl both ↦
          let e : b.0 ≡ a.0 = (eq_iff b.0 key).0 both ∙ sym ((eq_iff a.0 key).0 same) in
          absurd (true_not_false (sym (rw ((eq_iff b.0 a.0).1 e) refl) ∙ f))
      | inr other ↦ rw (same, other) refl
    ]
    | inr other ↦ rw other refl
  ]

  IsMap-Permᴰ : {xs ys : Dict V} → Permᴰ xs ys → IsMap xs → IsMap ys
  unfolding has_key
  IsMap-Permᴰ Permᴰ.nil h = h
  IsMap-Permᴰ (Permᴰ.cons {a} {b} {l₁} {l₂} e p) (f, h) =
      (rw⁻¹ e (sym (has_key-Permᴰ a.0 p) ∙ f), IsMap-Permᴰ p h)
  IsMap-Permᴰ (Permᴰ.swap {a} {b} {a'} {b'} {l} e d) h =
      subst (λ x. IsMap (x ∷ b' ∷ l)) d (subst (λ x. IsMap (b ∷ x ∷ l)) e (IsMap-swap a b l h))
  IsMap-Permᴰ (Permᴰ.trans p q) h = IsMap-Permᴰ q (IsMap-Permᴰ p h)

  All-Permᴰ : (P : String × V → Type 0) {xs ys : Dict V} → Permᴰ xs ys → All P xs → All P ys
  All-Permᴰ P Permᴰ.nil h = h
  All-Permᴰ P (Permᴰ.cons e p) (x, h) = (subst P e x, All-Permᴰ P p h)
  All-Permᴰ P (Permᴰ.swap e d) (x, (y, h)) = (subst P d y, (subst P e x, h))
  All-Permᴰ P (Permᴰ.trans p q) h = All-Permᴰ P q (All-Permᴰ P p h)

  pub lookup-none : (key : String) (m : Dict V) → has_key key m ≡ false → lookup key m ≡ none
  unfolding lookup has_key
  lookup-none key [] e = refl
  lookup-none key ((i, v) ∷ m) e = ground (arith, lookup-none key m)

  lookup-Permᴰ :
      (key : String) {xs ys : Dict V} → Permᴰ xs ys → IsMap xs → lookup key xs ≡ lookup key ys
  unfolding lookup has_key
  lookup-Permᴰ key Permᴰ.nil h = refl
  lookup-Permᴰ key (Permᴰ.cons {a} e p) (f, h) = rw (sym e, lookup-Permᴰ key p h) refl
  lookup-Permᴰ key (Permᴰ.swap {a} {b} {a'} {b'} {l} e d) h =
      lookup-swap key a b l h
      ∙ ap (λ x. lookup key (b ∷ x ∷ l)) e
      ∙ ap (λ x. lookup key (x ∷ b' ∷ l)) d
  lookup-Permᴰ key (Permᴰ.trans p q) h = lookup-Permᴰ key p h ∙ lookup-Permᴰ key q (IsMap-Permᴰ p h)

  pub IsMap-insert : (k : String) (v : V) (m : Dict V) → IsMap m → IsMap (insert k v m)
  unfolding insert has_key
  IsMap-insert k v [] h = (refl, tt)
  IsMap-insert k v ((i, w) ∷ m) (f, h) = elim (Bool-cases (i == k)) [
    | inl same ↦ rw same (rw ((eq_iff i k).0 same) at f, h)
    | inr other ↦
        rw other
          (has_key-insert k i v m ∙ ground (arith, eq_iff k i, eq_iff i k), IsMap-insert k v m h)
  ]

  pub All-insert :
      (P : String × V → Type 0) (k : String) (v : V) (m : Dict V)
      → P (k, v)
      → All P m
      → All P (insert k v m)
  unfolding insert
  All-insert P k v [] p h = (p, tt)
  All-insert P k v ((i, w) ∷ m) p (q, h) = elim (Bool-cases (i == k)) [
    | inl same ↦ rw same (p, h)
    | inr other ↦ rw other (q, All-insert P k v m p h)
  ]

  pub All-erase : (P : String × V → Type 0) (k : String) (m : Dict V) → All P m → All P (erase k m)
  unfolding erase
  All-erase P k [] h = tt
  All-erase P k ((i, w) ∷ m) (q, h) = elim (Bool-cases (i == k)) [
    | inl same ↦ rw same (All-erase P k m h)
    | inr other ↦ rw other (q, All-erase P k m h)
  ]

  has_key-erase :
      (k key : String) (m : Dict V) → has_key key m ≡ false → has_key key (erase k m) ≡ false
  unfolding erase has_key
  has_key-erase k key [] e = refl
  has_key-erase k key ((i, w) ∷ m) e = ground (arith, has_key-erase k key m)

  pub IsMap-erase : (k : String) (m : Dict V) → IsMap m → IsMap (erase k m)
  unfolding erase
  IsMap-erase k [] h = tt
  IsMap-erase k ((i, w) ∷ m) (f, h) = elim (Bool-cases (i == k)) [
    | inl same ↦ rw same (IsMap-erase k m h)
    | inr other ↦ rw other (has_key-erase k i m f, IsMap-erase k m h)
  ]

  pub All-lookup :
      (P : String × V → Type 0) (k : String) (v : V) (m : Dict V)
      → All P m
      → lookup k m ≡ some v
      → P (k, v)
  unfolding lookup
  All-lookup P k v [] h e = cc
  All-lookup P k v ((i, w) ∷ m) (q, h) e = elim (Bool-cases (i == k)) [
    | inl same ↦
        subst P
          (ap (λ x. (x, w)) ((eq_iff i k).0 same)
            ∙ ap (λ x. (k, x)) (some_injective (rw same at e)))
          q
    | inr other ↦ All-lookup P k v m h (rw other at e)
  ]

pub String-discrete : Discrete String
String-discrete a b = elim (Bool-cases (a == b)) [
  | inl e ↦ yes ((eq_iff a b).0 e)
  | inr d ↦ no (λ e. cc ((eq_iff a b).1 e, d))
]

pub String-IsSet : IsSet String
String-IsSet = hedberg String-discrete

module _ {V : Type 0} (Option-IsSet : IsSet (Option V)) (go : Runtime) (lawful : IsRuntime go) where
  IsMap-prop : (m : Dict V) → IsProp (IsMap m)
  IsMap-prop [] = hlevel
  IsMap-prop ((k, v) ∷ m) = hlevel (IsMap-prop m)

  pub IsMap-range : (m : Dict V) → IsMap m → IsMap (go.range m)
  IsMap-range m h =
      ∥∥₁_elim (lawful.range-perm m) (IsMap-prop (go.range m)) λ p. IsMap-Permᴰ (Permᴰ.symm p) h

  pub lookup-range : (key : String) (m : Dict V) → IsMap m → lookup key (go.range m) ≡ lookup key m
  lookup-range key m h =
      ∥∥₁_elim (lawful.range-perm m) (Option-IsSet _ _) λ p. sym (lookup-Permᴰ key (Permᴰ.symm p) h)

  pub All-range :
      (P : String × V → Type 0)
      → ((x : String × V) → IsProp (P x))
      → (m : Dict V) → All P m
      → All P (go.range m)
  All-range P prop m h =
      ∥∥₁_elim (lawful.range-perm m) (All-prop (go.range m)) λ p. All-Permᴰ P (Permᴰ.symm p) h
    where
      All-prop : (xs : Dict V) → IsProp (All P xs)
      All-prop [] = hlevel
      All-prop (x ∷ xs) = hlevel (prop, All-prop xs)
