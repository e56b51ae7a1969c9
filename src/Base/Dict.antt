-- ===== src/Base/Dict.antt =====
-- `map[string]V` as an association list: the first entry of a key counts, and writing keeps the
-- place of a key that is there.
use Prim.Native.String.{String}
use mathlib.Core.Path.{◌≡◌, refl, ap}
use mathlib.Core.Bool.{Bool, true, false}
use mathlib.Core.Option.{Option, none, some}
use mathlib.Core.List.{List, [], ◌∷◌}
use native.Mathlib.Omega.{arith}
use text.Mathlib.Text.{◌==◌}
use text.Mathlib.TextEquality.{eq_iff}
use mathlib.Core.Logic.{inl, inr}
use rancid_syncer.Base.Tests.{Bool-cases, if◌then◌else◌}

abbrev pub Dict {ℓ} : Type ℓ → Type ℓ
Dict V = List (String × V)

module _ {ℓ} {V : Type ℓ} where
  -- `m[k]`
  unfoldable pub lookup : String → Dict V → Option V
  lookup k [] = none
  lookup k ((key, v) ∷ entries) = if key == k then some v else lookup k entries

  -- `m[k] = v`
  unfoldable pub insert : String → V → Dict V → Dict V
  insert k v [] = (k, v) ∷ []
  insert k v ((key, old) ∷ entries) =
      if key == k then (k, v) ∷ entries else (key, old) ∷ insert k v entries

  -- `delete(m, k)`
  unfoldable pub erase : String → Dict V → Dict V
  erase k [] = []
  erase k ((key, old) ∷ entries) =
      let rest = erase k entries in if key == k then rest else (key, old) ∷ rest

  unfoldable pub has_key : String → Dict V → Bool
  has_key k [] = false
  has_key k ((key, v) ∷ entries) = if key == k then true else has_key k entries

  pub lookup-insert :
      (k key : String) (v : V) (entries : Dict V)
      → lookup key (insert k v entries) ≡ (if k == key then some v else lookup key entries)
  unfolding lookup insert
  lookup-insert k key v [] = refl
  lookup-insert k key v ((i, old) ∷ entries) =
      ground (arith, eq_iff k key, eq_iff i k, eq_iff i key, lookup-insert k key v entries)

  -- Writing the value that is there changes nothing.
  pub insert-lookup :
      (k : String) (v : V) (entries : Dict V)
      → lookup k entries ≡ some v
      → insert k v entries ≡ entries
  unfolding lookup insert
  insert-lookup k v [] h = cc
  insert-lookup k v ((i, old) ∷ entries) h = elim (Bool-cases (i == k)) [
    | inl e ↦ rw e (cc ((eq_iff i k).0 e, h))
    | inr d ↦ rw d (ap (λ l. (i, old) ∷ l) (insert-lookup k v entries (rw d at h)))
  ]

  pub lookup-erase :
      (k key : String) (entries : Dict V)
      → lookup key (erase k entries) ≡ (if k == key then none else lookup key entries)
  unfolding lookup erase
  lookup-erase k key [] = ground arith
  lookup-erase k key ((i, old) ∷ entries) =
      ground (arith, eq_iff k key, eq_iff i k, eq_iff i key, lookup-erase k key entries)

  pub has_key-insert :
      (k key : String) (v : V) (entries : Dict V)
      → has_key key (insert k v entries) ≡ (if k == key then true else has_key key entries)
  unfolding has_key insert
  has_key-insert k key v [] = refl
  has_key-insert k key v ((i, old) ∷ entries) =
      ground (arith, eq_iff k key, eq_iff i k, eq_iff i key, has_key-insert k key v entries)

  -- A key that is there, by what is read under it.
  pub has_key-lookup : (k : String) (v : V) (m : Dict V) → lookup k m ≡ some v → has_key k m ≡ true
  unfolding lookup has_key
  has_key-lookup k v [] e = cc
  has_key-lookup k v ((i, w) ∷ m) e = ground (arith, has_key-lookup k v m)

  pub lookup-has_key :
      (k : String) (m : Dict V) → has_key k m ≡ true → (v : V) × (lookup k m ≡ some v)
  unfolding lookup has_key
  lookup-has_key k [] e = cc
  lookup-has_key k ((i, w) ∷ m) e = elim (Bool-cases (i == k)) [
    | inl same ↦ (w, rw same)
    | inr other ↦ let (v, f) = lookup-has_key k m (rw other at e) in (v, rw other f)
  ]
