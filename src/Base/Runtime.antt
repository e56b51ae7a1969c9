-- ===== src/Base/Runtime.antt =====
-- What the Go language leaves open: the order in which a map is ranged over, and the order of
-- equal elements after `sort.Slice`. Both are parameters.
use mathlib.Core.Path.{◌≡◌}
use mathlib.Core.Bool.{Bool, false}
use mathlib.Core.List.{List, Perm, Pairwise}

pub record Runtime : Type 1 where
  -- `for k, v := range m`, on the entries of the map.
  pub range : {A : Type 0} → List A → List A
  pub sort_slice : {A : Type 0} → (A → A → Bool) → List A → List A

-- What `sort.Slice` needs of `less`: it is transitive, and so is its being false.
pub record IsOrder {A : Type 0} (less : A → A → Bool) : Type 0 where
  pub asymmetric : (a b : A) → less a b ≡ Bool.true → less b a ≡ false
  pub transitive : (a b c : A) → less b a ≡ false → less c b ≡ false → less c a ≡ false

-- The documented behaviour of both.
pub record IsRuntime (go : Runtime) : Type 1 where
  pub range-perm : {A : Type 0} (entries : List A) → Perm (go.range entries) entries
  pub sort_slice-perm :
      {A : Type 0} (less : A → A → Bool) (xs : List A) → Perm (go.sort_slice less xs) xs
  pub sort_slice-sorted :
      {A : Type 0} {less : A → A → Bool}
      → IsOrder less
      → (xs : List A) → Pairwise (λ a b. less b a ≡ false) (go.sort_slice less xs)
