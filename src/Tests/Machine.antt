-- ===== src/Tests/Machine.antt =====
-- A runtime: maps are ranged over in the order of their list, and `sort.Slice` is an insertion sort.
use mathlib.Core.List.Perm
use mathlib.Core.List.{Perm, Pairwise}
use mathlib.Core.List.{Mem, not-mem-nil, eq-or-mem_of_mem-cons}
use mathlib.Core.Logic.Or
use mathlib.Core.Bool.{Bool-set}
use rancid_syncer.Base.{
  ◌≡◌, sym, subst, List, [], ◌∷◌, Bool, false, Bool-cases, inl, inr, if◌then◌else◌,
}
use rancid_syncer.Base.Runtime.{Runtime, IsOrder, IsRuntime}

unfoldable pub insert_sorted : {A : Type 0} → (A → A → Bool) → A → List A → List A
insert_sorted less x [] = x ∷ []
insert_sorted less x (y ∷ ys) =
    let rest = insert_sorted less x ys in if less y x then y ∷ rest else x ∷ y ∷ ys

unfoldable pub insertion_sort : {A : Type 0} → (A → A → Bool) → List A → List A
unfolding insert_sorted
insertion_sort less [] = []
insertion_sort less (x ∷ xs) = insert_sorted less x (insertion_sort less xs)

abbrev pub machine : Runtime
machine = record { range = λ entries. entries; sort_slice = insertion_sort }

insert_sorted-Perm :
    {A : Type 0} (less : A → A → Bool) (x : A) (ys : List A)
    → Perm (insert_sorted less x ys) (x ∷ ys)
unfolding insert_sorted
insert_sorted-Perm less x [] = Perm.refl _
insert_sorted-Perm less x (y ∷ ys) = elim (Bool-cases (less y x)) [
  | inl e ↦ rw e (Perm.trans (Perm.cons y (insert_sorted-Perm less x ys)) (Perm.swap x y ys))
  | inr e ↦ rw e (Perm.refl _)
]

insertion_sort-Perm :
    {A : Type 0} (less : A → A → Bool) (xs : List A) → Perm (insertion_sort less xs) xs
unfolding insertion_sort
insertion_sort-Perm less [] = Perm.refl []
insertion_sort-Perm less (x ∷ xs) =
    Perm.trans (insert_sorted-Perm less x (insertion_sort less xs))
      (Perm.cons x (insertion_sort-Perm less xs))

module _ {A : Type 0} {less : A → A → Bool} (order : IsOrder less) where
  abbrev IsSorted : List A → Type 0
  IsSorted = Pairwise (λ a b. less b a ≡ false)

  Mem-cons_elim :
      (b x : A) (ys : List A) (goal : A → Bool)
      → goal x ≡ false
      → ((c : A) → Mem c ys → goal c ≡ false)
      → Mem b (x ∷ ys)
      → goal b ≡ false
  Mem-cons_elim b x ys goal h k m =
      Or.elim (Bool-set (goal b) false) (eq-or-mem_of_mem-cons m)
        (λ e. subst (λ c. goal c ≡ false) (sym e) h) (k b)

  insert_sorted-IsSorted : (x : A) (ys : List A) → IsSorted ys → IsSorted (insert_sorted less x ys)
  unfolding insert_sorted
  insert_sorted-IsSorted x [] p = Pairwise.cons (λ b m. absurd (not-mem-nil m)) Pairwise.nil
  insert_sorted-IsSorted x (y ∷ ys) (Pairwise.cons h p) = elim (Bool-cases (less y x)) [
    | inl e ↦ rw e (
        Pairwise.cons
          (λ b m.
            Mem-cons_elim b x ys (λ c. less c y) (order.asymmetric y x e) h
              (Perm.subset (insert_sorted-Perm less x ys) b m))
          (insert_sorted-IsSorted x ys p))
    | inr e ↦ rw e (
        Pairwise.cons
          (λ b m.
            Mem-cons_elim b y ys (λ c. less c x) e (λ c n. order.transitive x y c e (h c n)) m)
          (Pairwise.cons h p))
  ]

  insertion_sort-IsSorted : (xs : List A) → IsSorted (insertion_sort less xs)
  unfolding insertion_sort
  insertion_sort-IsSorted [] = Pairwise.nil
  insertion_sort-IsSorted (x ∷ xs) =
      insert_sorted-IsSorted x (insertion_sort less xs) (insertion_sort-IsSorted xs)

pub machine-IsRuntime : IsRuntime machine
machine-IsRuntime = record {
  range-perm = λ entries. Perm.refl entries;
  sort_slice-perm = insertion_sort-Perm;
  sort_slice-sorted = λ order. insertion_sort-IsSorted order;
}
