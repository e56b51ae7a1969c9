-- ===== src/RsLayout/Reverse.antt =====
-- The swap loop of `reverse` against the reversal of lists.
use mathlib.Core.List.{reverse as list_reverse, reverse-append, reverse-reverse}
use rancid_syncer.Base.{
  ℕ, zero, suc, ◌+◌, ◌-◌, ◌/◌, ◌<◌, ◌≡◌, refl, sym, ◌∙◌, List, [], ◌∷◌, ◌++◌, Option, inl, inr,
  Option-cases, length, length-append, get_elem?, set, get_elem?-set, get_elem?-lt, length-set,
  get_elem?-append_left, get_elem?-append_length, list_ext, eqb, ltb, if◌then◌else◌, arith, ◌||◌,
}
use native.Mathlib.Decide.{ℕ_discrete}
use rancid_syncer.RsLayout.{reverse, swap, swap_to, swap_loop}

module _ {ℓ} {A : Type ℓ} where
  pub list_reverse-cons : (x : A) (xs : List A) → list_reverse (x ∷ xs) ≡ list_reverse xs ++ x ∷ []
  list_reverse-cons x xs = reverse-append (x ∷ []) xs

  length-list_reverse : (xs : List A) → length (list_reverse xs) ≡ length xs
  length-list_reverse [] = refl
  length-list_reverse (x ∷ xs) =
      rw list_reverse-cons
        (omega (arith, length-append (list_reverse xs) (x ∷ []), length-list_reverse xs))

  get_elem?-list_reverse :
      (xs : List A) (i j : ℕ)
      → i + j + 1 ≡ length xs
      → get_elem? (list_reverse xs) i ≡ get_elem? xs j
  get_elem?-list_reverse [] i j h = absurd (omega arith)
  get_elem?-list_reverse (x ∷ xs) i zero h =
      let e : i ≡ length (list_reverse xs) = omega (arith, length-list_reverse xs) in
      rw list_reverse-cons (rw e (get_elem?-append_length (list_reverse xs) x))
  get_elem?-list_reverse (x ∷ xs) i (suc j) h = rw list_reverse-cons (
      get_elem?-append_left (list_reverse xs) (x ∷ []) i (omega (arith, length-list_reverse xs))
      ∙ get_elem?-list_reverse xs i j (omega arith))

length-swap : (rune : List ℕ) (i j : ℕ) → length (swap rune i j) ≡ length rune
length-swap rune i j = elim (Option-cases (get_elem? rune i)) [
  | inl e ↦ rw (e, swap_to)
  | inr (a, e) ↦ elim (Option-cases (get_elem? rune j)) [
    | inl d ↦ rw (e, d, swap_to)
    | inr (b, d) ↦ rw (e, d, swap_to) (length-set (set rune i b) j a ∙ length-set rune i b)
  ]
]

get_elem?-swap :
    (rune : List ℕ) (i j k : ℕ)
    → i < length rune
    → j < length rune
    → get_elem? (swap rune i j) k ≡ (
        if eqb j k
        then get_elem? rune i
        else if eqb i k
        then get_elem? rune j
        else get_elem? rune k)
get_elem?-swap rune i j k p q =
    let (a, e) = get_elem?-lt rune i p in
    let (b, d) = get_elem?-lt rune j q in
    rw (e, d, swap_to)
      (ground (
        arith,
        length-set rune i b,
        get_elem?-set rune i k b p,
        get_elem?-set (set rune i b) j k a,
      ))

-- The element at `k` once the pairs outside `i` have been swapped.
abbrev swapped : ℕ → ℕ → List ℕ → ℕ → Option ℕ
swapped i n input k =
    if ltb k i || ltb (n - 1 - k) i then get_elem? input (n - 1 - k) else get_elem? input k

abbrev Swapped : ℕ → ℕ → List ℕ → List ℕ → Type 0
Swapped i n input rune = (k : ℕ) → k < n → get_elem? rune k ≡ swapped i n input k

Swapped-swap :
    (i n : ℕ) (input rune : List ℕ)
    → length rune ≡ n
    → i < n / 2
    → Swapped i n input rune
    → Swapped (i + 1) n input (swap rune i (n - 1 - i))
Swapped-swap i n input rune size h s k p =
    let back : n - 1 - (n - 1 - i) ≡ i = omega arith in
    ground (
      arith,
      get_elem?-swap rune i (n - 1 - i) k (omega arith) (omega arith),
      s i (omega arith),
      s (n - 1 - i) (omega arith),
      s k p,
      back,
    )

swap_loop_lem :
    (rounds i n : ℕ) (input rune : List ℕ)
    → length rune ≡ n
    → i + rounds ≡ n / 2
    → Swapped i n input rune
    → (length (swap_loop rounds i n rune) ≡ n) × Swapped (n / 2) n input (swap_loop rounds i n rune)
unfolding swap_loop
swap_loop_lem zero i n input rune size e s =
    let here : i ≡ n / 2 = omega arith in (size, rw here at s)
swap_loop_lem (suc rounds) i n input rune size e s =
    swap_loop_lem rounds (i + 1) n input (swap rune i (n - 1 - i))
      (length-swap rune i (n - 1 - i) ∙ size) (omega arith)
      (Swapped-swap i n input rune size (omega arith) s)

-- With all pairs swapped, the element at `k` is the one that stood at the mirrored place.
swapped_middle :
    (n : ℕ) (input : List ℕ) (k : ℕ)
    → k < n
    → swapped (n / 2) n input k ≡ get_elem? input (n - 1 - k)
swapped_middle n input k p = elim (ℕ_discrete k (n - 1 - k)) [
  | yes same ↦ rw (← same) (ground arith)
  | no other ↦ ground arith
]

-- The swap loop of `reverse` computes the reversal of the list of code points.
pub reverse-eq-list_reverse : (input : List ℕ) → reverse input ≡ list_reverse input
unfolding reverse
reverse-eq-list_reverse input =
    let n = length input in
    let (size, s) =
      swap_loop_lem (n / 2) 0 n input input refl (omega arith) (λ k p. ground arith) in
    list_ext _ _ (size ∙ sym (length-list_reverse input)) λ k p.
      let there : n - 1 - k < n = omega arith in
      s k (omega arith)
      ∙ (swapped_middle n input k (omega arith)
          ∙ sym (get_elem?-list_reverse input k (n - 1 - k) (omega arith)))

pub reverse-reverse_lem : (input : List ℕ) → reverse (reverse input) ≡ input
reverse-reverse_lem input = simp (reverse-eq-list_reverse, reverse-reverse)
