-- ===== src/RsLayout.antt =====
-- rslayout/main.go: the name of a resource layout, `group-version-resource`, taken apart.
-- A text is the list of its code points, which is what `range` over a Go string yields; `len` and
-- the slice `rune[0:n]` leave just these, and `SplitN` cuts at a one-byte separator.
pub mod Reverse
pub mod Parse
use rancid_syncer.Base.{
  ℕ, zero, suc, ◌+◌, ◌-◌, ◌/◌, List, [], ◌∷◌, ◌++◌, Option, none, some, length, get_elem?, set, eqb,
  if◌then◌else◌, Bool, true, false, ◌&&◌,
}
use rancid_syncer.Base.Outcome.{Outcome, ok, err, failure}

-- `rune[i], rune[n-1-i] = rune[n-1-i], rune[i]`
abbrev swap_to : List ℕ → ℕ → ℕ → Option ℕ → Option ℕ → List ℕ
swap_to rune i j (some a) (some b) = set (set rune i b) j a
swap_to rune i j _ _ = rune

abbrev swap : List ℕ → ℕ → ℕ → List ℕ
swap rune i j = swap_to rune i j (get_elem? rune i) (get_elem? rune j)

-- `for i := 0; i < n/2; i++`, with the rounds that are left.
unfoldable pub swap_loop : ℕ → ℕ → ℕ → List ℕ → List ℕ
swap_loop zero i n rune = rune
swap_loop (suc rounds) i n rune = swap_loop rounds (i + 1) n (swap rune i (n - 1 - i))

unfoldable pub reverse : List ℕ → List ℕ
unfolding swap_loop
reverse input = let n = length input in swap_loop (n / 2) 0 n input

abbrev pub dash : ℕ
dash = b'-'

-- The text before and after the first separator.
unfoldable pub cut : List ℕ → Option (List ℕ × List ℕ)
cut [] = none
cut (c ∷ s) =
    if eqb c dash
    then some ([], s)
    else elim (cut s) [ none ↦ none | some (a, b) ↦ some (c ∷ a, b) ]

-- `strings.SplitN(s, "-", cuts + 1)`
unfoldable pub split_n : ℕ → List ℕ → List (List ℕ)
unfolding cut
split_n zero s = s ∷ []
split_n (suc cuts) s =
    let more = λ (a b : List ℕ). a ∷ split_n cuts b in
    elim (cut s) [ none ↦ s ∷ [] | some (a, b) ↦ more a b ]

pub record GroupVersionResource : Type 0 where
  pub group : List ℕ
  pub version : List ℕ
  pub resource : List ℕ

-- `"core"`
abbrev pub core : List ℕ
core = b'c' ∷ b'o' ∷ b'r' ∷ b'e' ∷ []

abbrev pub texts_equal : List ℕ → List ℕ → Bool
texts_equal [] [] = true
texts_equal [] (d ∷ t) = false
texts_equal (c ∷ s) [] = false
texts_equal (c ∷ s) (d ∷ t) = eqb c d && texts_equal s t

abbrev pub normal_group : List ℕ → List ℕ
normal_group group = if texts_equal group core then [] else group

abbrev pub invalid_name : Outcome GroupVersionResource
invalid_name = err (failure "not a valid gvr encoded name")

abbrev from_parts : List (List ℕ) → Outcome GroupVersionResource
from_parts (resource ∷ version ∷ group ∷ []) = ok (record {
  group = normal_group (reverse group);
  version = reverse version;
  resource = reverse resource;
})
from_parts _ = invalid_name

unfoldable pub parse_gvr : List ℕ → Outcome GroupVersionResource
unfolding split_n
parse_gvr name = from_parts (split_n 2 (reverse name))
