-- ===== src/CheckYaml.antt =====
-- check-yaml/main.go: the tag in parentheses of a reference, rewritten and taken out.
-- A text is the list of its code points, which is what `range` over a Go string yields.
pub mod Laws
use rancid_syncer.Base.{ℕ, List, [], ◌∷◌, ◌++◌, Bool, true, false, ◌||◌, eqb, if◌then◌else◌}

abbrev pub open_paren : ℕ
open_paren = b'('

abbrev pub close_paren : ℕ
close_paren = b')'

-- The loop over `ref`: what it writes from here on, by the flag `replace`.
unfoldable pub encode_loop : List ℕ → Bool → List ℕ → List ℕ
encode_loop tag replace [] = []
encode_loop tag replace (ch ∷ ref) =
    let opened = open_paren ∷ tag ++ close_paren ∷ encode_loop tag true ref in
    let closed = encode_loop tag false ref in
    let skipped = encode_loop tag true ref in
    if eqb ch open_paren
    then opened
    else if eqb ch close_paren
    then closed
    else if replace
    then skipped
    else ch ∷ closed

unfoldable pub encode_tag : List ℕ → List ℕ → List ℕ
unfolding encode_loop
encode_tag ref tag = encode_loop tag false ref

abbrev pub is_paren : ℕ → Bool
is_paren ch = eqb ch open_paren || eqb ch close_paren

-- `strings.NewReplacer("(", "", ")", "")`, applied.
pub decode_tag : List ℕ → List ℕ
decode_tag [] = []
decode_tag (ch ∷ ref) = if is_paren ch then decode_tag ref else ch ∷ decode_tag ref
