-- ===== src/CheckYaml/Laws.antt =====
-- Rewriting a tag twice, and what decoding gives back.
use rancid_syncer.Base.{ℕ, ◌≡◌, refl, ◌∙◌, ap, List, [], ◌∷◌, ◌++◌, Bool, true, false, arith, All}
use rancid_syncer.CheckYaml.{open_paren, close_paren, is_paren, encode_loop, encode_tag, decode_tag}

-- No code point of the text is a parenthesis.
abbrev pub IsPlain : List ℕ → Type 0
IsPlain = All (λ ch. is_paren ch ≡ false)

decode_tag_plain : (s : List ℕ) → IsPlain s → decode_tag s ≡ s
unfolding decode_tag
decode_tag_plain [] h = refl
decode_tag_plain (ch ∷ s) (p, h) = ground (arith, decode_tag_plain s h)

decode_tag-IsPlain : (s : List ℕ) → IsPlain (decode_tag s)
unfolding decode_tag
decode_tag-IsPlain [] = tt
decode_tag-IsPlain (ch ∷ s) = ground (arith, decode_tag-IsPlain s)

-- A plain text is skipped while the flag is set, and copied while it is not.
encode_loop_skip :
    (tag s rest : List ℕ) → IsPlain s → encode_loop tag true (s ++ rest) ≡ encode_loop tag true rest
unfolding encode_loop
encode_loop_skip tag [] rest h = refl
encode_loop_skip tag (ch ∷ s) rest (p, h) = ground (arith, encode_loop_skip tag s rest h)

encode_loop_copy :
    (tag s rest : List ℕ)
    → IsPlain s
    → encode_loop tag false (s ++ rest) ≡ s ++ encode_loop tag false rest
unfolding encode_loop
encode_loop_copy tag [] rest h = refl
encode_loop_copy tag (ch ∷ s) rest (p, h) = ground (arith, encode_loop_copy tag s rest h)

-- What stands between parentheses is replaced, and all else is kept.
encode_loop_parens :
    (tag body rest : List ℕ)
    → IsPlain body
    → encode_loop tag false (open_paren ∷ body ++ close_paren ∷ rest)
      ≡ open_paren ∷ tag ++ close_paren ∷ encode_loop tag false rest
unfolding encode_loop
encode_loop_parens tag body rest h =
    ap (λ x. open_paren ∷ tag ++ close_paren ∷ x) (encode_loop_skip tag body (close_paren ∷ rest) h)

encode_loop_again :
    (old new : List ℕ) (replace : Bool) (ref : List ℕ)
    → IsPlain old
    → encode_loop new false (encode_loop old replace ref) ≡ encode_loop new replace ref
unfolding encode_loop
encode_loop_again old new replace [] h = refl
encode_loop_again old new replace (ch ∷ ref) h = ground (
  arith,
  encode_loop_parens new old (encode_loop old true ref) h,
  encode_loop_again old new true ref h,
  encode_loop_again old new false ref h,
)

-- For every text `ref` and every tag `old` without parentheses: writing `old` and then `new` into
-- `ref` gives what writing `new` alone gives.
encode_tag_twice :
    (ref old new : List ℕ) → IsPlain old → encode_tag (encode_tag ref old) new ≡ encode_tag ref new
unfolding encode_tag
encode_tag_twice ref old new h = encode_loop_again old new false ref h

encode_loop_all : (tag s : List ℕ) → IsPlain s → encode_loop tag false s ≡ s
unfolding encode_loop
encode_loop_all tag [] h = refl
encode_loop_all tag (ch ∷ s) (p, h) = ground (arith, encode_loop_all tag s h)

decode_tag-append : (s t : List ℕ) → decode_tag (s ++ t) ≡ decode_tag s ++ decode_tag t
unfolding decode_tag
decode_tag-append [] t = refl
decode_tag-append (ch ∷ s) t = ground (arith, decode_tag-append s t)

decode_tag_parens :
    (tag after : List ℕ)
    → IsPlain tag
    → IsPlain after
    → decode_tag (open_paren ∷ tag ++ close_paren ∷ after) ≡ tag ++ after
unfolding decode_tag
decode_tag_parens tag after t r =
    decode_tag-append tag (close_paren ∷ after)
    ∙ cc (decode_tag_plain tag t, decode_tag_plain after r)

-- For texts `before`, `body`, `after` and `tag` without parentheses, encoding `before(body)after`
-- gives `before(tag)after`, and decoding that gives `before`, `tag` and `after` in a row.
pub decode_tag-encode_tag :
    (before body after tag : List ℕ)
    → IsPlain before
    → IsPlain body
    → IsPlain after
    → IsPlain tag
    → (encode_tag (before ++ (open_paren ∷ body ++ close_paren ∷ after)) tag
        ≡ before ++ (open_paren ∷ tag ++ close_paren ∷ after))
      × (decode_tag (encode_tag (before ++ (open_paren ∷ body ++ close_paren ∷ after)) tag)
          ≡ before ++ (tag ++ after))
unfolding encode_tag
decode_tag-encode_tag before body after tag p q r t =
    let e : encode_tag (before ++ (open_paren ∷ body ++ close_paren ∷ after)) tag
        ≡ before ++ (open_paren ∷ tag ++ close_paren ∷ after) =
      encode_loop_copy tag before (open_paren ∷ body ++ close_paren ∷ after) p
      ∙ ap (λ x. before ++ x)
          (encode_loop_parens tag body after q
            ∙ ap (λ x. open_paren ∷ tag ++ close_paren ∷ x) (encode_loop_all tag after r)) in
    (
      e,
      rw e (
          decode_tag-append before _
          ∙ cc (decode_tag_plain before p, decode_tag_parens tag after t r)),
    )
