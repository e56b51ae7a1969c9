-- ===== src/RsLayout/Parse.antt =====
-- `ParseGVR` against the format `group-version-resource`.
use mathlib.Core.List.{reverse as list_reverse, reverse-append, append_assoc}
use rancid_syncer.Base.{
  ℕ, suc, ◌+◌, ◌≤◌, ◌<◌, ◌≡◌, refl, sym, ◌∙◌, ap, subst, List, [], ◌∷◌, ◌++◌, ◌⊎◌, ◌↔◌, none, some,
  inl, inr, Option-cases, eqb, if◌then◌else◌, false, All, All-append, arith,
}
use rancid_syncer.Base.Outcome.{ok}
use rancid_syncer.RsLayout.{
  reverse, dash, cut, split_n, from_parts, GroupVersionResource, normal_group, invalid_name,
  parse_gvr,
}
use rancid_syncer.RsLayout.Reverse.{reverse-eq-list_reverse, list_reverse-cons, reverse-reverse_lem}

-- No code point of the text is a dash.
abbrev pub IsDashless : List ℕ → Type 0
IsDashless = All (λ c. eqb c dash ≡ false)

-- `group-version-resource`
abbrev pub gvr_name : List ℕ → List ℕ → List ℕ → List ℕ
gvr_name group version resource = group ++ (dash ∷ version ++ (dash ∷ resource))

-- How many dashes the text has.
pub dashes : List ℕ → ℕ
dashes [] = 0
dashes (c ∷ s) = if eqb c dash then suc (dashes s) else dashes s

cut_first : (s rest : List ℕ) → IsDashless s → cut (s ++ dash ∷ rest) ≡ some (s, rest)
unfolding cut
cut_first [] rest h = refl
cut_first (c ∷ s) rest (p, h) = ground (arith, cut_first s rest h)

-- A cut is at the first dash.
cut_sound :
    (s a b : List ℕ)
    → cut s ≡ some (a, b)
    → (s ≡ a ++ dash ∷ b) × IsDashless a × (dashes s ≡ suc (dashes b))
unfolding cut dashes
cut_sound [] a b h = cc
cut_sound (c ∷ s) a b h = elim (Option-cases (cut s)) [
  | inl e ↦ ground arith
  | inr ((x, y), e) ↦ ground (arith, cut_sound s x y e)
]

cut-none : (s : List ℕ) → cut s ≡ none → dashes s ≡ 0
unfolding cut dashes
cut-none [] h = refl
cut-none (c ∷ s) h = ground (arith, cut-none s)

dashes-append : (s t : List ℕ) → dashes (s ++ t) ≡ dashes s + dashes t
unfolding dashes
dashes-append [] t = omega arith
dashes-append (c ∷ s) t = ground (arith, dashes-append s t)

IsDashless-reverse : (s : List ℕ) → IsDashless s → IsDashless (list_reverse s)
IsDashless-reverse [] h = tt
IsDashless-reverse (c ∷ s) (p, h) = rw (reverse-append (c ∷ []) s) (
    All-append (λ c. eqb c dash ≡ false) (list_reverse s) (c ∷ []) (IsDashless-reverse s h) (p, tt))

dashes-reverse : (s : List ℕ) → dashes (list_reverse s) ≡ dashes s
unfolding dashes
dashes-reverse [] = refl
dashes-reverse (c ∷ s) =
    rw (reverse-append (c ∷ []) s)
      (ground (arith, dashes-append (list_reverse s) (c ∷ []), dashes-reverse s))

split_twice :
    (a b rest : List ℕ)
    → IsDashless a
    → IsDashless b
    → split_n 2 (a ++ dash ∷ (b ++ dash ∷ rest)) ≡ a ∷ b ∷ rest ∷ []
unfolding split_n
split_twice a b rest h k =
    rw (cut_first a (b ++ dash ∷ rest) h, split_n) (rw (cut_first b rest k, split_n))

-- A text that is cut at its first two dashes.
record IsSplit (s : List ℕ) : Type 0 where
  a : List ℕ
  b : List ℕ
  rest : List ℕ
  whole : s ≡ a ++ dash ∷ (b ++ dash ∷ rest)
  parts : split_n 2 s ≡ a ∷ b ∷ rest ∷ []
  a_dashless : IsDashless a
  b_dashless : IsDashless b
  many : 2 ≤ dashes s

IsSplit-cases :
    (s : List ℕ) → IsSplit s ⊎ (from_parts (split_n 2 s) ≡ invalid_name) × (dashes s < 2)
unfolding split_n
IsSplit-cases s = elim (Option-cases (cut s)) [
  | inl e ↦ inr (rw (e, split_n), omega (arith, cut-none s e))
  | inr ((a, t), e) ↦
      let (se, da, ce) = cut_sound s a t e in
      elim (Option-cases (cut t)) [
        | inl d ↦ inr (rw (e, split_n) (rw (d, split_n)), omega (arith, cut-none t d))
        | inr ((b, rest), d) ↦
            let (te, db, cd) = cut_sound t b rest d in
            inl (record {
              a = a;
              b = b;
              rest = rest;
              whole = cc;
              parts = rw (e, split_n) (rw (d, split_n));
              a_dashless = da;
              b_dashless = db;
              many = omega arith;
            })
      ]
]

reverse-gvr_name :
    (group version resource : List ℕ)
    → reverse (gvr_name group version resource)
      ≡ reverse resource ++ dash ∷ (reverse version ++ dash ∷ reverse group)
reverse-gvr_name group version resource =
    simp (reverse-eq-list_reverse, reverse-append, list_reverse-cons, append_assoc)

-- A version and a resource without dashes are read back from `group-version-resource`, whatever the
-- group is, and so is the group, but for `core`, which is read as the empty group.
pub parse_gvr-gvr_name :
    (group version resource : List ℕ)
    → IsDashless version
    → IsDashless resource
    → parse_gvr (gvr_name group version resource)
      ≡ ok (record { group = normal_group group; version = version; resource = resource })
unfolding parse_gvr
parse_gvr-gvr_name group version resource v r =
    let r' = IsDashless-reverse resource r in
    let v' = IsDashless-reverse version v in
    rw
      (
        reverse-gvr_name group version resource,
        split_twice (reverse resource) (reverse version) (reverse group)
            (rw reverse-eq-list_reverse r') (rw reverse-eq-list_reverse v'),
      )
      (simp reverse-reverse_lem)

-- The name is `group-version-resource` for a version and a resource without dashes, and these are
-- the parts of the result, the group `core` being read as the empty group.
abbrev pub IsParse : List ℕ → GroupVersionResource → Type 0
IsParse name g =
    (group : List ℕ) × (name ≡ gvr_name group g.version g.resource)
    × (g.group ≡ normal_group group)
    × IsDashless g.version
    × IsDashless g.resource

abbrev parts_of : {s : List ℕ} → IsSplit s → GroupVersionResource
parts_of c = record {
  group = normal_group (reverse c.rest);
  version = reverse c.b;
  resource = reverse c.a;
}

parts_of-IsParse : (name : List ℕ) (c : IsSplit (reverse name)) → IsParse name (parts_of c)
parts_of-IsParse name c =
    let back : reverse (gvr_name (reverse c.rest) (reverse c.b) (reverse c.a)) ≡ reverse name =
      reverse-gvr_name (reverse c.rest) (reverse c.b) (reverse c.a)
      ∙ (simp reverse-reverse_lem (sym c.whole)) in
    (
      reverse c.rest,
      sym (reverse-reverse_lem name) ∙ (ap reverse (sym back) ∙ reverse-reverse_lem _),
      refl,
      rw reverse-eq-list_reverse (IsDashless-reverse c.b c.b_dashless),
      rw reverse-eq-list_reverse (IsDashless-reverse c.a c.a_dashless),
    )

-- A result of `ParseGVR` is right: the name is `group-version-resource` for some group, the version
-- and the resource of the result hold no dash, and its group is that group, or the empty group for
-- `core`.
pub parse_gvr_sound :
    (name : List ℕ) (g : GroupVersionResource) → parse_gvr name ≡ ok g → IsParse name g
unfolding parse_gvr
parse_gvr_sound name g h = elim (IsSplit-cases (reverse name)) [
  | inl c ↦
      let e = rw c.parts at h in
      let same : parts_of c ≡ g = cc in subst (IsParse name) same (parts_of-IsParse name c)
  | inr (few, d) ↦ absurd (cc)
]

-- `ParseGVR` gives its error exactly when the name has fewer than two dashes.
parse_gvr_error : (name : List ℕ) → (parse_gvr name ≡ invalid_name) ↔ (dashes name < 2)
unfolding parse_gvr
parse_gvr_error name =
    let same : dashes (reverse name) ≡ dashes name =
      rw reverse-eq-list_reverse (dashes-reverse name) in
    elim (IsSplit-cases (reverse name)) [
      | inl c ↦ (rw c.parts (λ e. cc), λ d. absurd (omega (arith, c.many)))
      | inr (few, d) ↦ (λ _. omega arith, λ _. few)
    ]
