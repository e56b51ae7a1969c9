-- ===== src/OpfPatch/Run.antt =====
-- opf-patch/main.go: the program, which prints the patch and the patched values.
use rancid_syncer.Base.{String, ◌≡◌, refl, sym, ◌∙◌, subst, List, [], ◌∷◌, ◌++◌, ◌⊎◌, inl, inr}
use mathlib.Core.List.{append_assoc}
use rancid_syncer.Base.Outcome.{Outcome, ok, err, panic, >>=-eq-ok}
use rancid_syncer.Commands.Console.{
  Finish, finished, World, Program, lift, println, run_main, fatal, go_on, ◌>>=◌, ◌>>◌,
}
use rancid_syncer.OpfPatch.{
  Json, no_values, patch_values, create_json_patch, get_opscenter_features_patch_values,
  patched_base, converted, base,
}

module _ (json : Json) where
  unfoldable pub apply_patch : {S : Type 0} → String → Program S (Unit {0})
  apply_patch bytes = do values ← lift (patched_base json bytes); println values

  unfoldable pub print_patch : {S : Type 0} → Program S (Unit {0})
  unfolding apply_patch
  print_patch = do
    patch ← lift (get_opscenter_features_patch_values json)
    println patch
    println "-----------------------"
    apply_patch patch

  unfoldable pub opf_patch_main : {S : Type 0} → Program S (Unit {0})
  unfolding print_patch
  opf_patch_main = run_main print_patch

abbrev pub dashes : String
dashes = "-----------------------"

module _ (json : Json) where
  -- The text is that of the patch which `CreatePatch` makes from the document of the values without
  -- repositories to that of the new ones.
  abbrev pub IsPatchText : String → Type 0
  IsPatchText bytes =
      (a : String) × (b : String) × (ops : json.Operations) × (json.marshal no_values ≡ ok a)
      × (json.marshal patch_values ≡ ok b)
      × (json.create_patch a b ≡ ok ops)
      × (json.marshal_indent ops ≡ ok bytes)

  -- The text is the default values, as JSON, with the patch that is read from `bytes` applied.
  abbrev pub IsPatchedBase : String → String → Type 0
  IsPatchedBase bytes values =
      (patch : json.Patch) × (doc : String) × (json.decode_patch bytes ≡ ok patch)
      × (json.yaml_to_json base ≡ ok doc)
      × (json.apply patch doc ≡ ok values)

  abbrev pub IsPanic : Finish (Unit {0}) → Type 0
  IsPanic r = (m : String) × (r ≡ finished (panic m))

  -- How the program ends, with the lines printed before and after.
  abbrev pub PrintsPatched : Finish (Unit {0}) → List String → List String → Type 0
  PrintsPatched r before after =
      ((bytes : String) × (values : String) × IsPatchText bytes
        × IsPatchedBase bytes values
        × (r ≡ finished (ok tt))
        × (after ≡ before ++ bytes ∷ dashes ∷ values ∷ []))
      ⊎ (((bytes : String) × IsPatchText bytes
            × ((values : String) → ¬ IsPatchedBase bytes values)
            × IsPanic r
            × (after ≡ before ++ bytes ∷ dashes ∷ []))
          ⊎ (((bytes : String) → ¬ IsPatchText bytes) × IsPanic r × (after ≡ before)))

  IsPatchText-eq :
      (bytes : String) → IsPatchText bytes → get_opscenter_features_patch_values json ≡ ok bytes
  unfolding get_opscenter_features_patch_values create_json_patch
  IsPatchText-eq bytes (a, b, ops, m, n, o, t) = rw (m, n, o) t

  eq-IsPatchText :
      (bytes : String) → get_opscenter_features_patch_values json ≡ ok bytes → IsPatchText bytes
  unfolding get_opscenter_features_patch_values create_json_patch
  eq-IsPatchText bytes h =
      let (a, m, f) = >>=-eq-ok (json.marshal no_values) _ h in
      let (b, n, g) = >>=-eq-ok (json.marshal patch_values) _ f in
      let (ops, o, t) = >>=-eq-ok (json.create_patch a b) _ g in (a, b, ops, m, n, o, t)

  IsPatchedBase-eq :
      (bytes values : String) → IsPatchedBase bytes values → patched_base json bytes ≡ ok values
  unfolding patched_base
  IsPatchedBase-eq bytes values (patch, doc, d, y, a) = rw (d, y) a

  converted-eq-ok : (r : Outcome String) (doc : String) → converted json r ≡ ok doc → r ≡ ok doc
  converted-eq-ok (ok bytes) doc h = h
  converted-eq-ok (err e) doc h = cc
  converted-eq-ok (panic m) doc h = cc

  eq-IsPatchedBase :
      (bytes values : String) → patched_base json bytes ≡ ok values → IsPatchedBase bytes values
  unfolding patched_base
  eq-IsPatchedBase bytes values h =
      let (patch, d, f) = >>=-eq-ok (json.decode_patch bytes) _ h in
      let (doc, y, a) = >>=-eq-ok (converted json (json.yaml_to_json base)) _ f in
      (patch, doc, d, converted-eq-ok (json.yaml_to_json base) doc y, a)

  -- What is done when the values with the patch are there, or not.
  abbrev patched : {S : Type 0} → Outcome String → World S → Finish (Unit {0}) × World S
  patched {S} r w = let p = go_on {S = S} (finished r) println w in (fatal p.0, p.1)

  opf_patch_main-run :
      {S : Type 0} (bytes : String) (w : World S)
      → get_opscenter_features_patch_values json ≡ ok bytes
      → opf_patch_main json w
        ≡ patched
            (patched_base json bytes)
            (record w { printed = w.printed ++ bytes ∷ dashes ∷ [] })
  unfolding opf_patch_main
  opf_patch_main-run bytes w e = rw (e, append_assoc w.printed (bytes ∷ []) (dashes ∷ [])) refl

  -- The cluster is as it was, and the program ended so.
  abbrev pub Ended : {S : Type 0} → World S → Finish (Unit {0}) × World S → Type 0
  Ended w p = (p.1.cluster ≡ w.cluster) × PrintsPatched p.0 w.printed p.1.printed

  no_base :
      (bytes values : String)
      → (r : Outcome String) → patched_base json bytes ≡ r
      → ¬ (r ≡ ok values)
      → ¬ IsPatchedBase bytes values
  no_base bytes values r e n b = absurd (n (sym e ∙ IsPatchedBase-eq bytes values b))

  patched-Ended :
      {S : Type 0} (bytes : String) (w : World S) (r : Outcome String)
      → IsPatchText bytes
      → patched_base json bytes ≡ r
      → Ended w (patched r (record w { printed = w.printed ++ bytes ∷ dashes ∷ [] }))
  patched-Ended bytes w (ok values) t e = (
    refl,
    inl (
      bytes,
      values,
      t,
      eq-IsPatchedBase bytes values e,
      refl,
      append_assoc w.printed (bytes ∷ dashes ∷ []) (values ∷ []),
    ),
  )
  patched-Ended bytes w (err p) t e =
      (refl, inr (inl (bytes, t, λ v. no_base bytes v (err p) e (λ h. cc), ("main", refl), refl)))
  patched-Ended bytes w (panic m) t e =
      (refl, inr (inl (bytes, t, λ v. no_base bytes v (panic m) e (λ h. cc), (m, refl), refl)))

  opf_patch_main-Ended :
      {S : Type 0} (w : World S) (r : Outcome String)
      → get_opscenter_features_patch_values json ≡ r
      → Ended w (opf_patch_main json w)
  unfolding opf_patch_main
  opf_patch_main-Ended w (ok bytes) e =
      subst (Ended w) (sym (opf_patch_main-run bytes w e))
        (patched-Ended bytes w (patched_base json bytes) (eq-IsPatchText bytes e) refl)
  opf_patch_main-Ended w (err p) e =
      let no_text : (bytes : String) → ¬ IsPatchText bytes =
        λ bytes t. let f = sym e ∙ IsPatchText-eq bytes t in cc in
      rw e (refl, inr (inr (no_text, ("main", refl), refl)))
  opf_patch_main-Ended w (panic m) e =
      let no_text : (bytes : String) → ¬ IsPatchText bytes =
        λ bytes t. let f = sym e ∙ IsPatchText-eq bytes t in cc in
      rw e (refl, inr (inr (no_text, (m, refl), refl)))

  -- The program changes nothing but what is printed, and ends in one of three ways. It prints the
  -- patch from the values without repositories to the new ones, a line of dashes, and the default
  -- values with this patch, read back from its text, applied to them, and ends normally. Or, if one of
  -- the calls that give the last text fails, it prints the first two and panics. Or, if one of the
  -- calls that give the patch fails, it prints nothing and panics.
  pub opf_patch_main-PrintsPatched :
      {S : Type 0} (w : World S)
      → ((opf_patch_main json w).1.cluster ≡ w.cluster)
        × PrintsPatched (opf_patch_main json w).0 w.printed (opf_patch_main json w).1.printed
  opf_patch_main-PrintsPatched w =
      opf_patch_main-Ended w (get_opscenter_features_patch_values json) refl
