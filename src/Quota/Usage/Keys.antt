-- ===== src/Quota/Usage/Keys.antt =====
-- The keys of the use of one object: the requests and the limits do not mix.
use Prim.Native.String.{String, ◌++◌ as ◌<>◌, slice}
use text.Mathlib.TextPositions.{slice-append_left}
use text.Mathlib.TextLemmas.{append_assoc, append_cancel_left}
use rancid_syncer.Base.{
  ◌≡◌, refl, sym, ◌∙◌, ap, subst, [], ◌∷◌, Option, none, false, ◌==◌, inl, inr, Bool-cases, eq_iff,
  if◌then◌else◌,
}
use rancid_syncer.Base.Dict.{Dict, lookup, insert, has_key, lookup-insert}
use rancid_syncer.Base.Entries.{true_not_false, IsMap, IsMap-range, lookup-none, lookup-range}
use rancid_syncer.Base.Outcome.{ok}
use rancid_syncer.Base.Runtime.{Runtime, IsRuntime}
use rancid_syncer.Quota.Types.{Platform}
use rancid_syncer.Quota.Usage.{put_all, object_usage}

differ : ◌≡◌ {A = String} "r" "l" → ⊥
differ e = true_not_false (sym ((eq_iff "r" "l").1 e))

requests_not_limits : (a b : String) → ("requests." <> a) ≡ ("limits." <> b) → ⊥
requests_not_limits a b e = differ (
    sym (slice-append_left "r" ("equests." <> a))
    ∙ ap (λ x. slice x 0 1) (sym (append_assoc "r" "equests." a) ∙ e ∙ append_assoc "l" "imits." b)
    ∙ slice-append_left "l" ("imits." <> b))

module _ {V : Type 0} where
  -- A key that does not begin with the prefix keeps its value.
  lookup-put_all-other :
      (prefix key : String) (m u : Dict V)
      → ((k : String) → (prefix <> k) ≡ key → ⊥)
      → lookup key (put_all prefix m u) ≡ lookup key u
  unfolding put_all
  lookup-put_all-other prefix key [] u other = refl
  lookup-put_all-other prefix key ((k, v) ∷ m) u other =
      lookup-put_all-other prefix key m (insert (prefix <> k) v u) other
      ∙ lookup-insert (prefix <> k) key v u
      ∙ elim (Bool-cases ((prefix <> k) == key)) [
        | inl same ↦ absurd (other k ((eq_iff (prefix <> k) key).0 same))
        | inr differs ↦ rw differs refl
      ]

  same_prefix :
      (v : V) (prefix k key : String) (u : Dict V)
      → (k == key) ≡ false
      → lookup (prefix <> key) (insert (prefix <> k) v u) ≡ lookup (prefix <> key) u
  same_prefix v prefix k key u other =
      lookup-insert (prefix <> k) (prefix <> key) v u
      ∙ elim (Bool-cases ((prefix <> k) == (prefix <> key))) [
        | inl same ↦
            let e =
              append_cancel_left prefix k key ((eq_iff (prefix <> k) (prefix <> key)).0 same) in
            absurd (true_not_false (sym ((eq_iff k key).1 e) ∙ other))
        | inr differs ↦ rw differs refl
      ]

  lookup-put_all :
      (prefix key : String) (m u : Dict V)
      → IsMap m
      → lookup (prefix <> key) (put_all prefix m u)
        ≡ (if has_key key m then lookup key m else lookup (prefix <> key) u)
  unfolding put_all lookup has_key
  lookup-put_all prefix key [] u h = refl
  lookup-put_all prefix key ((k, v) ∷ m) u (fresh, h) =
      lookup-put_all prefix key m (insert (prefix <> k) v u) h ∙ elim (Bool-cases (k == key)) [
        | inl same ↦
            let e = (eq_iff k key).0 same in
            rw (same, subst (λ x. has_key x m ≡ false) e fresh)
              (lookup-insert (prefix <> k) (prefix <> key) v u
                ∙ rw ((eq_iff (prefix <> k) (prefix <> key)).1 (ap (λ x. prefix <> x) e)) refl)
        | inr other ↦ rw (same_prefix v prefix k key u other, other) refl
      ]

module _ (go : Runtime) (lawful : IsRuntime go) (q : Platform)
    (Quantity-IsSet : IsSet (Option q.Quantity)) where
  written :
      (prefix key : String) (m u : Dict q.Quantity)
      → IsMap m
      → lookup (prefix <> key) u ≡ none
      → lookup (prefix <> key) (put_all prefix (go.range m) u) ≡ lookup key m
  written prefix key m u h absent =
      lookup-put_all prefix key (go.range m) u (IsMap-range Quantity-IsSet go lawful m h)
      ∙ elim (Bool-cases (has_key key (go.range m))) [
        | inl there ↦ rw there (lookup-range Quantity-IsSet go lawful key m h)
        | inr gone ↦ rw gone (
            absent
            ∙ sym (lookup-none key (go.range m) gone)
            ∙ lookup-range Quantity-IsSet go lawful key m h)
      ]

  -- For an object whose requests and limits the calculators give, each as a map with one entry per
  -- key: in the use of the object, the name after `requests.` has the value of the requests, the
  -- name after `limits.` the value of the limits, and a key with neither prefix has none, in
  -- whatever order Go visits the two maps.
  pub object_usage_lem :
      (obj : q.Object) (requests limits : Dict q.Quantity)
      → q.app_resource_requests obj ≡ ok requests
      → q.app_resource_limits obj ≡ ok limits
      → IsMap requests
      → IsMap limits
      → (usage : Dict q.Quantity) × (object_usage go q obj ≡ ok usage)
        × ((k : String) → lookup ("requests." <> k) usage ≡ lookup k requests)
        × ((k : String) → lookup ("limits." <> k) usage ≡ lookup k limits)
        × ((key : String)
            → ((k : String) → ("requests." <> k) ≡ key → ⊥)
            → ((k : String) → ("limits." <> k) ≡ key → ⊥)
            → lookup key usage ≡ none)
  unfolding object_usage lookup
  object_usage_lem obj requests limits e f h g =
      let first = put_all "requests." (go.range requests) [] in
      (
        put_all "limits." (go.range limits) first,
        rw (e, f) refl,
        (λ k.
            lookup-put_all-other "limits." ("requests." <> k) (go.range limits) first
              (λ l clash. requests_not_limits k l (sym clash))
            ∙ written "requests." k requests [] h refl),
        (λ k. written "limits." k limits first g (
            lookup-put_all-other "requests." ("limits." <> k) (go.range requests) []
              (λ l clash. requests_not_limits l k clash))),
        λ key r l.
            lookup-put_all-other "limits." key (go.range limits) first l
            ∙ lookup-put_all-other "requests." key (go.range requests) [] r,
      )
