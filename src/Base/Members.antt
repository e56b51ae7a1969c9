-- ===== src/Base/Members.antt =====
-- The texts in a list: the loop that looks for one, and membership.
use mathlib.Core.Bool.{true, Bool-set}
use mathlib.Core.List.{
  List, [], ◌∷◌, Mem, mem-cons_self, mem-cons_of_mem, not-mem-nil, eq-or-mem_of_mem-cons,
}
use mathlib.Core.Logic.{◌↔◌, inl, inr}
use mathlib.Core.Logic.Or
use mathlib.Core.Path.{◌≡◌, refl, sym, subst}
use Prim.Native.String.{String}
use text.Mathlib.Text.{◌==◌}
use text.Mathlib.TextEquality.{eq_iff}
use native.Mathlib.Omega.{arith}
use rancid_syncer.Base.Tests.{Bool-cases}
use rancid_syncer.Base.Lists.{any}

any_sound : (ks : List String) (name : String) → any (λ k. k == name) ks ≡ true → Mem name ks
any_sound [] name h = cc
any_sound (k ∷ ks) name h = elim (Bool-cases (k == name)) [
  | inl same ↦ subst (λ y. Mem name (y ∷ ks)) (sym ((eq_iff k name).0 same)) mem-cons_self
  | inr other ↦ mem-cons_of_mem k (any_sound ks name (rw other at h))
]

any_complete : (ks : List String) (name : String) → Mem name ks → any (λ k. k == name) ks ≡ true
any_complete [] name h = absurd (not-mem-nil h)
any_complete (k ∷ ks) name h =
    Or.elim (Bool-set (any (λ x. x == name) (k ∷ ks)) true) (eq-or-mem_of_mem-cons h)
      (λ e. rw ((eq_iff k name).1 (sym e)) refl)
      (λ m. let found = any_complete ks name m in ground arith)

-- A loop that looks for a text finds it just if it is in the list.
pub any-iff-Mem :
    (ks : List String) (name : String) → (any (λ k. k == name) ks ≡ true) ↔ Mem name ks
any-iff-Mem ks name = (any_sound ks name, any_complete ks name)
