-- ===== src/Api/Memory.antt =====
-- The memory of a Go program: cells by address, of which those below `next` are allocated. A slice
-- is a run of cells, a pointer an address; a nil slice and a nil pointer are `none`.
use rancid_syncer.Base.{ℕ, zero, suc, ◌+◌, Option, none, some, leb, ltb, eqb, ◌&&◌, if◌then◌else◌}

pub record Memory (C : Type 0) : Type 0 where
  pub next : ℕ
  pub cell : ℕ → C

pub record Slice : Type 0 where
  pub start : ℕ
  pub length : ℕ

-- `none` is a fault: a cell that does not hold what the code reads there.
abbrev pub M : Type 0 → Type 0 → Type 0
M C A = Memory C → Option (A × Memory C)

module _ {C A B : Type 0} where
  abbrev pub go_on : Option (A × Memory C) → (A → M C B) → Option (B × Memory C)
  go_on none f = none
  go_on (some (a, m)) f = f a m

  infixl 5 ◌>>=◌ ◌>>◌
  abbrev pub ◌>>=◌ : M C A → (A → M C B) → M C B
  p >>= f = λ m. go_on (p m) f

  abbrev pub ◌>>◌ : M C A → M C B → M C B
  p >> q = p >>= λ _. q

module _ {C : Type 0} where
  abbrev pub pure : {A : Type 0} → A → M C A
  pure a m = some (a, m)

  abbrev pub found : {A : Type 0} → Option A → M C A
  found none m = none
  found (some a) m = some (a, m)

  -- `make` and `new`: `n` cells that were not in use, all with the zero value.
  unfoldable pub alloc : ℕ → C → M C ℕ
  alloc n c m =
      let fresh = λ (a : ℕ). leb m.next a && ltb a (m.next + n) in
      some (m.next, record { next = m.next + n; cell = λ a. if fresh a then c else m.cell a })

  unfoldable pub load : {X : Type 0} → (C → Option X) → ℕ → M C X
  load of_cell p m = found (of_cell (m.cell p)) m

  unfoldable pub store : ℕ → C → M C (Unit {0})
  store p c m = some (tt, record m { cell = λ a. if eqb a p then c else m.cell a })

-- A type that cells hold: how it stands in a cell, and its zero value.
pub record Held (C X : Type 0) : Type 0 where
  pub of_cell : C → Option X
  pub to_cell : X → C
  pub zero_value : X

module _ {C X : Type 0} (h : Held C X) (copy : X → M C X) where
  -- `for i := range *in { (*in)[i].DeepCopyInto(&(*out)[i]) }`, or `copy(*out, *in)`.
  unfoldable pub copy_cells : ℕ → ℕ → ℕ → M C (Unit {0})
  unfolding load store
  copy_cells zero src dst = pure tt
  copy_cells (suc n) src dst = do
    x ← load h.of_cell src
    y ← copy x
    store dst (h.to_cell y)
    copy_cells n (src + 1) (dst + 1)

  -- `if in.Items != nil { *out = make([]T, len(*in)); … }`
  unfoldable pub copy_slice : Option Slice → M C (Option Slice)
  unfolding alloc copy_cells
  copy_slice none = pure none
  copy_slice (some s) = do
    start ← alloc s.length (h.to_cell h.zero_value)
    copy_cells s.length s.start start
    pure (some (record { start = start; length = s.length }))

  -- `if in == nil { return nil }; out := new(T); in.DeepCopyInto(out); return out`
  unfoldable pub copy_pointer : Option ℕ → M C (Option ℕ)
  unfolding alloc load store
  copy_pointer none = pure none
  copy_pointer (some p) = do
    out ← alloc 1 (h.to_cell h.zero_value)
    x ← load h.of_cell p
    y ← copy x
    store out (h.to_cell y)
    pure (some out)
