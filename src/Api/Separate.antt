-- ===== src/Api/Separate.antt =====
-- What it is to be a deep copy: the same content, in memory that was not in use.
pub mod Cells
pub mod Loops
pub mod Chains
use rancid_syncer.Base.{
  ℕ, zero, suc, ◌+◌, ◌≤◌, ◌<◌, ◌≡◌, refl, sym, ap, ◌∙◌, ◌⊎◌, inl, inr, List, [], ◌∷◌, Option, none,
  some, arith, leb, ltb, eqb, ◌&&◌, if◌then◌else◌, subst, true, false,
}
use rancid_syncer.Api.Memory.{
  Memory, Slice, M, go_on, ◌>>=◌, pure, alloc, load, store, Held, copy_cells, copy_slice,
  copy_pointer,
}

-- How the memory behind a value is read: what the value says, and which cells it says it with.
pub record Reading (C X : Type 0) : Type 1 where
  pub Content : Type 0
  pub Within : ℕ → ℕ → X → Memory C → Type 0
  pub read : X → Memory C → Content

module _ {C : Type 0} where
  abbrev pub SameIn : ℕ → ℕ → Memory C → Memory C → Type 0
  SameIn lo hi m m' = (a : ℕ) → lo ≤ a → a < hi → m'.cell a ≡ m.cell a

  -- `Within lo hi x m`: all the memory behind `x` lies in the cells from `lo` to `hi`.
  pub record IsReading {X : Type 0} (r : Reading C X) : Type 0 where
    pub widen :
        (lo hi lo' hi' : ℕ) (x : X) (m : Memory C)
        → lo' ≤ lo
        → hi ≤ hi'
        → r.Within lo hi x m
        → r.Within lo' hi' x m
    pub frame :
        (lo hi : ℕ) (x : X) (m m' : Memory C)
        → SameIn lo hi m m'
        → r.Within lo hi x m
        → r.Within lo hi x m'
    pub frame_read :
        (lo hi : ℕ) (x : X) (m m' : Memory C)
        → SameIn lo hi m m'
        → r.Within lo hi x m
        → r.read x m' ≡ r.read x m

  -- A call that returns a value with the content of `x` and with memory of its own, and that leaves
  -- what was in use as it was.
  abbrev pub Copied : {X : Type 0} → Reading C X → X → Memory C → Option (X × Memory C) → Type 0
  Copied {X} r x m result =
      (y : X) × (m' : Memory C) × (result ≡ some (y, m'))
      × (m.next ≤ m'.next)
      × SameIn 0 m.next m m'
      × r.Within m.next m'.next y m'
      × (r.read y m' ≡ r.read x m)

  abbrev pub IsCopy : {X : Type 0} → Reading C X → (X → M C X) → Type 0
  IsCopy {X} r copy = (x : X) (m : Memory C) → r.Within 0 m.next x m → Copied r x m (copy x m)

  -- A value with no memory behind it.
  abbrev pub plain : {X : Type 0} → Reading C X
  plain {X} = record { Content = X; Within = λ lo hi x m. Unit; read = λ x m. x }

  module _ {X : Type 0} (h : Held C X) (r : Reading C X) where
    abbrev pub HeldIn : ℕ → ℕ → Option X → Memory C → Type 0
    HeldIn lo hi none m = ⊥
    HeldIn lo hi (some x) m = r.Within lo hi x m

    abbrev pub CellIn : ℕ → ℕ → ℕ → Memory C → Type 0
    CellIn lo hi p m = (lo ≤ p) × (p < hi) × HeldIn lo hi (h.of_cell (m.cell p)) m

    abbrev pub CellsIn : ℕ → ℕ → ℕ → ℕ → Memory C → Type 0
    CellsIn lo hi zero p m = Unit
    CellsIn lo hi (suc n) p m = CellIn lo hi p m × CellsIn lo hi n (p + 1) m

    abbrev pub read_held : Option X → Memory C → Option r.Content
    read_held none m = none
    read_held (some x) m = some (r.read x m)

    abbrev pub read_cells : ℕ → ℕ → Memory C → List (Option r.Content)
    read_cells zero p m = []
    read_cells (suc n) p m = read_held (h.of_cell (m.cell p)) m ∷ read_cells n (p + 1) m

    abbrev pub SliceIn : ℕ → ℕ → Option Slice → Memory C → Type 0
    SliceIn lo hi none m = Unit
    SliceIn lo hi (some s) m = CellsIn lo hi s.length s.start m

    abbrev pub read_slice : Option Slice → Memory C → Option (List (Option r.Content))
    read_slice none m = none
    read_slice (some s) m = some (read_cells s.length s.start m)

    abbrev pub slice_of : Reading C (Option Slice)
    slice_of = record {
      Content = Option (List (Option r.Content));
      Within = SliceIn;
      read = read_slice;
    }

    abbrev pub PointsIn : ℕ → ℕ → Option ℕ → Memory C → Type 0
    PointsIn lo hi none m = Unit
    PointsIn lo hi (some p) m = CellIn lo hi p m

    abbrev pub read_pointer : Option ℕ → Memory C → Option (Option r.Content)
    read_pointer none m = none
    read_pointer (some p) m = some (read_held (h.of_cell (m.cell p)) m)

    abbrev pub pointer_to : Reading C (Option ℕ)
    pointer_to = record {
      Content = Option (Option r.Content);
      Within = PointsIn;
      read = read_pointer;
    }
