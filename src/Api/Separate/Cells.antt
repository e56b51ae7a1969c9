-- ===== src/Api/Separate/Cells.antt =====
-- Cells, slices and pointers are read from their own memory only.
use rancid_syncer.Base.{
  ℕ, zero, suc, ◌+◌, ◌≤◌, ◌<◌, ◌≡◌, refl, sym, ap, ◌∙◌, ◌∷◌, Option, none, some, arith, subst,
}
use rancid_syncer.Api.Memory.{Memory, Slice, Held}
use rancid_syncer.Api.Separate.{
  Reading, IsReading, SameIn, HeldIn, CellIn, CellsIn, read_held, read_cells, SliceIn, read_slice,
  slice_of, PointsIn, read_pointer, pointer_to, plain,
}

module _ {C : Type 0} where
  pub plain-IsReading : {X : Type 0} → IsReading {C = C} (plain {X = X})
  plain-IsReading = record {
    widen = λ lo hi lo' hi' x m p q w. tt;
    frame = λ lo hi x m m' same w. tt;
    frame_read = λ lo hi x m m' same w. refl;
  }

  module _ {X : Type 0} (h : Held C X) (r : Reading C X) (law : IsReading r) where
    pub HeldIn-widen :
        (lo hi lo' hi' : ℕ) (o : Option X) (m : Memory C)
        → lo' ≤ lo
        → hi ≤ hi'
        → HeldIn h r lo hi o m
        → HeldIn h r lo' hi' o m
    HeldIn-widen lo hi lo' hi' none m p q w = w
    HeldIn-widen lo hi lo' hi' (some x) m p q w = law.widen lo hi lo' hi' x m p q w

    HeldIn-frame :
        (lo hi : ℕ) (o : Option X) (m m' : Memory C)
        → SameIn lo hi m m'
        → HeldIn h r lo hi o m
        → HeldIn h r lo hi o m'
    HeldIn-frame lo hi none m m' same w = w
    HeldIn-frame lo hi (some x) m m' same w = law.frame lo hi x m m' same w

    read_held-frame :
        (lo hi : ℕ) (o : Option X) (m m' : Memory C)
        → SameIn lo hi m m'
        → HeldIn h r lo hi o m
        → read_held h r o m' ≡ read_held h r o m
    read_held-frame lo hi none m m' same w = refl
    read_held-frame lo hi (some x) m m' same w = ap some (law.frame_read lo hi x m m' same w)

    pub CellIn-widen :
        (lo hi lo' hi' p : ℕ) (m : Memory C)
        → lo' ≤ lo
        → hi ≤ hi'
        → CellIn h r lo hi p m
        → CellIn h r lo' hi' p m
    CellIn-widen lo hi lo' hi' p m a b (c, d, w) =
        (omega arith, omega arith, HeldIn-widen lo hi lo' hi' (h.of_cell (m.cell p)) m a b w)

    -- The cell keeps its value, and the memory behind it is in an interval of its own.
    pub CellIn-same :
        (lo hi lo' hi' p : ℕ) (m m' : Memory C)
        → lo' ≤ p
        → p < hi'
        → lo' ≤ lo
        → hi ≤ hi'
        → m'.cell p ≡ m.cell p
        → SameIn lo hi m m'
        → HeldIn h r lo hi (h.of_cell (m.cell p)) m
        → CellIn h r lo' hi' p m'
    CellIn-same lo hi lo' hi' p m m' a b c d e same w = (
      a,
      b,
      subst (λ x. HeldIn h r lo' hi' (h.of_cell x) m') (sym e)
          (HeldIn-widen lo hi lo' hi' (h.of_cell (m.cell p)) m' c d
            (HeldIn-frame lo hi (h.of_cell (m.cell p)) m m' same w)),
    )

    pub read_held-same :
        (lo hi p : ℕ) (m m' : Memory C)
        → m'.cell p ≡ m.cell p
        → SameIn lo hi m m'
        → HeldIn h r lo hi (h.of_cell (m.cell p)) m
        → read_held h r (h.of_cell (m'.cell p)) m' ≡ read_held h r (h.of_cell (m.cell p)) m
    read_held-same lo hi p m m' e same w =
        ap (λ x. read_held h r (h.of_cell x) m') e
        ∙ read_held-frame lo hi (h.of_cell (m.cell p)) m m' same w

    pub CellsIn-widen :
        (lo hi lo' hi' n p : ℕ) (m : Memory C)
        → lo' ≤ lo
        → hi ≤ hi'
        → CellsIn h r lo hi n p m
        → CellsIn h r lo' hi' n p m
    CellsIn-widen lo hi lo' hi' zero p m a b w = tt
    CellsIn-widen lo hi lo' hi' (suc n) p m a b (w, ws) =
        (CellIn-widen lo hi lo' hi' p m a b w, CellsIn-widen lo hi lo' hi' n (p + 1) m a b ws)

    pub CellsIn-frame :
        (lo hi n p : ℕ) (m m' : Memory C)
        → SameIn lo hi m m'
        → CellsIn h r lo hi n p m
        → CellsIn h r lo hi n p m'
    CellsIn-frame lo hi zero p m m' same w = tt
    CellsIn-frame lo hi (suc n) p m m' same ((a, b, w), ws) = (
      CellIn-same lo hi lo hi p m m' a b (omega arith) (omega arith) (same p a b) same w,
      CellsIn-frame lo hi n (p + 1) m m' same ws,
    )

    pub read_cells-frame :
        (lo hi n p : ℕ) (m m' : Memory C)
        → SameIn lo hi m m'
        → CellsIn h r lo hi n p m
        → read_cells h r n p m' ≡ read_cells h r n p m
    read_cells-frame lo hi zero p m m' same w = refl
    read_cells-frame lo hi (suc n) p m m' same ((a, b, w), ws) =
        let e = read_held-same lo hi p m m' (same p a b) same w in
        let es = read_cells-frame lo hi n (p + 1) m m' same ws in
        ap (λ x. x ∷ read_cells h r n (p + 1) m') e
        ∙ ap (λ x. read_held h r (h.of_cell (m.cell p)) m ∷ x) es

    slice-widen :
        (lo hi lo' hi' : ℕ) (s : Option Slice) (m : Memory C)
        → lo' ≤ lo
        → hi ≤ hi'
        → SliceIn h r lo hi s m
        → SliceIn h r lo' hi' s m
    slice-widen lo hi lo' hi' none m a b w = tt
    slice-widen lo hi lo' hi' (some s) m a b w =
        CellsIn-widen lo hi lo' hi' s.length s.start m a b w

    slice-frame :
        (lo hi : ℕ) (s : Option Slice) (m m' : Memory C)
        → SameIn lo hi m m'
        → SliceIn h r lo hi s m
        → SliceIn h r lo hi s m'
    slice-frame lo hi none m m' same w = tt
    slice-frame lo hi (some s) m m' same w = CellsIn-frame lo hi s.length s.start m m' same w

    slice-frame_read :
        (lo hi : ℕ) (s : Option Slice) (m m' : Memory C)
        → SameIn lo hi m m'
        → SliceIn h r lo hi s m
        → read_slice h r s m' ≡ read_slice h r s m
    slice-frame_read lo hi none m m' same w = refl
    slice-frame_read lo hi (some s) m m' same w =
        ap some (read_cells-frame lo hi s.length s.start m m' same w)

    pub slice_of-IsReading : IsReading (slice_of h r)
    slice_of-IsReading = record {
      widen = slice-widen;
      frame = slice-frame;
      frame_read = slice-frame_read;
    }

    pointer-widen :
        (lo hi lo' hi' : ℕ) (p : Option ℕ) (m : Memory C)
        → lo' ≤ lo
        → hi ≤ hi'
        → PointsIn h r lo hi p m
        → PointsIn h r lo' hi' p m
    pointer-widen lo hi lo' hi' none m a b w = tt
    pointer-widen lo hi lo' hi' (some p) m a b w = CellIn-widen lo hi lo' hi' p m a b w

    pointer-frame :
        (lo hi : ℕ) (p : Option ℕ) (m m' : Memory C)
        → SameIn lo hi m m'
        → PointsIn h r lo hi p m
        → PointsIn h r lo hi p m'
    pointer-frame lo hi none m m' same w = tt
    pointer-frame lo hi (some p) m m' same (a, b, w) =
        CellIn-same lo hi lo hi p m m' a b (omega arith) (omega arith) (same p a b) same w

    pointer-frame_read :
        (lo hi : ℕ) (p : Option ℕ) (m m' : Memory C)
        → SameIn lo hi m m'
        → PointsIn h r lo hi p m
        → read_pointer h r p m' ≡ read_pointer h r p m
    pointer-frame_read lo hi none m m' same w = refl
    pointer-frame_read lo hi (some p) m m' same (a, b, w) =
        ap some (read_held-same lo hi p m m' (same p a b) same w)

    pub pointer_to-IsReading : IsReading (pointer_to h r)
    pointer_to-IsReading = record {
      widen = pointer-widen;
      frame = pointer-frame;
      frame_read = pointer-frame_read;
    }
