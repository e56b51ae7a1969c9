-- ===== src/Api/Separate/Loops.antt =====
-- The loops and the allocations of a deep copy, given that each element is copied deeply.
use rancid_syncer.Base.{
  ℕ, zero, suc, ◌+◌, ◌≤◌, ◌<◌, ◌≡◌, refl, sym, ap, ◌∙◌, ◌∷◌, Option, none, some, arith, subst, leb,
  ltb, eqb, ◌&&◌, if◌then◌else◌, eqb_iff,
}
use rancid_syncer.Api.Memory.{
  Memory, Slice, M, go_on, pure, alloc, load, store, Held, copy_cells, copy_slice, copy_pointer,
}
use rancid_syncer.Api.Separate.{
  Reading, IsReading, SameIn, IsCopy, HeldIn, CellsIn, read_held, read_cells, slice_of, pointer_to,
  plain,
}
use rancid_syncer.Api.Separate.Cells.{
  HeldIn-widen, CellIn-same, read_held-same, CellsIn-frame, read_cells-frame,
}

module _ {C : Type 0} where
  pub plain-IsCopy : {X : Type 0} → IsCopy {C = C} (plain {X = X}) pure
  plain-IsCopy x m w = (x, m, refl, omega arith, (λ a p q. refl), tt, refl)

  -- The memory after a write.
  abbrev pub written : Memory C → ℕ → C → Memory C
  written m p c = record m { cell = λ a. if eqb a p then c else m.cell a }

  -- The memory after an allocation.
  abbrev pub allocated : Memory C → ℕ → C → Memory C
  allocated m n c = record {
    next = m.next + n;
    cell = λ a. if leb m.next a && ltb a (m.next + n) then c else m.cell a;
  }

  allocated_below : (m : Memory C) (n : ℕ) (c : C) → SameIn 0 m.next m (allocated m n c)
  allocated_below m n c a p q = ground arith

  written_there : (m : Memory C) (p : ℕ) (c : C) → (written m p c).cell p ≡ c
  written_there m p c = rw ((eqb_iff p p).1 refl) refl

  pub written_below : (m : Memory C) (lo hi p : ℕ) (c : C) → hi ≤ p → SameIn lo hi m (written m p c)
  written_below m lo hi p c h a x y = ground arith

  pub written_above : (m : Memory C) (lo hi p : ℕ) (c : C) → p < lo → SameIn lo hi m (written m p c)
  written_above m lo hi p c h a x y = ground arith

  module _ {X : Type 0} (h : Held C X) (held : (x : X) → h.of_cell (h.to_cell x) ≡ some x)
      (r : Reading C X) (law : IsReading r) (copy : X → M C X) (copies : IsCopy r copy) where
    loaded :
        (lo hi : ℕ) (o : Option X) (m : Memory C)
        → HeldIn h r lo hi o m
        → (x : X) × (o ≡ some x) × r.Within lo hi x m
    loaded lo hi none m w = absurd w
    loaded lo hi (some x) m w = (x, refl, w)

    -- What is copied deeply out of a cell and written into another one.
    placed :
        (m m1 : Memory C) (x y : X) (src dst : ℕ)
        → dst < m.next
        → h.of_cell (m.cell src) ≡ some x
        → r.Within m.next m1.next y m1
        → r.read y m1 ≡ r.read x m
        → HeldIn h r m.next m1.next
            (h.of_cell ((written m1 dst (h.to_cell y)).cell dst))
            (written m1 dst (h.to_cell y))
          × (read_held h r
                (h.of_cell ((written m1 dst (h.to_cell y)).cell dst))
                (written m1 dst (h.to_cell y))
              ≡ read_held h r (h.of_cell (m.cell src)) m)
    placed m m1 x y src dst d e w same_read =
        let m2 = written m1 dst (h.to_cell y) in
        let there = ap h.of_cell (written_there m1 dst (h.to_cell y)) ∙ held y in
        let kept = written_above m1 m.next m1.next dst (h.to_cell y) d in
        (
          subst (λ o. HeldIn h r m.next m1.next o m2) (sym there)
              (law.frame m.next m1.next y m1 m2 kept w),
          ap (λ o. read_held h r o m2) there
              ∙ ap some (law.frame_read m.next m1.next y m1 m2 kept w ∙ same_read)
              ∙ ap (λ o. read_held h r o m) (sym e),
        )

    copy_cells-step :
        (n src dst : ℕ) (m m1 : Memory C) (x y : X) (result : Option (Unit {0} × Memory C))
        → h.of_cell (m.cell src) ≡ some x
        → copy x m ≡ some (y, m1)
        → copy_cells h copy n (src + 1) (dst + 1) (written m1 dst (h.to_cell y)) ≡ result
        → copy_cells h copy (suc n) src dst m ≡ result
    unfolding copy_cells load store
    copy_cells-step n src dst m m1 x y result e f g = rw (e, f) g

    copy_cells_lem :
        (lo n src dst : ℕ) (m : Memory C)
        → lo ≤ dst
        → dst + n ≤ m.next
        → CellsIn h r 0 lo n src m
        → (m' : Memory C) × (copy_cells h copy n src dst m ≡ some (tt, m'))
          × (m.next ≤ m'.next)
          × SameIn 0 dst m m'
          × SameIn (dst + n) m.next m m'
          × CellsIn h r lo m'.next n dst m'
          × (read_cells h r n dst m' ≡ read_cells h r n src m)
    unfolding copy_cells
    copy_cells_lem lo zero src dst m a b w =
        (m, refl, omega arith, (λ p x y. refl), (λ p x y. refl), tt, refl)
    copy_cells_lem lo (suc n) src dst m a b ((c, d, w), ws) =
        let (x, e, within) = loaded 0 lo (h.of_cell (m.cell src)) m w in
        let (y, m1, f, le1, same1, fresh, same_read) =
          copies x m (law.widen 0 lo 0 m.next x m (omega arith) (omega arith) within) in
        let m2 = written m1 dst (h.to_cell y) in
        let (in_place, read_there) = placed m m1 x y src dst (omega arith) e fresh same_read in
        let source : SameIn 0 lo m m2 =
          λ p s t. written_below m1 0 lo dst (h.to_cell y) a p s t ∙ same1 p s (omega arith) in
        let (m3, g, le3, below, above, cells, reads) =
          copy_cells_lem lo n (src + 1) (dst + 1) m2 (omega arith) (omega arith)
            (CellsIn-frame h r law 0 lo n (src + 1) m m2 source ws) in
        let kept : SameIn m.next m1.next m2 m3 = λ p s t. above p (omega arith) t in
        let there = below dst (omega arith) (omega arith) in
        (
          m3,
          copy_cells-step n src dst m m1 x y (some (tt, m3)) e f g,
          omega arith,
          (λ p s t.
              below p s (omega arith)
              ∙ written_below m1 0 dst dst (h.to_cell y) (omega arith) p s t
              ∙ same1 p s (omega arith)),
          (λ p s t.
              above p (omega arith) (omega arith)
              ∙ written_above m1 (dst + 1) m.next dst (h.to_cell y) (omega arith) p (omega arith) t
              ∙ same1 p (omega arith) t),
          (
            CellIn-same h r law m.next m1.next lo m3.next dst m2 m3 a (omega arith) (omega arith)
                le3 there kept in_place,
            cells,
          ),
          ap (λ o. o ∷ read_cells h r n (dst + 1) m3)
                (read_held-same h r law m.next m1.next dst m2 m3 there kept in_place ∙ read_there)
              ∙ ap (λ l. read_held h r (h.of_cell (m.cell src)) m ∷ l)
                  (reads ∙ read_cells-frame h r law 0 lo n (src + 1) m m2 source ws),
        )

    pub copy_slice-IsCopy : IsCopy (slice_of h r) (copy_slice h copy)
    unfolding copy_slice alloc
    copy_slice-IsCopy none m w = (none, m, refl, omega arith, (λ a p q. refl), tt, refl)
    copy_slice-IsCopy (some s) m w =
        let m0 = allocated m s.length (h.to_cell h.zero_value) in
        let same = allocated_below m s.length (h.to_cell h.zero_value) in
        let (m', e, le, below, above, cells, reads) =
          copy_cells_lem m.next s.length s.start m.next m0 (omega arith) (omega arith)
            (CellsIn-frame h r law 0 m.next s.length s.start m m0 same w) in
        let out : Option Slice = some (record { start = m.next; length = s.length }) in
        (
          out,
          m',
          ap (λ o. go_on o (λ u. pure {A = Option Slice} out)) e,
          omega arith,
          (λ a p q. below a p q ∙ same a p q),
          cells,
          ap some (reads ∙ read_cells-frame h r law 0 m.next s.length s.start m m0 same w),
        )

    copy_pointer-step :
        (p : ℕ) (m m1 : Memory C) (x y : X)
        → h.of_cell ((allocated m 1 (h.to_cell h.zero_value)).cell p) ≡ some x
        → copy x (allocated m 1 (h.to_cell h.zero_value)) ≡ some (y, m1)
        → copy_pointer h copy (some p) m ≡ some (some m.next, written m1 m.next (h.to_cell y))
    unfolding copy_pointer alloc load store
    copy_pointer-step p m m1 x y e f = rw (e, f) refl

    pub copy_pointer-IsCopy : IsCopy (pointer_to h r) (copy_pointer h copy)
    unfolding copy_pointer
    copy_pointer-IsCopy none m w = (none, m, refl, omega arith, (λ a p q. refl), tt, refl)
    copy_pointer-IsCopy (some p) m (c, d, w) =
        let m0 = allocated m 1 (h.to_cell h.zero_value) in
        let same = allocated_below m 1 (h.to_cell h.zero_value) in
        let (x, e, within) = loaded 0 m.next (h.of_cell (m.cell p)) m w in
        let e0 = ap h.of_cell (same p c d) ∙ e in
        let (y, m1, f, le, same1, fresh, same_read) = copies x m0 (
          law.widen 0 m.next 0 m0.next x m0 (omega arith) (omega arith)
            (law.frame 0 m.next x m m0 same within)) in
        let (in_place, read_there) = placed m0 m1 x y p m.next (omega arith) e0 fresh same_read in
        let m2 = written m1 m.next (h.to_cell y) in
        (
          some m.next,
          m2,
          copy_pointer-step p m m1 x y e0 f,
          omega arith,
          (λ a s t.
              written_below m1 0 m.next m.next (h.to_cell y) (omega arith) a s t
              ∙ same1 a s (omega arith)
              ∙ same a s t),
          (
            omega arith,
            omega arith,
            HeldIn-widen h r law m0.next m1.next m.next m1.next (h.of_cell (m2.cell m.next)) m2
                (omega arith) (omega arith) in_place,
          ),
          ap some (read_there ∙ read_held-same h r law 0 m.next p m m0 (same p c d) same w),
        )
