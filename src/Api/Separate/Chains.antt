-- ===== src/Api/Separate/Chains.antt =====
-- Two copies one after the other: each leaves the memory of the other as it was.
use rancid_syncer.Base.{ℕ, ◌≤◌, ◌≡◌, ◌∙◌, some, arith}
use rancid_syncer.Api.Memory.{Memory, M}
use rancid_syncer.Api.Separate.{Reading, IsReading, SameIn, IsCopy}

module _ {C : Type 0} where
  pub SameIn-trans :
      (m m1 m2 : Memory C)
      → m.next ≤ m1.next
      → SameIn 0 m.next m m1
      → SameIn 0 m1.next m1 m2
      → SameIn 0 m.next m m2
  SameIn-trans m m1 m2 le s t a p q = t a p (omega arith) ∙ s a p q

  module _ {X : Type 0} {r : Reading C X} (law : IsReading r) where
    -- What is still to be copied.
    pub carried :
        (x : X) (m m1 : Memory C)
        → m.next ≤ m1.next
        → SameIn 0 m.next m m1
        → r.Within 0 m.next x m
        → r.Within 0 m1.next x m1
    carried x m m1 le same w =
        law.widen 0 m.next 0 m1.next x m1 (omega arith) le (law.frame 0 m.next x m m1 same w)

    -- What is copied.
    pub settled :
        (lo : ℕ) (y : X) (m1 m2 : Memory C)
        → m1.next ≤ m2.next
        → SameIn 0 m1.next m1 m2
        → r.Within lo m1.next y m1
        → r.Within lo m2.next y m2 × (r.read y m2 ≡ r.read y m1)
    settled lo y m1 m2 le same w =
        let kept : SameIn lo m1.next m1 m2 = λ a p q. same a (omega arith) q in
        (
          law.widen lo m1.next lo m2.next y m2 (omega arith) le
              (law.frame lo m1.next y m1 m2 kept w),
          law.frame_read lo m1.next y m1 m2 kept w,
        )

  -- Two copies in memory that neither shares with what was there.
  abbrev pub BothCopied :
      {X Y : Type 0}
      → Reading C X
      → Reading C Y
      → (X → M C X)
      → (Y → M C Y)
      → X
      → Y
      → Memory C
      → Type 0
  BothCopied {X} {Y} r s copy_x copy_y x y m =
      (x' : X) × (y' : Y) × (m1 : Memory C) × (m2 : Memory C) × (copy_x x m ≡ some (x', m1))
      × (copy_y y m1 ≡ some (y', m2))
      × (m.next ≤ m2.next)
      × SameIn 0 m.next m m2
      × r.Within m.next m2.next x' m2
      × s.Within m.next m2.next y' m2
      × (r.read x' m2 ≡ r.read x m)
      × (s.read y' m2 ≡ s.read y m)

  pub both_copied :
      {X Y : Type 0} {r : Reading C X} {s : Reading C Y} {copy_x : X → M C X} {copy_y : Y → M C Y}
      → IsReading r
      → IsReading s
      → IsCopy r copy_x
      → IsCopy s copy_y
      → (x : X) (y : Y) (m : Memory C) → r.Within 0 m.next x m
      → s.Within 0 m.next y m
      → BothCopied r s copy_x copy_y x y m
  both_copied r-law s-law x-copies y-copies x y m w v =
      let (x', m1, e, le1, same1, within1, read1) = x-copies x m w in
      let (y', m2, f, le2, same2, within2, read2) =
        y-copies y m1 (carried s-law y m m1 le1 same1 v) in
      let (within, kept) = settled r-law m.next x' m1 m2 le2 same2 within1 in
      (
        x',
        y',
        m1,
        m2,
        e,
        f,
        omega arith,
        SameIn-trans m m1 m2 le1 same1 same2,
        within,
        s-law.widen m1.next m2.next m.next m2.next y' m2 le1 (omega arith) within2,
        kept ∙ read1,
        read2 ∙ s-law.frame_read 0 m.next y m m1 same1 v,
      )
