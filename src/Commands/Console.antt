-- ===== src/Commands/Console.antt =====
-- Programs that print and that may call `os.Exit`.
use mathlib.Core.List.{append_assoc, append-nil}
use rancid_syncer.Base.{ℕ, String, ◌≡◌, sym, ap, ◌∙◌, List, [], ◌∷◌, ◌++◌}
use rancid_syncer.Base.Outcome.{Outcome, ok, err, panic}
use rancid_syncer.Base.Effect.{Effect}

-- How a call ended: it came back, or the process exited with a status.
pub data Finish (A : Type 0) : Type 0 where
  finished : Outcome A → Finish A
  exited : ℕ → Finish A

-- The cluster, and the lines that were printed.
pub record World (S : Type 0) : Type 0 where
  pub cluster : S
  pub printed : List String

abbrev pub Program : Type 0 → Type 0 → Type 0
Program S A = World S → Finish A × World S

module _ {S A B : Type 0} where
  abbrev pub go_on : Finish A → (A → Program S B) → Program S B
  go_on (finished (ok a)) f w = f a w
  go_on (finished (err e)) f w = (finished (err e), w)
  go_on (finished (panic m)) f w = (finished (panic m), w)
  go_on (exited n) f w = (exited n, w)

  infixl 5 ◌>>=◌ ◌>>◌
  abbrev pub ◌>>=◌ : Program S A → (A → Program S B) → Program S B
  p >>= f = λ w. let (r, w') = p w in go_on r f w'

  abbrev pub ◌>>◌ : Program S A → Program S B → Program S B
  p >> q = p >>= λ _. q

-- `if err := useKubebuilderClient(); err != nil { panic(err) }`
abbrev pub fatal : Finish (Unit {0}) → Finish (Unit {0})
fatal (finished (ok u)) = finished (ok u)
fatal (finished (err e)) = finished (panic "main")
fatal (finished (panic m)) = finished (panic m)
fatal (exited n) = exited n

module _ {S : Type 0} where
  abbrev pub pure : {A : Type 0} → A → Program S A
  pure a w = (finished (ok a), w)

  abbrev pub lift : {A : Type 0} → Outcome A → Program S A
  lift r w = (finished r, w)

  abbrev pub query : {A : Type 0} → (S → Outcome A) → Program S A
  query f w = (finished (f w.cluster), w)

  abbrev pub call : {A : Type 0} → Effect S A → Program S A
  call m w = let (r, s) = m w.cluster in (finished r, record w { cluster = s })

  -- `fmt.Println`
  abbrev pub println : String → Program S (Unit {0})
  println line w = (finished (ok tt), record w { printed = w.printed ++ line ∷ [] })

  -- `for _, x := range items { fmt.Println(x) }`
  unfoldable pub print_all : List String → Program S (Unit {0})
  print_all [] = pure tt
  print_all (line ∷ lines) = println line >> print_all lines

  -- `os.Exit`
  abbrev pub exit : ℕ → Program S (Unit {0})
  exit n w = (exited n, w)

  abbrev pub run_main : Program S (Unit {0}) → Program S (Unit {0})
  run_main p w = let (r, w') = p w in (fatal r, w')

  -- Printing adds the lines in their order.
  pub print_all_lem :
      (lines : List String) (w : World S)
      → print_all lines w ≡ (finished (ok tt), record w { printed = w.printed ++ lines })
  unfolding print_all
  print_all_lem [] w =
      ap (λ l. (finished (ok tt), record w { printed = l })) (sym (append-nil w.printed))
  print_all_lem (line ∷ lines) w =
      print_all_lem lines (record w { printed = w.printed ++ line ∷ [] })
      ∙ ap (λ l. (finished (ok tt), record w { printed = l }))
          (append_assoc w.printed (line ∷ []) lines)
