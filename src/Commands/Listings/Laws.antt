-- ===== src/Commands/Listings/Laws.antt =====
-- What list-by-name prints.
use mathlib.Core.List.{append_assoc, append-nil}
use rancid_syncer.Base.{String, ◌≡◌, sym, ◌∙◌, ap, List, [], ◌∷◌, ◌++◌, map}
use rancid_syncer.Base.Outcome.{Outcome, ok, err, panic}
use rancid_syncer.Kube.{ObjectKey}
use rancid_syncer.Commands.Console.{Finish, finished, World, go_on, print_all, print_all_lem}
use rancid_syncer.Commands.Listings.{key_text, Listing, named_presets, list_by_name}

-- How a listing ends, and the keys that it gives.
abbrev pub ended : Outcome (List ObjectKey) → Finish (Unit {0})
ended (ok keys) = finished (ok tt)
ended (err e) = finished (err e)
ended (panic m) = finished (panic m)

abbrev pub lines_of : Outcome (List ObjectKey) → List String
lines_of (ok keys) = map key_text keys
lines_of _ = []

-- The keys of a listing.
print_listing :
    {S : Type 0} (r : Outcome (List ObjectKey)) (w : World S)
    → go_on (finished r) (λ keys. print_all (map key_text keys)) w
      ≡ (ended r, record w { printed = w.printed ++ lines_of r })
print_listing (ok keys) w = print_all_lem (map key_text keys) w
print_listing (err e) w =
    ap (λ l. (finished (err e), record w { printed = l })) (sym (append-nil w.printed))
print_listing (panic m) w =
    ap (λ l. (finished (panic m), record w { printed = l })) (sym (append-nil w.printed))

module _ (c : Listing) where
  -- The program list-by-name changes nothing in the cluster. When the first listing returns keys, it
  -- prints them and then those of the second, and ends as the second listing ends: if that fails,
  -- the keys of the first are printed all the same.
  list_by_name_lem :
      (w : World c.State) (keys : List ObjectKey)
      → c.list_dynamic named_presets w.cluster ≡ ok keys
      → list_by_name c w ≡ (
        ended (c.list_presets named_presets w.cluster),
        record w {
          printed =
              w.printed
              ++ "Using kubebuilder client" ∷ map key_text keys
              ++ lines_of (c.list_presets named_presets w.cluster);
        },
      )
  unfolding list_by_name
  list_by_name_lem w keys h =
      let first : World c.State = record w {
        printed = w.printed ++ "Using kubebuilder client" ∷ [];
      } in
      let r = c.list_presets named_presets w.cluster in
      rw (h, print_all_lem (map key_text keys) first)
        (print_listing r (record first { printed = first.printed ++ map key_text keys })
          ∙ ap (λ l. (ended r, record w { printed = l ++ lines_of r }))
              (append_assoc w.printed ("Using kubebuilder client" ∷ []) (map key_text keys)))
