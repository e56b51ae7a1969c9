-- ===== src/Tests/Patches.antt =====
-- opf-patch with libraries whose patch is the new document, and fix-flux with a library that keeps
-- the text.
use rancid_syncer.Base.{◌≡◌, String, ◌<>◌, List, [], ◌∷◌}
use rancid_syncer.Base.Outcome.{ok}
use rancid_syncer.Commands.Console.{World}
use rancid_syncer.OpfPatch.{Value, Members, Json}
use rancid_syncer.OpfPatch.Run.{PrintsPatched, opf_patch_main, opf_patch_main-PrintsPatched}

abbrev quoted : List String → String
quoted [] = "]"
quoted (s ∷ l) = s <> "," <> quoted l

mutual
  print_value : Value → String
  print_value (Value.text s) = s
  print_value (Value.texts l) = "[" <> quoted l
  print_value (Value.object m) = "{" <> print_members m

  print_members : Members → String
  print_members Members.end = "}"
  print_members (Members.member k v m) = k <> ":" <> print_value v <> "," <> print_members m

abbrev json : Json
json = record {
  Operations = String;
  Patch = String;
  marshal = λ v. ok (print_value v);
  create_patch = λ a b. ok b;
  marshal_indent = λ ops. ok ops;
  decode_patch = λ bytes. ok bytes;
  apply = λ patch bytes. ok patch;
  yaml_to_json = λ bytes. ok bytes;
}

abbrev start : World (Unit {0})
start = record { cluster = tt; printed = [] }

opf_patch_main_example :
    ((opf_patch_main json start).1.cluster ≡ tt)
    × PrintsPatched json (opf_patch_main json start).0 [] (opf_patch_main json start).1.printed
opf_patch_main_example = opf_patch_main-PrintsPatched json start
