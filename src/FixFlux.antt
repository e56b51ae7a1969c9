-- ===== src/FixFlux.antt =====
-- fix-flux/main.go: a text in YAML, parsed and printed again.
pub mod Paths
use rancid_syncer.Base.{String, ◌≡◌, refl, sym, ◌∙◌, ◌++◌, [], ◌∷◌}
use rancid_syncer.Base.Outcome.{Outcome, ok}
use rancid_syncer.Commands.Console.{
  Finish, finished, World, Program, lift, println, run_main, ◌>>=◌,
}
use rancid_syncer.OpfPatch.{join_lines}
use rancid_syncer.FixFlux.Paths.{y1_lines}

abbrev pub y1 : String
y1 = join_lines y1_lines

-- sigs.k8s.io/yaml, on a `map[string]any`.
pub record Yaml : Type 1 where
  pub Object : Type 0
  pub unmarshal : String → Outcome Object
  pub marshal : Object → Outcome String

-- Objects that were parsed are marshalled, and are read again as they were.
pub record IsYaml (yaml : Yaml) : Type 0 where
  pub text_of : yaml.Object → String
  pub marshals : (obj : yaml.Object) → yaml.marshal obj ≡ ok (text_of obj)
  pub unmarshals : (obj : yaml.Object) → yaml.unmarshal (text_of obj) ≡ ok obj

module _ (yaml : Yaml) where
  unfoldable pub fix_flux_main : {S : Type 0} → Program S (Unit {0})
  fix_flux_main =
      run_main do obj ← lift (yaml.unmarshal y1); text ← lift (yaml.marshal obj); println text

  -- With a YAML library that reads what it has written (`IsYaml`), if the text of the program is
  -- parsed, then the program prints one text and ends, and this text is parsed to the same object.
  pub fix_flux_main_lem :
      {S : Type 0} (lawful : IsYaml yaml) (w : World S) (obj : yaml.Object)
      → yaml.unmarshal y1 ≡ ok obj
      → (text : String) × (fix_flux_main w
          ≡ (finished (ok tt), record w { printed = w.printed ++ text ∷ [] }))
        × (yaml.unmarshal text ≡ yaml.unmarshal y1)
  unfolding fix_flux_main
  fix_flux_main_lem lawful w obj e =
      (lawful.text_of obj, rw (e, lawful.marshals obj) refl, lawful.unmarshals obj ∙ sym e)
