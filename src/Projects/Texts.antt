-- ===== src/Projects/Texts.antt =====
-- What the functions use of the package `strings`.
use Prim.Native.String.{String, ◌++◌ as ◌<>◌}
use rancid_syncer.Base.{Option, none, some, ◌==◌, if◌then◌else◌}
use Prim.Native.Char.{code}
use rancid_syncer.Base.{eqb}

-- The text behind a prefix.
unfoldable pub strip_prefix : String → String → Option String
strip_prefix String.[] s = some s
strip_prefix (String.◌∷◌ c pre) String.[] = none
strip_prefix (String.◌∷◌ c pre) (String.◌∷◌ d s) =
    let rest = strip_prefix pre s in if eqb (code c) (code d) then rest else none

-- `strings.Replace(s, old, new, 1)`
unfoldable pub replace_first : String → String → String → String
unfolding strip_prefix
replace_first old new String.[] = elim (strip_prefix old "") [ none ↦ "" | some s ↦ new <> s ]
replace_first old new (String.◌∷◌ c s) =
    let rest = replace_first old new s in
    elim (strip_prefix old (String.◌∷◌ c s)) [ none ↦ String.◌∷◌ c rest | some t ↦ new <> t ]

-- `strings.TrimSuffix(s, suffix)`
unfoldable pub trim_suffix : String → String → String
trim_suffix suffix String.[] = ""
trim_suffix suffix (String.◌∷◌ c s) =
    let rest = trim_suffix suffix s in if String.◌∷◌ c s == suffix then "" else String.◌∷◌ c rest
