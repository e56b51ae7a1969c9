-- ===== src/Quota/Kinds.antt =====
-- `ListKinds`: the kinds that the API server knows, each with its versions, the newest first.
pub mod Laws
pub mod Discovered
use Prim.Native.Char.{Char, code}
use Prim.Native.String.{String}
use rancid_syncer.Base.{
  ℕ, List, [], ◌∷◌, ◌++◌, Option, none, some, Bool, true, false, all, any, eqb, ltb, length, ◌||◌,
  not, if◌then◌else◌,
}
use rancid_syncer.Base.Dict.{Dict, lookup, insert}
use rancid_syncer.Base.Outcome.{Outcome, ok, panic, ◌>>=◌}
use rancid_syncer.Base.Runtime.{Runtime}
use rancid_syncer.Quota.Types.{ApiType, ApiResource, ApiResourceList, GroupKind, Platform}

-- `strings.ContainsRune(s, '/')`
unfoldable pub has_slash : String → Bool
has_slash String.[] = false
has_slash (String.◌∷◌ c s) = eqb (code c) b'/' || has_slash s

unfoldable pub first_seen : String → String → ApiResource → ApiType
first_seen group version r = record {
  group = group;
  kind = r.kind;
  resource = r.name;
  versions = version ∷ [];
  namespaced = r.namespaced;
}

-- The entry that is stored back, from the one that was there.
unfoldable pub with_version : String → String → ApiResource → Option ApiType → ApiType
unfolding first_seen
with_version group version r none = first_seen group version r
with_version group version r (some x) = record x { versions = x.versions ++ version ∷ [] }

module _ (go : Runtime) (q : Platform) where
  unfoldable pub add_resources : String → String → List ApiResource → Dict ApiType → Dict ApiType
  unfolding has_slash with_version
  add_resources group version [] types = types
  add_resources group version (r ∷ resources) types =
      let gk = q.group_kind_text (record { group = group; kind = r.kind }) in
      add_resources group version resources (
        if has_slash r.name
        then types
        else insert gk (with_version group version r (lookup gk types)) types)

  unfoldable pub add_lists : List ApiResourceList → Dict ApiType → Outcome (Dict ApiType)
  unfolding add_resources
  add_lists [] types = ok types
  add_lists (l ∷ lists) types = do
    gv ← q.parse_group_version l.group_version
    add_lists lists (add_resources gv.0 gv.1 l.api_resources types)

  -- The sorting of one entry. With two versions or more each of them is compared, and the
  -- comparison panics at one that is not valid.
  unfoldable pub sort_versions : ApiType → Outcome ApiType
  sort_versions x =
      if ltb 1 (length x.versions)
      then (if all q.is_version x.versions
          then ok (record x { versions = go.sort_slice q.version_gt x.versions })
          else panic "invalid version")
      else ok x

  -- The second loop writes only the entries that it ranges over.
  unfoldable pub sort_types : Dict ApiType → Outcome (Dict ApiType)
  unfolding sort_versions
  sort_types [] = ok []
  sort_types ((gk, x) ∷ types) = do
    y ← sort_versions x
    rest ← sort_types types
    ok ((gk, y) ∷ rest)

  -- An error of discovery that is not a partial failure leaves the map empty, and is not returned.
  unfoldable pub list_kinds : q.State → Outcome (Dict ApiType)
  unfolding add_lists sort_types
  list_kinds s =
      let (lists, failed) = q.server_groups_and_resources s in
      let usable : Bool = elim failed [ none ↦ true | some e ↦ q.is_group_discovery_failed e ] in
      do types ← if usable then add_lists lists [] else ok []; sort_types types
