-- ===== src/Tests/Texts.antt =====
-- Names of resource layouts, tags, and the digits of a port.
use rancid_syncer.Base.{ℕ, ◌≡◌, refl, List, [], ◌∷◌, ◌++◌}
use rancid_syncer.Base.Outcome.{ok}
use mathlib.Core.List.{reverse as list_reverse}
use rancid_syncer.RsLayout.{reverse, swap_loop, cut, split_n, parse_gvr}
use rancid_syncer.RsLayout.Reverse.{reverse-eq-list_reverse}
use rancid_syncer.RsLayout.Parse.{gvr_name, parse_gvr-gvr_name, IsParse, parse_gvr_sound}
use rancid_syncer.CheckYaml.{encode_loop, encode_tag, decode_tag, open_paren, close_paren}
use rancid_syncer.CheckYaml.Laws.{decode_tag-encode_tag}

-- `apps`, `v1` and `pods`, and a group with a dash.
abbrev apps : List ℕ
apps = b'a' ∷ b'p' ∷ b'p' ∷ b's' ∷ []

abbrev v1 : List ℕ
v1 = b'v' ∷ b'1' ∷ []

abbrev pods : List ℕ
pods = b'p' ∷ b'o' ∷ b'd' ∷ b's' ∷ []

abbrev my_group : List ℕ
my_group = b'm' ∷ b'y' ∷ b'-' ∷ b'g' ∷ []

abbrev layout : List ℕ
layout = gvr_name my_group v1 pods

parsed : parse_gvr layout ≡ ok (record { group = my_group; version = v1; resource = pods })
unfolding parse_gvr split_n cut reverse swap_loop
parsed = refl

reverse_example : reverse apps ≡ list_reverse apps
reverse_example = reverse-eq-list_reverse apps

parse_gvr-gvr_name_example :
    parse_gvr (gvr_name my_group v1 pods)
    ≡ ok (record { group = my_group; version = v1; resource = pods })
parse_gvr-gvr_name_example =
    parse_gvr-gvr_name my_group v1 pods (refl, (refl, tt)) (refl, (refl, (refl, (refl, tt))))

parse_gvr_sound_example :
    IsParse layout (record { group = my_group; version = v1; resource = pods })
parse_gvr_sound_example =
    parse_gvr_sound layout (record { group = my_group; version = v1; resource = pods }) parsed

-- `a(b)c`
abbrev reference : List ℕ
reference = b'a' ∷ open_paren ∷ b'b' ∷ close_paren ∷ b'c' ∷ []

-- A closing parenthesis without an opening one is dropped.
unmatched : encode_tag (b'a' ∷ close_paren ∷ b'c' ∷ []) v1 ≡ b'a' ∷ b'c' ∷ []
unfolding encode_tag encode_loop
unmatched = refl

abbrev a : List ℕ
a = b'a' ∷ []

abbrev b : List ℕ
b = b'b' ∷ []

abbrev c : List ℕ
c = b'c' ∷ []

decode_tag-encode_tag_example :
    (encode_tag (a ++ (open_paren ∷ b ++ close_paren ∷ c)) v1
      ≡ a ++ (open_paren ∷ v1 ++ close_paren ∷ c))
    × (decode_tag (encode_tag (a ++ (open_paren ∷ b ++ close_paren ∷ c)) v1) ≡ a ++ (v1 ++ c))
decode_tag-encode_tag_example =
    decode_tag-encode_tag a b c v1 (refl, tt) (refl, tt) (refl, tt) (refl, (refl, tt))
