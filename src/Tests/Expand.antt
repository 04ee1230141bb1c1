-- ===== src/Tests/Expand.antt =====
-- References to environment variables in a small file.
use maze_registry_ui.Prelude.{
  ◌≡◌, ◌≢◌, ◌⊎◌, arith, refl, [], ◌∷◌, Option, none, some, false, if◌then◌else◌,
}
use maze_registry_ui.Prelude.Assoc.{lookup, insert}
use maze_registry_ui.Prelude.Bytes.{Bytes, codes, bytes_eq, is_empty}
use maze_registry_ui.Prelude.Regex.Shapes.{all_bytes}
use maze_registry_ui.Prelude.Text.{contains, cut, cut_prefix, has_prefix}
use mathlib.Core.List.{Nodup}
use maze_registry_ui.Config.{Url, unset_variable}
use maze_registry_ui.Config.Expand.{
  name_chars, match_end, match_name, match_ref, replace_ref, expand_from, expand_string,
  expand_scalar, Node, scalar, branch, nil, cons, expand_node, dedupe_from, dedupe, root_content,
  decoded, Yaml, expand_root, parse_root, parse,
}
use maze_registry_ui.Config.Expand.Missing.{AreUnset}
use maze_registry_ui.Config.Expand.Pieces.{plain, reference, expand_string-print_pieces}
use maze_registry_ui.Config.Expand.Report.{fails_unset, LacksCredential, parse_unset_references}
use maze_registry_ui.Tests.Config.{hub, config}

program : Unit {0}
unfolding lookup insert bytes_eq contains cut cut_prefix has_prefix name_chars match_end match_name
    match_ref replace_ref expand_from expand_string expand_scalar expand_node dedupe_from dedupe
    root_content expand_root parse_root parse all_bytes
program = tt

abbrev env : Bytes → Option Bytes
env name = if bytes_eq name (codes "HOST") then some (codes "hub") else none

unmatched : expand_string env (codes "$HOST ${1} ${A ${HOST}") ≡ (codes "$HOST ${1} ${A hub", [])
unfolding program
unmatched = refl

expand_string-print_pieces_example :
    expand_string env (codes "http://${HOST}:${PORT:-80}/${PATH}")
    ≡ (codes "http://hub:80/", codes "PATH" ∷ [])
unfolding program
expand_string-print_pieces_example =
    expand_string-print_pieces env
      (plain (codes "http://")
        ∷ reference (codes "HOST") none
        ∷ plain (codes ":")
        ∷ reference (codes "PORT") (some (codes "80"))
        ∷ plain (codes "/")
        ∷ reference (codes "PATH") none
        ∷ [])
      refl

abbrev leaf : Bytes → Node
leaf value = scalar record { value = value; style = 0; tag = codes "!!str" }

abbrev yaml : Yaml
yaml = record {
  unmarshal = λ raw. some (some (branch 1 (cons (leaf raw) (cons (leaf raw) nil))));
  decode = λ root. some (config (hub ∷ []));
}

abbrev parse_url : Bytes → Option Url
parse_url raw = none

abbrev extended : Bytes → Option Bytes
extended name = elim (env name) [ none ↦ some (codes "x") | some v ↦ some v ]

extends : (n : Bytes) → extended n ≡ none → env n ≡ none
extends n h = ground (arith, h)

set : extended (codes "PATH") ≢ none
unfolding program
set h = cc

parse_unset_references_example :
    AreUnset env (codes "PATH" ∷ [])
    × Nodup (codes "PATH" ∷ [])
    × (is_empty (codes "PATH" ∷ []) ≡ false)
    × ((fails_unset (parse yaml parse_url extended (codes "${HOST}/${PATH}")) ≡ false)
        ⊎ ((parse yaml parse_url extended (codes "${HOST}/${PATH}") ≡ decoded unset_variable)
            × LacksCredential yaml parse_url extended (codes "${HOST}/${PATH}")))
unfolding program
parse_unset_references_example =
    parse_unset_references yaml parse_url env extended (codes "${HOST}/${PATH}") (codes "PATH" ∷ [])
      refl (λ n h. extends n h) (set, tt)

-- with the reported variable set, the variable that password_env names is still not set
abbrev secretive : Yaml
secretive = record yaml {
  decode = λ root.
      some (config (record hub { auth = record hub.auth { password_env = codes "B" } } ∷ []));
}

secret_after_reference :
    parse secretive parse_url
      (λ n. if bytes_eq n (codes "PATH") then some (codes "x") else none)
      (codes "${PATH}")
    ≡ decoded unset_variable
unfolding program
secret_after_reference = refl
