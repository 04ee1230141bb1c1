-- ===== src/Config/Expand.antt =====
-- internal/config/config.go: the references to environment variables in a configuration file, and
-- `Parse` and `Load` around them. gopkg.in/yaml.v3 and `os.ReadFile` are parameters, and
-- `os.LookupEnv` is the argument `env`.
pub mod Pieces
pub mod Missing
pub mod Secrets
pub mod Report
use maze_registry_ui.Prelude.{
  ℕ, zero, suc, ◌-◌, List, [], ◌∷◌, ◌++◌, Bool, true, false, ◌&&◌, ◌||◌, not, Option, none, some,
  leb, ◌==◌, if◌then◌else◌, length,
}
use maze_registry_ui.Prelude.Assoc.{lookup, insert}
use maze_registry_ui.Prelude.Bytes.{Bytes, codes, bytes_eq, is_empty}
use maze_registry_ui.Prelude.Text.{contains, cut, cut_prefix}
use maze_registry_ui.Config.{Config, Url, Parsed, finish}

-- the character classes of `envRef`
abbrev pub is_letter : ℕ → Bool
is_letter c = (leb b'A' c && leb c b'Z') || (leb b'a' c && leb c b'z')

abbrev pub is_name_start : ℕ → Bool
is_name_start c = is_letter c || c == b'_'

abbrev pub is_name_char : ℕ → Bool
is_name_char c = is_letter c || (c == b'_' || (leb b'0' c && leb c b'9'))

-- A match of `envRef`: its text, its two groups, the second being empty if it takes no part.
pub record Reference : Type 0 where
  pub text : Bytes
  pub name : Bytes
  pub fallback : Bytes

-- `[A-Za-z0-9_]*`, and what follows it
unfoldable pub name_chars : Bytes → Bytes × Bytes
name_chars [] = ([], [])
name_chars (c ∷ s) =
    let rest = name_chars s in if is_name_char c then (c ∷ rest.0, rest.1) else ([], c ∷ s)

-- the end of the expression: the fallback, if there is one, and the closing brace
unfoldable pub match_end : Bytes → Bytes → Option Reference
unfolding cut cut_prefix
match_end name s = elim (cut_prefix (codes "}") s) [
  | some _ ↦ some record { text = codes "${" ++ (name ++ codes "}"); name = name; fallback = [] }
  | none ↦ elim (cut_prefix (codes ":-") s) [
    | none ↦ none
    | some t ↦ elim (cut b'}' t) [
      | none ↦ none
      | some (fallback, _) ↦ some record {
        text = codes "${" ++ (name ++ (codes ":-" ++ (fallback ++ codes "}")));
        name = name;
        fallback = fallback;
      }
    ]
  ]
]

unfoldable pub match_name : Bytes → Option Reference
unfolding name_chars match_end
match_name [] = none
match_name (c ∷ s) =
    let (name, rest) = name_chars s in if is_name_start c then match_end (c ∷ name) rest else none

-- `envRef` at the start of a text
unfoldable pub match_ref : Bytes → Option Reference
unfolding match_name cut_prefix
match_ref s = elim (cut_prefix (codes "${") s) [ none ↦ none | some t ↦ match_name t ]

-- The function that `expandString` passes to `ReplaceAllStringFunc`: what replaces the match, and
-- the names that it adds to `missing`.
unfoldable pub replace_ref : (Bytes → Option Bytes) → Reference → Bytes × List Bytes
unfolding contains
replace_ref env m = elim (env m.name) [
  | some v ↦ (v, [])
  | none ↦ if contains (codes ":-") m.text then (m.fallback, []) else ([], m.name ∷ [])
]

-- `ReplaceAllStringFunc`: the matches from left to right, none of which overlap. The number counts
-- the bytes that the last match still covers.
unfoldable pub expand_from : (Bytes → Option Bytes) → ℕ → Bytes → Bytes × List Bytes
unfolding match_ref replace_ref
expand_from env k [] = ([], [])
expand_from env (suc k) (c ∷ s) = expand_from env k s
expand_from env zero (c ∷ s) = elim (match_ref (c ∷ s)) [
  | none ↦ let (out, missing) = expand_from env zero s in (c ∷ out, missing)
  | some m ↦
      let (value, lost) = replace_ref env m in
      let (out, missing) = expand_from env (length m.text - 1) s in (value ++ out, lost ++ missing)
]

unfoldable pub expand_string : (Bytes → Option Bytes) → Bytes → Bytes × List Bytes
unfolding expand_from
expand_string env s = expand_from env 0 s

-- the fields of a scalar `yaml.Node` that `expandNode` reads or writes
pub record Scalar : Type 0 where
  pub value : Bytes
  pub style : ℕ
  pub tag : Bytes

unfoldable pub expand_scalar : (Bytes → Option Bytes) → Scalar → Scalar × List Bytes
unfolding expand_string bytes_eq
expand_scalar env n =
    let (expanded, missing) = expand_string env n.value in
    if bytes_eq expanded n.value
    then (n, missing)
    else (record { value = expanded; style = 0; tag = codes "!!str" }, missing)

-- `yaml.Node`; every kind but a scalar is told apart by a number.
mutual
  pub data Node : Type 0 where
    scalar : Scalar → Node
    branch : ℕ → Nodes → Node

  pub data Nodes : Type 0 where
    nil : Nodes
    cons : Node → Nodes → Nodes

unfoldable mutual
  unfolding expand_scalar

  pub expand_node : (Bytes → Option Bytes) → Node → Node × List Bytes
  expand_node env (scalar n) = let (n', missing) = expand_scalar env n in (scalar n', missing)
  expand_node env (branch kind content) =
      let (content', missing) = expand_nodes env content in (branch kind content', missing)

  pub expand_nodes : (Bytes → Option Bytes) → Nodes → Nodes × List Bytes
  expand_nodes env nil = (nil, [])
  expand_nodes env (cons n ns) =
      let (n', missing) = expand_node env n in
      let (ns', others) = expand_nodes env ns in (cons n' ns', missing ++ others)

-- the loop of `dedupe`
unfoldable pub dedupe_from : List (Bytes × Unit {0}) → List Bytes → List Bytes
unfolding lookup insert
dedupe_from seen [] = []
dedupe_from seen (s ∷ ss) = elim (lookup s seen) [
  | some _ ↦ dedupe_from seen ss
  | none ↦ s ∷ dedupe_from (insert s tt seen) ss
]

unfoldable pub dedupe : List Bytes → List Bytes
unfolding dedupe_from
dedupe ss = dedupe_from [] ss

-- what `Parse` and `Load` return
pub data Loaded : Type 0 where
  unreadable : Loaded
  unparsed : Loaded
  empty_file : Loaded
  unset_references : List Bytes → Loaded
  undecoded : Loaded
  decoded : Parsed → Loaded

-- `root.Kind == 0 || len(root.Content) == 0`; `none` is a root of kind 0
unfoldable pub root_content : Option Node → Bool
root_content none = false
root_content (some (scalar n)) = false
root_content (some (branch kind nil)) = false
root_content (some (branch kind (cons n ns))) = true

-- The calls of yaml.v3: `unmarshal` fails by the outer `none`, and `decode` stands for `Marshal`
-- and the strict decoder after it.
pub record Yaml : Type 0 where
  pub unmarshal : Bytes → Option (Option Node)
  pub decode : Option Node → Option Config

unfoldable pub expand_root : (Bytes → Option Bytes) → Option Node → Option Node × List Bytes
unfolding expand_node
expand_root env none = (none, [])
expand_root env (some n) = let (n', missing) = expand_node env n in (some n', missing)

module _ (yaml : Yaml) (parse_url : Bytes → Option Url) (env : Bytes → Option Bytes) where
  unfoldable pub parse_root : Option Node → Loaded
  unfolding root_content expand_root dedupe finish
  parse_root root =
      let (expanded, missing) = expand_root env root in
      if not (root_content root)
      then empty_file
      else if not (is_empty missing)
      then unset_references (dedupe missing)
      else elim (yaml.decode expanded) [
        | none ↦ undecoded
        | some cfg ↦ decoded (finish parse_url env cfg)
      ]

  unfoldable pub parse : Bytes → Loaded
  unfolding parse_root
  parse raw = elim (yaml.unmarshal raw) [ none ↦ unparsed | some root ↦ parse_root root ]

  unfoldable pub load : (Bytes → Option Bytes) → Bytes → Loaded
  unfolding parse
  load read_file path = elim (read_file path) [ none ↦ unreadable | some raw ↦ parse raw ]
