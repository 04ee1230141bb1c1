-- ===== src/Server/Links.antt =====
-- internal/server/handlers.go: the small functions on paths and names, and where `handleTheme`
-- may send the browser.
pub mod Safe
use maze_registry_ui.Prelude.{
  ℕ, suc, ◌+◌, List, [], ◌∷◌, ◌++◌, Bool, true, false, ◌&&◌, ◌||◌, not, Option, none, some, ltb,
  ◌==◌, if◌then◌else◌,
}
use maze_registry_ui.Prelude.Bytes.{Bytes, codes, is_empty}
use maze_registry_ui.Prelude.Text.{has_prefix, cut}

-- the bytes that the loop of `safeReturn` rejects
unfoldable pub is_rejected : ℕ → Bool
is_rejected c = c == b'\\' || (ltb c 32 || c == 127)

unfoldable pub any_rejected : Bytes → Bool
any_rejected [] = false
any_rejected (c ∷ s) = let rest = any_rejected s in if is_rejected c then true else rest

-- `len(p) > 1 && p[1] == '/'`
unfoldable pub second_is_slash : Bytes → Bool
second_is_slash [] = false
second_is_slash (c ∷ []) = false
second_is_slash (c ∷ d ∷ s) = d == b'/'

-- `safeReturn`; `fallback` is the page of the default registry
unfoldable pub safe_return : Bytes → Bytes → Bytes → Bytes
unfolding any_rejected second_is_slash has_prefix
safe_return base_path fallback p =
    if is_empty p || not (has_prefix (codes "/") p)
    then fallback
    else if any_rejected p
    then fallback
    else if second_is_slash p
    then fallback
    else if not (is_empty base_path) && not (has_prefix (base_path ++ codes "/") p)
    then fallback
    else p

abbrev pub has_slash : Bytes → Bool
has_slash [] = false
has_slash (c ∷ s) = c == b'/' || has_slash s

-- `splitRepo`: what stands before the last slash, and what stands after
unfoldable pub split_repo : Bytes → Bytes × Bytes
split_repo [] = ([], [])
split_repo (c ∷ s) =
    let (namespace, short) = split_repo s in
    if has_slash s then (c ∷ namespace, short) else if c == b'/' then ([], s) else ([], c ∷ s)

unfoldable pub pull_command : Bytes → Bytes → Bytes → Bytes
unfolding has_prefix
pull_command host repo ref =
    codes "docker pull "
    ++ host
    ++ codes "/"
    ++ repo
    ++ (if has_prefix (codes "sha256:") ref then codes "@" else codes ":")
    ++ ref

pub record Kv : Type 0 where
  pub key : Bytes
  pub value : Bytes

unfoldable pub split_env : List Bytes → List Kv
unfolding cut
split_env [] = []
split_env (e ∷ es) =
    let rest = split_env es in
    elim (cut b'=' e) [
      | none ↦ record { key = e; value = [] } ∷ rest
      | some (k, v) ↦ record { key = k; value = v } ∷ rest
    ]

unfoldable pub or_slash : Bytes → Bytes
or_slash p = if is_empty p then codes "/" else p
