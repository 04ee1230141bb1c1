-- ===== src/Prelude/Text.antt =====
-- Functions of Go's `strings` package over bytes. Case and white space are those of ASCII.
use Prim.Native.Nat.{ℕ, ◌+◌}
use mathlib.Core.Bool.{Bool, true, false, ◌&&◌, ◌||◌}
use mathlib.Core.List.{List, [], ◌∷◌, ◌++◌, map, reverse}
use mathlib.Core.Option
use mathlib.Core.Option.{Option, none, some}
use maze_registry_ui.Prelude.Bytes.{Bytes, bytes_eq, is_empty}
use maze_registry_ui.Prelude.Tests.{leb, ◌==◌, if◌then◌else◌}

unfoldable pub lower_byte : ℕ → ℕ
lower_byte c = if leb b'A' c && leb c b'Z' then c + 32 else c

-- `strings.ToLower`
unfoldable pub to_lower : Bytes → Bytes
unfolding lower_byte
to_lower = map lower_byte

-- `strings.EqualFold`
unfoldable pub equal_fold : Bytes → Bytes → Bool
unfolding to_lower
equal_fold a b = bytes_eq (to_lower a) (to_lower b)

unfoldable pub is_space : ℕ → Bool
is_space c = (leb 9 c && leb c 13) || c == b' '

unfoldable pub trim_left : (ℕ → Bool) → Bytes → Bytes
trim_left p [] = []
trim_left p (x ∷ s) = if p x then trim_left p s else x ∷ s

unfoldable pub trim_right : (ℕ → Bool) → Bytes → Bytes
trim_right p [] = []
trim_right p (x ∷ s) = let rest = trim_right p s in if p x && is_empty rest then [] else x ∷ rest

-- `strings.TrimSpace`
unfoldable pub trim_space : Bytes → Bytes
unfolding is_space trim_left trim_right
trim_space s = trim_right is_space (trim_left is_space s)

-- `strings.CutPrefix`
unfoldable pub cut_prefix : Bytes → Bytes → Option Bytes
cut_prefix [] s = some s
cut_prefix (p ∷ ps) [] = none
cut_prefix (p ∷ ps) (x ∷ s) = if p == x then cut_prefix ps s else none

-- `strings.CutSuffix`
unfoldable pub cut_suffix : Bytes → Bytes → Option Bytes
unfolding cut_prefix
cut_suffix p s = Option.map reverse (cut_prefix (reverse p) (reverse s))

-- `strings.HasPrefix`
unfoldable pub has_prefix : Bytes → Bytes → Bool
has_prefix [] s = true
has_prefix (p ∷ ps) [] = false
has_prefix (p ∷ ps) (x ∷ s) = p == x && has_prefix ps s

-- `strings.Contains`
unfoldable pub contains : Bytes → Bytes → Bool
unfolding has_prefix
contains t [] = has_prefix t []
contains t (x ∷ s) = has_prefix t (x ∷ s) || contains t s

-- `strings.Cut` at a byte: what stands before its first occurrence, and what stands after
unfoldable pub cut : ℕ → Bytes → Option (Bytes × Bytes)
cut sep [] = none
cut sep (x ∷ s) =
    if x == sep
    then some ([], s)
    else elim (cut sep s) [ none ↦ none | some (a, b) ↦ some (x ∷ a, b) ]

-- `strings.Fields`: `word` is the field that is being read
unfoldable pub fields_from : Bytes → Bytes → List Bytes
unfolding is_space
fields_from word [] = if is_empty word then [] else word ∷ []
fields_from word (x ∷ s) =
    let ended = fields_from [] s in
    let going = fields_from (word ++ x ∷ []) s in
    if is_space x then (if is_empty word then ended else word ∷ ended) else going

unfoldable pub fields : Bytes → List Bytes
unfolding fields_from
fields s = fields_from [] s

-- `strings.Split` at a byte
unfoldable pub split_from : ℕ → Bytes → Bytes → List Bytes
split_from sep part [] = part ∷ []
split_from sep part (x ∷ s) =
    let ended = split_from sep [] s in
    let going = split_from sep (part ++ x ∷ []) s in if x == sep then part ∷ ended else going

unfoldable pub split : ℕ → Bytes → List Bytes
unfolding split_from
split sep s = split_from sep [] s
