-- ===== src/Registry/Names.antt =====
-- internal/registry/client.go: the grammar of repository names, tags and digests, which go into the
-- path of a URL as they are.
pub mod Safe
use maze_registry_ui.Prelude.{ℕ, List, [], ◌∷◌, Bool, ◌||◌, ltb, if◌then◌else◌, length}
use maze_registry_ui.Prelude.Bytes.{Bytes, codes, is_empty}
use maze_registry_ui.Prelude.Regex.{
  Regex, alt, seq, star, epsilon, char, chars, plus, times, up_to, literal, accepts,
}
use maze_registry_ui.Prelude.Text.{split}

abbrev pub lower_alnum : Regex
lower_alnum = chars ((b'a', b'z') ∷ (b'0', b'9') ∷ [])

-- `(?:\.|_|__|-+)`
abbrev pub separator : Regex
separator = alt (char b'.') (alt (char b'_') (alt (seq (char b'_') (char b'_')) (plus (char b'-'))))

-- `^[a-z0-9]+(?:(?:\.|_|__|-+)[a-z0-9]+)*$`
abbrev pub repo_component_pattern : Regex
repo_component_pattern = seq (plus lower_alnum) (star (seq separator (plus lower_alnum)))

abbrev pub word_ranges : List (ℕ × ℕ)
word_ranges = (b'a', b'z') ∷ (b'A', b'Z') ∷ (b'0', b'9') ∷ (b'_', b'_') ∷ []

abbrev pub tag_ranges : List (ℕ × ℕ)
tag_ranges =
    (b'a', b'z') ∷ (b'A', b'Z') ∷ (b'0', b'9') ∷ (b'.', b'.') ∷ (b'_', b'_') ∷ (b'-', b'-') ∷ []

-- `^[a-zA-Z0-9_][a-zA-Z0-9._-]{0,127}$`
abbrev pub tag_pattern : Regex
tag_pattern = seq (chars word_ranges) (up_to 127 (chars tag_ranges))

abbrev pub hex_ranges : List (ℕ × ℕ)
hex_ranges = (b'0', b'9') ∷ (b'a', b'f') ∷ []

-- `^sha256:[0-9a-f]{64}$`
abbrev pub digest_pattern : Regex
digest_pattern = seq (literal (codes "sha256:")) (times 64 (chars hex_ranges))

-- the errors of the validators, which name the text that they refuse
pub data NameError : Type 0 where
  empty_name : NameError
  too_long : ℕ → NameError
  not_a_name : Bytes → NameError
  not_a_digest : Bytes → NameError
  empty_reference : NameError
  not_a_reference : Bytes → NameError

-- an `error` result
pub data Checked : Type 0 where
  valid : Checked
  invalid : NameError → Checked

-- the loop of `validateRepository`
unfoldable pub check_components : Bytes → List Bytes → Checked
unfolding accepts
check_components repo [] = valid
check_components repo (component ∷ rest) =
    let checked = check_components repo rest in
    if accepts repo_component_pattern component then checked else invalid (not_a_name repo)

unfoldable pub validate_repository : Bytes → Checked
unfolding check_components split
validate_repository repo =
    if is_empty repo
    then invalid empty_name
    else if ltb 255 (length repo)
    then invalid (too_long (length repo))
    else check_components repo (split b'/' repo)

unfoldable pub is_digest : Bytes → Bool
unfolding accepts
is_digest s = accepts digest_pattern s

unfoldable pub validate_digest : Bytes → Checked
unfolding is_digest
validate_digest d = if is_digest d then valid else invalid (not_a_digest d)

-- a tag or a digest
unfoldable pub validate_reference : Bytes → Checked
unfolding is_digest accepts
validate_reference ref =
    if is_empty ref
    then invalid empty_reference
    else if is_digest ref || accepts tag_pattern ref
    then valid
    else invalid (not_a_reference ref)
