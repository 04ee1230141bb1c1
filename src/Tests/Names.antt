-- ===== src/Tests/Names.antt =====
-- The grammar of names, and links, on small texts.
use maze_registry_ui.Prelude.{◌≡◌, ◌↔◌, ◌⊎◌, refl, List, [], ◌∷◌, map, false}
use maze_registry_ui.Prelude.Assoc.{insert}
use maze_registry_ui.Prelude.Bytes.{Bytes, codes, bytes_eq}
use maze_registry_ui.Prelude.Regex.{in_class, nullable, derive, accepts}
use maze_registry_ui.Prelude.Regex.Shapes.{all_bytes}
use maze_registry_ui.Prelude.Text.{
  split_from, split, cut, trim_space, trim_left, trim_right, is_space, lower_byte, to_lower,
}
use maze_registry_ui.Registry.Names.{
  valid, invalid, not_a_name, not_a_reference, check_components, validate_repository, is_digest,
  validate_digest, validate_reference,
}
use maze_registry_ui.Registry.Names.Safe.{
  IsTag, IsDigestText, IsSafePath, validate_reference_iff, validate_repository-IsSafePath,
}
use maze_registry_ui.Registry.Paging.{
  flush, write_byte, scan_byte, scan_bytes, split_link_header, index_byte, last_byte, without_last,
  unquote, add_param, add_params, parse_link,
}
use maze_registry_ui.Registry.Paging.Links.{print_links, target_byte, rel_byte, all_plain}
use maze_registry_ui.Registry.Paging.RoundTrip.{read_back, split_link_header-parse_link}

program : Unit {0}
unfolding insert bytes_eq in_class nullable derive accepts all_bytes split_from split cut trim_space
    trim_left trim_right is_space lower_byte to_lower check_components validate_repository is_digest
    validate_digest validate_reference flush write_byte scan_byte scan_bytes split_link_header
    index_byte last_byte without_last unquote add_param add_params parse_link print_links
    target_byte rel_byte all_plain
program = tt

abbrev sha : Bytes
sha = codes "sha256:e3b0c44298fc1c149afbf4c8996fb92427ae41e4649b934ca495991b7852b855"

accepted : validate_repository (codes "library/my--app_v2") ≡ valid
unfolding program
accepted = refl

dots :
    validate_repository (codes "library/../admin") ≡ invalid (not_a_name (codes "library/../admin"))
unfolding program
dots = refl

digest : validate_digest sha ≡ valid
unfolding program
digest = refl

short_digest : is_digest (codes "sha256:e3b0") ≡ false
unfolding program
short_digest = refl

tag : validate_reference (codes "v1.2-rc_3") ≡ valid
unfolding program
tag = refl

dash : validate_reference (codes "-x") ≡ invalid (not_a_reference (codes "-x"))
unfolding program
dash = refl

-- a comma inside the brackets, a semicolon and a comma in a quoted string
split_run :
    split_link_header (codes "</v2/a,b>; rel=\"next\" , <x>; title=\"a,b\"")
    ≡ codes "</v2/a,b>; rel=\"next\"" ∷ codes "<x>; title=\"a,b\"" ∷ []
unfolding program
split_run = refl

validate_reference_iff_example :
    (validate_reference (codes "v1.2") ≡ valid)
    ↔ (IsDigestText (codes "v1.2") ⊎ IsTag (codes "v1.2"))
validate_reference_iff_example = validate_reference_iff (codes "v1.2")

validate_repository-IsSafePath_example : IsSafePath (codes "library/my--app")
unfolding program
validate_repository-IsSafePath_example =
    validate_repository-IsSafePath (codes "library/my--app") refl

abbrev links : List (Bytes × Bytes)
links = (codes "/v2/_catalog?last=a,b", codes "next") ∷ (codes "/", codes "first, up") ∷ []

split_link_header-parse_link_example :
    map parse_link (split_link_header (print_links links)) ≡ map read_back links
unfolding program
split_link_header-parse_link_example = split_link_header-parse_link links refl
