-- ===== src/Config/Target.antt =====
-- internal/config/config.go: what `validateURL` lets through.
use mathlib.Core.List.{reverse, reverse-append}
use maze_registry_ui.Prelude.{
  ◌≡◌, ◌≢◌, refl, sym, ap, ◌∙◌, ◌⊎◌, [], ◌∷◌, ◌++◌, true, Option, none, some, arith, Bool-cases,
  Option-cases, inl, inr,
}
use maze_registry_ui.Prelude.Bytes.{Bytes, codes, bytes_eq, bytes_eq_iff}
use maze_registry_ui.Prelude.Text.{cut_prefix, cut_suffix, trim_right}
use maze_registry_ui.Config.{Url, is_slash, is_valid_url, one_of}

-- an http or https URL with a host, whose path does not end in /v2 once its last slashes are cut
pub record IsTarget (parse_url : Bytes → Option Url) (raw : Bytes) : Type 0 where
  pub url : Url
  pub parses : parse_url raw ≡ some url
  pub web : (url.scheme ≡ codes "http") ⊎ (url.scheme ≡ codes "https")
  pub hosted : url.host ≢ []
  pub unversioned : (p : Bytes) → trim_right is_slash url.path ≢ p ++ codes "/v2"

cut_prefix-append : (t s : Bytes) → cut_prefix t (t ++ s) ≡ some s
unfolding cut_prefix
cut_prefix-append [] s = refl
cut_prefix-append (x ∷ t) s = ground (arith, cut_prefix-append t s)

cut_suffix-append : (p t : Bytes) → cut_suffix t (p ++ t) ≢ none
unfolding cut_suffix
cut_suffix-append p t h =
    ground (arith, rw (reverse-append p t, cut_prefix-append (reverse t) (reverse p)) at h)

pub is_valid_url-IsTarget :
    (parse_url : Bytes → Option Url) (raw : Bytes)
    → is_valid_url parse_url raw ≡ true
    → IsTarget parse_url raw
unfolding is_valid_url one_of
is_valid_url-IsTarget parse_url raw h = elim (Option-cases (parse_url raw)) [
  | inl e ↦ absurd (ground (arith, e, h))
  | inr (u, e) ↦ elim (Option-cases (cut_suffix (codes "/v2") (trim_right is_slash u.path))) [
    | inr (p, cut) ↦ absurd (ground (arith, e, cut, h))
    | inl uncut ↦ record {
      url = u;
      parses = e;
      web = elim (Bool-cases (bytes_eq u.scheme (codes "http"))) [
        | inl a ↦ inl ((bytes_eq_iff _ _).0 a)
        | inr a ↦ inr ((bytes_eq_iff _ _).0 (ground (arith, e, uncut, a, h)))
      ];
      hosted = λ none_given. ground (arith, e, uncut, none_given, h);
      unversioned = λ p same.
          cut_suffix-append p (codes "/v2") (ap (cut_suffix (codes "/v2")) (sym same) ∙ uncut);
    }
  ]
]
