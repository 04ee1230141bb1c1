-- ===== src/Config/Expand/Report.antt =====
-- internal/config/config.go: `dedupe`, and the error of `Parse` that names the unset variables.
use mathlib.Core.Logic.Or
use mathlib.Core.List.{eq-or-mem_of_mem-cons, Mem, Nodup, Nodup-cons, Nodup-nil, not-mem-nil}
use maze_registry_ui.Prelude.{
  ◌≡◌, refl, sym, subst, ◌∙◌, ◌≢◌, List, [], ◌∷◌, Bool, true, false, Option, none, some, ◌⊎◌, arith,
  Option-cases, Bool-cases, inl, inr,
}
use maze_registry_ui.Prelude.Assoc.{lookup, insert, lookup-insert}
use maze_registry_ui.Prelude.Bytes.{Bytes, is_empty, bytes_eq, bytes_eq_iff, bytes_eq_refl}
use maze_registry_ui.Config.{Url, Config, Parsed, accepted, unset_variable, invalid, finish}
use maze_registry_ui.Config.Expand.{
  Node, decoded, root_content, dedupe_from, dedupe, Loaded, unset_references, Yaml, expand_root,
  parse_root, parse,
}
use maze_registry_ui.Config.Expand.Missing.{
  AreUnset, AreSet, Extends, expand_root-AreUnset, expand_root-set,
}
use maze_registry_ui.Config.Expand.Secrets.{LacksSecret, finish-LacksSecret}

abbrev Seen : Type 0
Seen = List (Bytes × Unit {0})

dedupe_from-AreUnset :
    (env : Bytes → Option Bytes) (seen : Seen) (ss : List Bytes)
    → AreUnset env ss
    → AreUnset env (dedupe_from seen ss)
unfolding dedupe_from
dedupe_from-AreUnset env seen [] h = tt
dedupe_from-AreUnset env seen (s ∷ ss) h = elim (Option-cases (lookup s seen)) [
  | inl e ↦ rw (e, dedupe_from) (h.0, dedupe_from-AreUnset env (insert s tt seen) ss h.1)
  | inr (u, e) ↦ rw (e, dedupe_from) (dedupe_from-AreUnset env seen ss h.1)
]

-- the names that have been passed over are set
dedupe_from-AreSet :
    (env : Bytes → Option Bytes) (seen : Seen) (ss : List Bytes)
    → ((n : Bytes) → lookup n seen ≢ none → env n ≢ none)
    → AreSet env (dedupe_from seen ss)
    → AreSet env ss
unfolding dedupe_from
dedupe_from-AreSet env seen [] old h = tt
dedupe_from-AreSet env seen (s ∷ ss) old h = elim (Option-cases (lookup s seen)) [
  | inl e ↦
      let h' = rw (e, dedupe_from) at h in
      (
        h'.0,
        dedupe_from-AreSet env (insert s tt seen) ss
            (λ n k. elim (Bool-cases (bytes_eq s n)) [
              | inl same ↦ subst (λ m. env m ≢ none) ((bytes_eq_iff s n).0 same) h'.0
              | inr other ↦ old n (λ gone. k (lookup-insert s n tt seen ∙ rw other gone))
            ])
            h'.1,
      )
  | inr (u, e) ↦
      (old s (λ gone. ground arith), dedupe_from-AreSet env seen ss old (rw (e, dedupe_from) at h))
]

dedupe_from_fresh :
    (seen : Seen) (ss : List Bytes) (n : Bytes) → Mem n (dedupe_from seen ss) → lookup n seen ≡ none
unfolding dedupe_from
dedupe_from_fresh seen [] n m = absurd (not-mem-nil m)
dedupe_from_fresh seen (s ∷ ss) n m = elim (Option-cases (lookup s seen)) [
  | inl e ↦
      Or.elim (hlevel) (eq-or-mem_of_mem-cons (rw (e, dedupe_from) at m))
        (λ same. subst (λ k. lookup k seen ≡ none) (sym same) e)
        (λ later.
          ground
            (arith, lookup-insert s n tt seen, dedupe_from_fresh (insert s tt seen) ss n later))
  | inr (u, e) ↦ dedupe_from_fresh seen ss n (rw (e, dedupe_from) at m)
]

dedupe_from-Nodup : (seen : Seen) (ss : List Bytes) → Nodup (dedupe_from seen ss)
unfolding dedupe_from
dedupe_from-Nodup seen [] = Nodup-nil
dedupe_from-Nodup seen (s ∷ ss) = elim (Option-cases (lookup s seen)) [
  | inl e ↦
      rw (e, dedupe_from)
        (Nodup-cons.1 (
          λ m. ground (
            arith,
            lookup-insert s s tt seen,
            bytes_eq_refl s,
            dedupe_from_fresh (insert s tt seen) ss s m,
          ),
          dedupe_from-Nodup (insert s tt seen) ss,
        ))
  | inr (u, e) ↦ rw (e, dedupe_from) (dedupe_from-Nodup seen ss)
]

dedupe-AreUnset :
    (env : Bytes → Option Bytes) (ss : List Bytes) → AreUnset env ss → AreUnset env (dedupe ss)
unfolding dedupe
dedupe-AreUnset env ss h = dedupe_from-AreUnset env [] ss h

dedupe-AreSet :
    (env : Bytes → Option Bytes) (ss : List Bytes) → AreSet env (dedupe ss) → AreSet env ss
unfolding dedupe lookup
dedupe-AreSet env ss h = dedupe_from-AreSet env [] ss (λ n k. absurd (k refl)) h

dedupe-Nodup : (ss : List Bytes) → Nodup (dedupe ss)
unfolding dedupe
dedupe-Nodup ss = dedupe_from-Nodup [] ss

dedupe_nonempty : (ss : List Bytes) → is_empty (dedupe ss) ≡ is_empty ss
unfolding dedupe dedupe_from lookup
dedupe_nonempty [] = refl
dedupe_nonempty (s ∷ ss) = refl

-- the errors about a variable that is not set: that of a reference, and that of `resolveSecrets`
abbrev pub fails_unset : Loaded → Bool
fails_unset (unset_references ns) = true
fails_unset (decoded unset_variable) = true
fails_unset _ = false

Parsed-cases : (p : Parsed) → (fails_unset (decoded p) ≡ false) ⊎ (p ≡ unset_variable)
Parsed-cases (accepted c) = inl refl
Parsed-cases unset_variable = inr refl
Parsed-cases (invalid ps) = inl refl

module _ (yaml : Yaml) (parse_url : Bytes → Option Url) where
  parse_root_unset :
      (env : Bytes → Option Bytes) (root : Option Node) {ns : List Bytes}
      → parse_root yaml parse_url env root ≡ unset_references ns
      → (ns ≡ dedupe (expand_root env root).1) × (is_empty ns ≡ false)
  unfolding parse_root
  parse_root_unset env root {ns} h = ground (arith, dedupe_nonempty (expand_root env root).1)

  -- a registry of the document, once its references are replaced, names an unset variable for its
  -- password or its token
  pub record LacksCredential (env : Bytes → Option Bytes) (raw : Bytes) : Type 0 where
    pub root : Option Node
    pub document : yaml.unmarshal raw ≡ some root
    pub config : Config
    pub read : yaml.decode (expand_root env root).0 ≡ some config
    pub lacks : LacksSecret env config.registries

  parse_root_complete :
      (env : Bytes → Option Bytes) (raw : Bytes) (root : Option Node)
      → yaml.unmarshal raw ≡ some root
      → (expand_root env root).1 ≡ []
      → (fails_unset (parse_root yaml parse_url env root) ≡ false)
        ⊎ ((parse_root yaml parse_url env root ≡ decoded unset_variable) × LacksCredential env raw)
  unfolding parse_root
  parse_root_complete env raw root read h = elim (Bool-cases (root_content root)) [
    | inr e ↦ inl (ground (arith, e))
    | inl e ↦ elim (Option-cases (yaml.decode (expand_root env root).0)) [
      | inl bad ↦ inl (ground (arith, e, h, bad))
      | inr (cfg, good) ↦ elim (Parsed-cases (finish parse_url env cfg)) [
        | inl fine ↦ inl (ground (arith, e, h, good, fine))
        | inr bad ↦ inr (
          ground (arith, e, h, good, bad),
          record {
            root = root;
            document = read;
            config = cfg;
            read = good;
            lacks = finish-LacksSecret parse_url env cfg bad;
          },
        )
      ]
    ]
  ]

  -- If Parse fails because of references ${NAME} to unset variables, the names that it reports
  -- are at least one, each once, and each that of a variable that is not set. In an environment
  -- that sets whatever this one sets, and all the names reported, Parse of the same file does
  -- not fail because of an unset variable, or it fails in resolveSecrets, and then some registry
  -- of the decoded document names for its password_env or token_env a variable that this
  -- environment does not set.
  pub parse_unset_references :
      (env more : Bytes → Option Bytes) (raw : Bytes) (ns : List Bytes)
      → parse yaml parse_url env raw ≡ unset_references ns
      → Extends env more
      → AreSet more ns
      → AreUnset env ns
        × Nodup ns
        × (is_empty ns ≡ false)
        × ((fails_unset (parse yaml parse_url more raw) ≡ false)
            ⊎ ((parse yaml parse_url more raw ≡ decoded unset_variable) × LacksCredential more raw))
  unfolding parse
  parse_unset_references env more raw ns h ext set = elim (Option-cases (yaml.unmarshal raw)) [
    | inl e ↦ cc
    | inr (root, e) ↦
        let (same, some_name) = parse_root_unset env root (rw (e, parse) at h) in
        let missing = (expand_root env root).1 in
        (
          subst (AreUnset env) (sym same)
              (dedupe-AreUnset env missing (expand_root-AreUnset env root)),
          subst Nodup (sym same) (dedupe-Nodup missing),
          some_name,
          rw (e, parse)
              (parse_root_complete more raw root e (
                expand_root-set env more ext root
                  (dedupe-AreSet more missing (subst (AreSet more) same set)))),
        )
  ]
