-- ===== src/Config/Valid.antt =====
-- internal/config/config.go: what a configuration that passes `Validate` is like.
use mathlib.Core.List.{
  Mem, Nodup, Nodup-cons, Nodup-nil, not-mem-nil, mem-cons_self, mem-cons_of_mem,
  eq-or-mem_of_mem-cons,
}
use mathlib.Core.Logic.Or
use maze_registry_ui.Prelude.{
  ℕ, ◌+◌, ◌≡◌, ◌≢◌, ◌⊎◌, refl, List, [], ◌∷◌, ◌++◌, Bool, true, false, ◌&&◌, not, Option, some,
  arith, inl, inr, subst, Bool-cases, Option-cases,
}
use maze_registry_ui.Prelude.Bytes.{Bytes, codes, bytes_eq, bytes_eq_iff, is_empty}
use maze_registry_ui.Config.{
  Config, Registry, Auth, Url, Problem, no_registries, theme_problems, level_problems,
  default_problems, when, validate, validate_registries, validate_id, validate_url, validate_auth,
  is_valid_url, one_of, ids, find_registry, default, finish, accepted, apply_defaults,
  resolve_secrets,
}
use maze_registry_ui.Config.Target.{IsTarget, is_valid_url-IsTarget}

-- A registry that passes: it has an id, a usable URL and the credentials that its kind needs.
pub record IsUsable (parse_url : Bytes → Option Url) (r : Registry) : Type 0 where
  pub named : r.id ≢ []
  pub linked : is_empty r.url ≡ false
  pub reachable : is_valid_url parse_url r.url ≡ true
  pub target : IsTarget parse_url r.url
  pub credentials :
      (r.auth.type ≡ codes "none")
      ⊎ (((r.auth.type ≡ codes "basic") × (r.auth.username ≢ []))
          ⊎ ((r.auth.type ≡ codes "bearer") × (r.auth.token ≢ [])))

append_nil_split {ℓ} : {A : Type ℓ} (xs ys : List A) → xs ++ ys ≡ [] → (xs ≡ []) × (ys ≡ [])
append_nil_split [] ys h = (refl, h)
append_nil_split (x ∷ xs) ys h = ground arith

when_nil : (b : Bool) (p : Problem) → when b p ≡ [] → b ≡ false
when_nil true p h = ground arith
when_nil false p h = refl

nonempty {ℓ} : {A : Type ℓ} (s : List A) → is_empty s ≡ false → s ≢ []
nonempty [] h = λ e. ground arith
nonempty (c ∷ s) h = λ e. ground arith

head_of {ℓ} : {A : Type ℓ} (l : List A) → l ≢ [] → (x : A) × (xs : List A) × (l ≡ x ∷ xs)
head_of [] h = absurd (h refl)
head_of (x ∷ xs) h = (x, xs, refl)

empty_of : (s : Bytes) → (not (is_empty s) && true) ≡ false → s ≡ []
empty_of [] h = refl
empty_of (c ∷ s) h = ground arith

auth_usable :
    (i : ℕ) (a : Auth)
    → validate_auth i a ≡ []
    → (a.type ≡ codes "none")
      ⊎ (((a.type ≡ codes "basic") × (a.username ≢ []))
          ⊎ ((a.type ≡ codes "bearer") × (a.token ≢ [])))
unfolding validate_auth
auth_usable i a h = elim (Bool-cases (bytes_eq a.type (codes "none"))) [
  | inl e ↦ inl ((bytes_eq_iff _ _).0 e)
  | inr n ↦ elim (Bool-cases (bytes_eq a.type (codes "basic"))) [
    | inl e ↦
        inr (inl ((bytes_eq_iff _ _).0 e, nonempty a.username (when_nil _ _ (rw (n, e) at h))))
    | inr b ↦ elim (Bool-cases (bytes_eq a.type (codes "bearer"))) [
      | inl e ↦
          inr (inr ((bytes_eq_iff _ _).0 e, nonempty a.token (when_nil _ _ (rw (n, b, e) at h))))
      | inr t ↦ ground (arith, rw (n, b, t) at h)
    ]
  ]
]

url_given :
    (parse_url : Bytes → Option Url) (i : ℕ) (raw : Bytes)
    → validate_url parse_url i raw ≡ []
    → is_empty raw ≡ false
unfolding validate_url
url_given parse_url i raw h = ground arith

url_usable :
    (parse_url : Bytes → Option Url) (i : ℕ) (raw : Bytes)
    → validate_url parse_url i raw ≡ []
    → is_valid_url parse_url raw ≡ true
unfolding validate_url
url_usable parse_url i raw h = elim (Bool-cases (is_empty raw)) [
  | inl e ↦ ground (arith, rw e at h)
  | inr n ↦ elim (Bool-cases (is_valid_url parse_url raw)) [
    | inl v ↦ v
    | inr bad ↦ ground (arith, rw (n, bad) at h)
  ]
]

id_usable :
    (seen : List Bytes) (i : ℕ) (id : Bytes)
    → validate_id seen i id ≡ []
    → (id ≢ []) × (one_of seen id ≡ false)
unfolding validate_id
id_usable seen i id h = elim (Bool-cases (is_empty id)) [
  | inl e ↦ ground (arith, rw e at h)
  | inr n ↦ (nonempty id n, when_nil _ _ (rw n at h))
]

one_of_mem : (seen : List Bytes) (id : Bytes) → Mem id seen → one_of seen id ≡ true
unfolding one_of
one_of_mem [] id m = absurd (not-mem-nil m)
one_of_mem (x ∷ xs) id m =
    Or.elim (hlevel) (eq-or-mem_of_mem-cons m) (λ e. ground (arith, bytes_eq_iff id x, e))
      (λ t. ground (arith, one_of_mem xs id t))

find_one_of :
    (id : Bytes) (rs : List Registry)
    → one_of (ids rs) id ≡ true
    → (r : Registry) × (find_registry id rs ≡ some r) × (r.id ≡ id)
unfolding one_of find_registry
find_one_of id [] h = ground arith
find_one_of id (r ∷ rs) h = elim (Bool-cases (bytes_eq r.id id)) [
  | inl e ↦ (r, rw e refl, (bytes_eq_iff r.id id).0 e)
  | inr n ↦
      let (q, e, same) =
        find_one_of id rs (ground (arith, bytes_eq_iff r.id id, bytes_eq_iff id r.id, n)) in
      (q, rw n e, same)
]

abbrev pub AllUsable : (Bytes → Option Url) → List Registry → Type 0
AllUsable parse_url [] = Unit {0}
AllUsable parse_url (r ∷ rs) = IsUsable parse_url r × AllUsable parse_url rs

-- The ids that a list of registries without problems has: once each, and none seen before.
registries_usable :
    (parse_url : Bytes → Option Url) (seen : List Bytes) (i : ℕ) (rs : List Registry)
    → validate_registries parse_url seen i rs ≡ []
    → AllUsable parse_url rs × Nodup (ids rs) × ((id : Bytes) → Mem id seen → ¬ Mem id (ids rs))
unfolding validate_registries
registries_usable parse_url seen i [] h = (tt, Nodup-nil, λ id m n. not-mem-nil n)
registries_usable parse_url seen i (r ∷ rs) h =
    let (named, h₁) = append_nil_split _ _ h in
    let (reachable, h₂) = append_nil_split _ _ h₁ in
    let (credentials, h₃) = append_nil_split _ _ h₂ in
    let (id, fresh) = id_usable seen i r.id named in
    let (rest, distinct, new) = registries_usable parse_url (r.id ∷ seen) (i + 1) rs h₃ in
    (
      (
        record {
          named = id;
          linked = url_given parse_url i r.url reachable;
          reachable = url_usable parse_url i r.url reachable;
          target = is_valid_url-IsTarget parse_url r.url (url_usable parse_url i r.url reachable);
          credentials = auth_usable i r.auth credentials;
        },
        rest,
      ),
      Nodup-cons.1 (new r.id mem-cons_self, distinct),
      λ k m n.
          Or.elim (hlevel) (eq-or-mem_of_mem-cons n)
            (λ e. ground (arith, one_of_mem seen r.id (subst (λ x. Mem x seen) e m), fresh))
            (λ later. new k (mem-cons_of_mem r.id m) later),
    )

-- What the server relies on: there are registries, they are usable and their ids distinct, and
-- the default is one of them, the one that is named if any is.
pub record IsServable (parse_url : Bytes → Option Url) (c : Config) : Type 0 where
  pub some_registry : c.registries ≢ []
  pub usable : AllUsable parse_url c.registries
  pub distinct : Nodup (ids c.registries)
  pub initial :
      (r : Registry) × (default c ≡ some r)
      × ((c.ui.default_registry ≡ []) ⊎ (r.id ≡ c.ui.default_registry))

List-cases {ℓ} : {A : Type ℓ} (l : List A) → (l ≡ []) ⊎ ((x : A) × (xs : List A) × (l ≡ x ∷ xs))
List-cases [] = inl refl
List-cases (x ∷ xs) = inr (x, xs, refl)

default_found :
    (c : Config)
    → c.registries ≢ []
    → (not (is_empty c.ui.default_registry)
        && not (one_of (ids c.registries) c.ui.default_registry))
      ≡ false
    → (r : Registry) × (default c ≡ some r)
      × ((c.ui.default_registry ≡ []) ⊎ (r.id ≡ c.ui.default_registry))
unfolding default
default_found c full h = elim (Bool-cases (one_of (ids c.registries) c.ui.default_registry)) [
  | inl e ↦
      let (r, found, same) = find_one_of c.ui.default_registry c.registries e in
      (r, rw (found, default) refl, inr same)
  | inr e ↦
      let unnamed = empty_of c.ui.default_registry (rw e at h) in
      let (r, rs, listed) = head_of c.registries full in
      elim (Option-cases (find_registry c.ui.default_registry c.registries)) [
        | inl missing ↦ (r, rw (missing, default, listed) refl, inl unnamed)
        | inr (q, found) ↦ (q, rw (found, default) refl, inl unnamed)
      ]
]

validate-IsServable :
    (parse_url : Bytes → Option Url) (c : Config)
    → validate parse_url c ≡ []
    → IsServable parse_url c
unfolding validate
validate-IsServable parse_url c h =
    let (full, h₁) = append_nil_split (when (is_empty c.registries) no_registries) _ h in
    let (theme, h₂) = append_nil_split (theme_problems c) _ h₁ in
    let (level, h₃) = append_nil_split (level_problems c) _ h₂ in
    let (each, named) =
      append_nil_split (validate_registries parse_url [] 0 c.registries) (default_problems c) h₃ in
    let (usable, distinct, _) = registries_usable parse_url [] 0 c.registries each in
    let some_registry : c.registries ≢ [] = nonempty c.registries (when_nil _ _ full) in
    record {
      some_registry = some_registry;
      usable = usable;
      distinct = distinct;
      initial = default_found c some_registry (when_nil _ _ named);
    }

-- A configuration that Parse accepts has a registry; each of its registries has an id, an http
-- or https URL with a host, whose path does not end in /v2 once the slashes at its end are cut,
-- and the credentials that its auth type needs; the ids are distinct; and Default does not panic
-- and gives the registry that ui.default_registry names if it names one.
pub finish-IsServable :
    (parse_url : Bytes → Option Url) (env : Bytes → Option Bytes) (c d : Config)
    → finish parse_url env c ≡ accepted d
    → IsServable parse_url d
unfolding finish
finish-IsServable parse_url env c d h =
    elim (Option-cases (resolve_secrets env (apply_defaults parse_url c))) [
      | inl unset ↦ ground (arith, rw (unset, finish) at h)
      | inr (e, resolved) ↦ elim (List-cases (validate parse_url e)) [
        | inl clean ↦
            let same : e ≡ d = ground (arith, rw (resolved, finish, clean) at h) in
            validate-IsServable parse_url d (subst (λ x. validate parse_url x ≡ []) same clean)
        | inr (p, ps, wrong) ↦ ground (arith, rw (resolved, finish, wrong) at h)
      ]
    ]
