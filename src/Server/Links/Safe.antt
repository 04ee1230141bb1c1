-- ===== src/Server/Links/Safe.antt =====
-- internal/server/handlers.go: `safeReturn` is no open redirect; `splitRepo` and `splitEnv` lose
-- nothing.
use maze_registry_ui.Prelude.{
  ℕ, ◌≡◌, ◌≢◌, ◌≤◌, ◌⊎◌, refl, subst, ap, ◌∙◌, [], ◌∷◌, ◌++◌, Bool, true, false, ◌&&◌, ◌||◌, not,
  ◌==◌, if◌then◌else◌, arith, inl, inr, Bool-cases, ==_iff,
}
use maze_registry_ui.Prelude.Bytes.{Bytes, codes, is_empty}
use maze_registry_ui.Prelude.Prefixes.{has_prefix_split, has_prefix-append}
use maze_registry_ui.Prelude.Text.{has_prefix}
use maze_registry_ui.Server.Links.{
  is_rejected, any_rejected, second_is_slash, safe_return, has_slash, split_repo,
}

-- every byte is printable in ASCII or beyond it, and no backslash
abbrev pub ArePlain : Bytes → Type 0
ArePlain [] = Unit
ArePlain (c ∷ s) = (32 ≤ c) × (c ≢ 92) × (c ≢ 127) × ArePlain s

-- a path that begins with a slash, which no second one follows, of plain bytes, below the base path
pub record IsLocal (base_path p : Bytes) : Type 0 where
  pub path : Bytes
  pub rooted : p ≡ b'/' ∷ path
  pub single : (t : Bytes) → path ≢ b'/' ∷ t
  pub plain : ArePlain p
  pub below : (base_path ≡ []) ⊎ ((t : Bytes) × (p ≡ (base_path ++ codes "/") ++ t))

-- What a browser makes of a URL reference: it leaves out tab, line feed and carriage return, and
-- reads one that then begins with two slashes, of either kind, as the name of another host.
abbrev pub without_breaks : Bytes → Bytes
without_breaks [] = []
without_breaks (c ∷ s) =
    let rest = without_breaks s in if c == 9 || (c == 10 || c == 13) then rest else c ∷ rest

abbrev is_any_slash : ℕ → Bool
is_any_slash c = c == b'/' || c == b'\\'

abbrev pub names_host : Bytes → Bool
names_host (c ∷ d ∷ s) = is_any_slash c && is_any_slash d
names_host _ = false

without_breaks_plain : (p : Bytes) → ArePlain p → without_breaks p ≡ p
without_breaks_plain [] h = refl
without_breaks_plain (c ∷ s) h = ground (arith, without_breaks_plain s h.3)

local_path :
    (path : Bytes)
    → ((t : Bytes) → path ≢ b'/' ∷ t)
    → ArePlain path
    → names_host (b'/' ∷ path) ≡ false
local_path [] h k = refl
local_path (c ∷ s) h k = elim (Bool-cases (c == b'/')) [
  | inl e ↦ absurd (h s (ap (λ x. x ∷ s) ((==_iff c b'/').0 e)))
  | inr e ↦ ground (arith, e)
]

IsLocal-names_host :
    (base_path p : Bytes) → IsLocal base_path p → names_host (without_breaks p) ≡ false
IsLocal-names_host base_path p l =
    rw (without_breaks_plain p l.plain, l.rooted)
      (local_path l.path l.single (subst ArePlain l.rooted l.plain).3)

-- the guards that let a path through
abbrev passes : Bytes → Bytes → Bool
passes base_path p =
    has_prefix (codes "/") p
    && (not (any_rejected p)
        && (not (second_is_slash p)
            && (is_empty base_path || has_prefix (base_path ++ codes "/") p)))

safe_return_kept :
    (base_path fallback p : Bytes)
    → safe_return base_path fallback p ≡ (if passes base_path p then p else fallback)
unfolding safe_return has_prefix
safe_return_kept base_path fallback [] = refl
safe_return_kept base_path fallback (c ∷ s) = ground arith

any_rejected-ArePlain : (p : Bytes) → any_rejected p ≡ false → ArePlain p
unfolding any_rejected is_rejected
any_rejected-ArePlain [] h = tt
any_rejected-ArePlain (c ∷ s) h =
    (ground arith, ground arith, ground arith, any_rejected-ArePlain s (ground arith))

ArePlain-any_rejected : (p : Bytes) → ArePlain p → any_rejected p ≡ false
unfolding any_rejected is_rejected
ArePlain-any_rejected [] h = refl
ArePlain-any_rejected (c ∷ s) h = ground (arith, ArePlain-any_rejected s h.3)

below_of :
    (base p : Bytes)
    → (is_empty base || has_prefix (base ++ codes "/") p) ≡ true
    → (base ≡ []) ⊎ ((t : Bytes) × (p ≡ (base ++ codes "/") ++ t))
below_of [] p h = inl refl
below_of (c ∷ base) p h = inr (has_prefix_split ((c ∷ base) ++ codes "/") p h)

of_below :
    (base p : Bytes)
    → (base ≡ []) ⊎ ((t : Bytes) × (p ≡ (base ++ codes "/") ++ t))
    → (is_empty base || has_prefix (base ++ codes "/") p) ≡ true
of_below [] p h = refl
of_below (c ∷ base) p (inl e) = absurd (ground (arith, ap is_empty e))
of_below (c ∷ base) p (inr (t, e)) = rw e (has_prefix-append ((c ∷ base) ++ codes "/") t)

passes-IsLocal : (base_path p : Bytes) → passes base_path p ≡ true → IsLocal base_path p
unfolding second_is_slash has_prefix
passes-IsLocal base_path [] h = absurd (ground (arith, h))
passes-IsLocal base_path (c ∷ s) h = record {
  path = s;
  rooted = ap (λ x. x ∷ s) ((==_iff c b'/').0 (ground arith));
  single = λ t e. ground (arith, ap (λ x. second_is_slash (c ∷ x)) e);
  plain = any_rejected-ArePlain (c ∷ s) (ground arith);
  below = below_of base_path (c ∷ s) (ground arith);
}

no_second : (c : ℕ) (s : Bytes) → ((t : Bytes) → s ≢ b'/' ∷ t) → second_is_slash (c ∷ s) ≡ false
unfolding second_is_slash
no_second c [] h = refl
no_second c (d ∷ s) h = elim (Bool-cases (d == b'/')) [
  | inl e ↦ absurd (h s (ap (λ x. x ∷ s) ((==_iff d b'/').0 e)))
  | inr e ↦ e
]

IsLocal-passes : (base_path p : Bytes) → IsLocal base_path p → passes base_path p ≡ true
unfolding has_prefix
IsLocal-passes base_path p l =
    let rooted : has_prefix (codes "/") p ≡ true = rw l.rooted refl in
    let single : second_is_slash p ≡ false = rw l.rooted (no_second b'/' l.path l.single) in
    let plain = ArePlain-any_rejected p l.plain in
    let below = of_below base_path p l.below in ground (arith, rooted, single, plain, below)

-- safeReturn gives the path that it was given if this path begins with a slash that no second
-- slash follows, has no backslash and no control character, and lies below the base path if
-- there is one; with its tabs and line breaks left out, as a browser does, such a path does not
-- begin with two slashes or backslashes, which would name a host. For any other path it gives
-- its fallback.
pub safe_return-IsLocal :
    (base_path fallback p : Bytes)
    → ((safe_return base_path fallback p ≡ p)
        × IsLocal base_path p
        × (names_host (without_breaks p) ≡ false))
      ⊎ ((safe_return base_path fallback p ≡ fallback) × ¬ IsLocal base_path p)
safe_return-IsLocal base_path fallback p = elim (Bool-cases (passes base_path p)) [
  | inl e ↦
      let l = passes-IsLocal base_path p e in
      inl (safe_return_kept base_path fallback p ∙ rw e refl, l, IsLocal-names_host base_path p l)
  | inr e ↦ inr (
    safe_return_kept base_path fallback p ∙ rw e refl,
    λ l. ground (arith, e, IsLocal-passes base_path p l),
  )
]

-- The short name that splitRepo gives has no slash, and the namespace, a slash and the short
-- name make up the name, or the short name alone if the name has no slash.
split_repo-join :
    (name : Bytes)
    → (name ≡ (
        if has_slash name
        then (split_repo name).0 ++ codes "/" ++ (split_repo name).1
        else (split_repo name).1))
      × (has_slash (split_repo name).1 ≡ false)
unfolding split_repo
split_repo-join [] = (refl, refl)
split_repo-join (c ∷ s) =
    let (parts, last) = split_repo-join s in
    elim (Bool-cases (has_slash s)) [
      | inl later ↦ elim (Bool-cases (c == b'/')) [
        | inl e ↦ rw (e, later) (ap (◌∷◌ c) (parts ∙ rw later refl), last)
        | inr e ↦ rw (e, later) (ap (◌∷◌ c) (parts ∙ rw later refl), last)
      ]
      | inr none_left ↦ elim (Bool-cases (c == b'/')) [
        | inl e ↦ rw (e, none_left) (ap (λ x. x ∷ s) ((==_iff c b'/').0 e), none_left)
        | inr e ↦ rw (e, none_left) (refl, rw (e, none_left) refl)
      ]
    ]
