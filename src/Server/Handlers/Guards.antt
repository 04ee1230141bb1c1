-- ===== src/Server/Handlers/Guards.antt =====
-- internal/server/handlers.go: what `handleDelete` lets through to the client.
use maze_registry_ui.Prelude.{
  ℕ, ◌≤◌, ◌<◌, ◌≡◌, ◌≢◌, ◌⊎◌, refl, sym, ap, subst, ◌∙◌, inl, inr, [], ◌∷◌, Bool, ◌&&◌, ◌||◌, not,
  Option, none, some, true, false, if◌then◌else◌, arith, Bool-cases, Option-cases, if_true,
  if_false,
}
use maze_registry_ui.Prelude.Bytes.{Bytes, codes, bytes_eq, bytes_eq_iff, is_empty}
use maze_registry_ui.Config.{Config, Registry, find_registry}
use maze_registry_ui.Registry.Client.{Setup, Client, Outcome, done, fail, ClientError}
use maze_registry_ui.Registry.Client.Content.{delete_manifest}
use maze_registry_ui.Server.Catalog.{invalidate}
use maze_registry_ui.Server.Handlers.{
  Request, same_origin_post, Reply, error_page, redirect, App, update, after_delete, delete_from,
  with_registry, handle_delete,
}

empty_or : (s t : Bytes) → (not (is_empty s) && not (bytes_eq s t)) ≡ false → (s ≡ []) ⊎ (s ≡ t)
empty_or [] t h = inl refl
empty_or (x ∷ s) t h = inr ((bytes_eq_iff (x ∷ s) t).0 (ground (arith, h)))

not_empty : (s : Bytes) → is_empty s ≡ false → s ≢ []
not_empty [] h = cc
not_empty (x ∷ s) h = λ e. cc

neither : (a b : Bool) → (a || b) ≡ false → (a ≡ false) × (b ≡ false)
neither a b h = ground (arith, h)

-- the form comes from the user interface itself
abbrev pub IsSameOrigin : Request → Bytes → Type 0
IsSameOrigin r token =
    ((r.sec_fetch_site ≡ []) ⊎ (r.sec_fetch_site ≡ codes "same-origin")) × (r.csrf ≡ token)

same_origin_post-IsSameOrigin :
    (r : Request) (token : Bytes) → same_origin_post r token ≡ true → IsSameOrigin r token
unfolding same_origin_post
same_origin_post-IsSameOrigin r token h =
    elim (Bool-cases
      (not (is_empty r.sec_fetch_site) && not (bytes_eq r.sec_fetch_site (codes "same-origin")))) [
        | inl cross ↦ absurd (ground (arith, h, cross))
        | inr same ↦ (
          empty_or r.sec_fetch_site (codes "same-origin") same,
          (bytes_eq_iff r.csrf token).0 (sym (if_false _ false (bytes_eq r.csrf token) same) ∙ h),
        )
      ]

module _ {E S W : Type 0} (setup : Bytes → Setup E S) (cfg : Config) (token : Bytes)
    (is_unauthorized : E → Bool) where
  -- the handler answers by an error page and changes nothing
  pub record IsRejected (app : App E S W) (out : App E S W × Reply) : Type 0 where
    pub untouched : out.0 ≡ app
    pub refusal : (n : ℕ) × (out.1 ≡ error_page n) × (400 ≤ n) × (n < 500)

  -- An error of the client is shown, and the list of repositories kept; else this list is
  -- invalidated, and the browser redirected.
  abbrev pub IsAnswered :
      Registry → App E S W → Client S × Outcome E Unit → App E S W × Reply → Type 0
  IsAnswered reg app result out =
      ((e : ClientError E) × (result.1 ≡ fail e)
        × (out ≡ (record app { clients = update reg.id result.0 app.clients }, error_page 502)))
      ⊎ ((result.1 ≡ done tt)
          × (out.0 ≡ record app {
            clients = update reg.id result.0 app.clients;
            catalogs = update reg.id (invalidate (app.catalogs reg.id)) app.catalogs;
          })
          × (target : Bytes) × (out.1 ≡ redirect target))

  -- the client of the registry was asked to delete
  pub record IsForwarded (r : Request) (app : App E S W) (out : App E S W × Reply) : Type 0 where
    pub reg : Registry
    pub found : find_registry r.rid cfg.registries ≡ some reg
    pub enabled : reg.delete_enabled ≡ true
    pub same_origin : IsSameOrigin r token
    pub named : (r.repo ≢ []) × (r.digest ≢ [])
    pub effect :
        IsAnswered reg app (delete_manifest (setup reg.id) r.repo r.digest (app.clients reg.id)) out

  rejected :
      (app : App E S W) (out : App E S W × Reply) (n : ℕ)
      → out ≡ (app, error_page n)
      → 400 ≤ n
      → n < 500
      → IsRejected app out
  rejected app out n e a b =
      subst (IsRejected app) (sym e) (record { untouched = refl; refusal = (n, refl, a, b) })

  after_delete-IsAnswered :
      (r : Request) (reg : Registry) (app : App E S W) (result : Client S × Outcome E Unit)
      → IsAnswered reg app result (after_delete setup cfg token is_unauthorized r reg app result)
  unfolding after_delete
  after_delete-IsAnswered r reg app (c, fail e) = inl (e, refl, refl)
  after_delete-IsAnswered r reg app (c, done _) = inr (refl, refl, _, refl)

  -- what is left of `handleDelete` after each of its guards
  abbrev asked : Request → Registry → App E S W → App E S W × Reply
  asked r reg app =
      after_delete setup cfg token is_unauthorized r reg app
        (delete_manifest (setup reg.id) r.repo r.digest (app.clients reg.id))

  abbrev named_part : Request → Registry → App E S W → App E S W × Reply
  named_part r reg app =
      if is_empty r.repo || is_empty r.digest then (app, error_page 400) else asked r reg app

  abbrev origin_part : Request → Registry → App E S W → App E S W × Reply
  origin_part r reg app =
      if not (same_origin_post r token) then (app, error_page 403) else named_part r reg app

  delete_from_lem :
      (r : Request) (reg : Registry) (app : App E S W)
      → delete_from setup cfg token is_unauthorized r reg app
        ≡ (if not reg.delete_enabled then (app, error_page 403) else origin_part r reg app)
  unfolding delete_from
  delete_from_lem r reg app = refl

  with_registry_lem :
      (rid : Bytes) (next : Registry → App E S W → App E S W × Reply) (app : App E S W)
      → with_registry setup cfg token is_unauthorized (error_page 404) rid next app
        ≡ elim (find_registry rid cfg.registries) [
          | none ↦ (app, error_page 404)
          | some reg ↦ next reg app
        ]
  unfolding with_registry
  with_registry_lem rid next app = refl

  forwarded :
      (r : Request) (reg : Registry) (app : App E S W) (out : App E S W × Reply)
      → find_registry r.rid cfg.registries ≡ some reg
      → reg.delete_enabled ≡ true
      → same_origin_post r token ≡ true
      → (is_empty r.repo || is_empty r.digest) ≡ false
      → out ≡ asked r reg app
      → IsForwarded r app out
  forwarded r reg app out found on origin full e =
      let (has_repo, has_digest) = neither (is_empty r.repo) (is_empty r.digest) full in
      let result = delete_manifest (setup reg.id) r.repo r.digest (app.clients reg.id) in
      record {
        reg = reg;
        found = found;
        enabled = on;
        same_origin = same_origin_post-IsSameOrigin r token origin;
        named = (not_empty r.repo has_repo, not_empty r.digest has_digest);
        effect =
            subst (IsAnswered reg app result) (sym e) (after_delete-IsAnswered r reg app result);
      }

  delete_from_cases :
      (r : Request) (reg : Registry) (app : App E S W)
      → find_registry r.rid cfg.registries ≡ some reg
      → IsRejected app (delete_from setup cfg token is_unauthorized r reg app)
        ⊎ IsForwarded r app (delete_from setup cfg token is_unauthorized r reg app)
  delete_from_cases r reg app found =
      let start = delete_from_lem r reg app in
      let out = delete_from setup cfg token is_unauthorized r reg app in
      let off_page : App E S W × Reply = (app, error_page 403) in
      elim (Bool-cases reg.delete_enabled) [
        | inr off ↦ inl (
            rejected app out 403
              (start
                ∙ if_true (not reg.delete_enabled) off_page (origin_part r reg app) (ap not off))
              (omega arith) (omega arith))
        | inl on ↦
            let enabled : out ≡ origin_part r reg app =
              start
              ∙ if_false (not reg.delete_enabled) off_page (origin_part r reg app) (ap not on) in
            elim (Bool-cases (same_origin_post r token)) [
              | inr cross ↦ inl (
                  rejected app out 403
                    (enabled
                      ∙ if_true (not (same_origin_post r token)) off_page (named_part r reg app)
                          (ap not cross))
                    (omega arith) (omega arith))
              | inl origin ↦
                  let same : out ≡ named_part r reg app =
                    enabled
                    ∙ if_false (not (same_origin_post r token)) off_page (named_part r reg app)
                        (ap not origin) in
                  elim (Bool-cases (is_empty r.repo || is_empty r.digest)) [
                    | inl missing ↦ inl (
                        rejected app out 400
                          (same ∙ if_true _ (app, error_page 400) (asked r reg app) missing)
                          (omega arith) (omega arith))
                    | inr full ↦ inr (
                        forwarded r reg app out found on origin full
                          (same ∙ if_false _ (app, error_page 400) (asked r reg app) full))
                  ]
            ]
      ]

  -- handleDelete answers by an error page of status 400 to 499 and changes nothing, or the
  -- registry is configured and allows deletion, the form carries the token of the server, the
  -- browser did not name another site as its origin, and a repository and a digest are given.
  -- Then it calls DeleteManifest of the client of this registry: an error gives status 502 and
  -- keeps the list of repositories, and otherwise this list is invalidated for this registry
  -- only and the browser redirected.
  pub handle_delete_cases :
      (r : Request) (app : App E S W)
      → IsRejected app (handle_delete setup cfg token is_unauthorized r app)
        ⊎ IsForwarded r app (handle_delete setup cfg token is_unauthorized r app)
  unfolding handle_delete
  handle_delete_cases r app =
      let next = delete_from setup cfg token is_unauthorized r in
      let pick = λ (o : Option Registry). elim o as (λ _. App E S W × Reply) [
        | none ↦ (app, error_page 404)
        | some reg ↦ next reg app
      ] in
      let start = with_registry_lem r.rid next app in
      elim (Option-cases (find_registry r.rid cfg.registries)) [
        | inl unknown ↦
            inl (rejected app _ 404 (start ∙ ap pick unknown) (omega arith) (omega arith))
        | inr (reg, found) ↦
            subst (λ x. IsRejected app x ⊎ IsForwarded r app x) (sym (start ∙ ap pick found))
              (delete_from_cases r reg app found)
      ]
