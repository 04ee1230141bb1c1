-- ===== src/Config/Expand/Secrets.antt =====
-- internal/config/config.go: why `resolveSecrets` fails.
use maze_registry_ui.Prelude.{
  ◌≡◌, refl, List, [], ◌∷◌, map, Option, none, arith, Option-cases, inl, inr, false,
}
use maze_registry_ui.Prelude.Bytes.{Bytes, is_empty}
use maze_registry_ui.Config.{
  Url, Registry, Config, registry_defaults, apply_defaults, resolve_secret, resolve_auth,
  resolve_registries, resolve_secrets, finish, unset_variable,
}

-- a registry of the list names the variable as that of its password or of its token
pub data Names (name : Bytes) : List Registry → Type 0 where
  password_env :
      (r : Registry) (rs : List Registry) → r.auth.password_env ≡ name → Names name (r ∷ rs)
  token_env : (r : Registry) (rs : List Registry) → r.auth.token_env ≡ name → Names name (r ∷ rs)
  later : (r : Registry) (rs : List Registry) → Names name rs → Names name (r ∷ rs)

-- a variable that a registry names for its password or its token is not set
pub record LacksSecret (env : Bytes → Option Bytes) (rs : List Registry) : Type 0 where
  pub name : Bytes
  pub given : is_empty name ≡ false
  pub named : Names name rs
  pub unset : env name ≡ none

resolve_secret-none :
    (env : Bytes → Option Bytes) (name value : Bytes)
    → resolve_secret env name value ≡ none
    → (is_empty name ≡ false) × (env name ≡ none)
unfolding resolve_secret
resolve_secret-none env name value h = (ground (arith, h), ground (arith, h))

resolve_auth-none :
    (env : Bytes → Option Bytes) (r d : Registry) (rs : List Registry)
    → r.auth.password_env ≡ d.auth.password_env
    → r.auth.token_env ≡ d.auth.token_env
    → resolve_auth env d.auth ≡ none
    → LacksSecret env (r ∷ rs)
unfolding resolve_auth
resolve_auth-none env r d rs p t h =
    elim (Option-cases (resolve_secret env d.auth.password_env d.auth.password)) [
      | inl e ↦
          let (given, unset) = resolve_secret-none env d.auth.password_env d.auth.password e in
          record {
            name = d.auth.password_env;
            given = given;
            named = password_env r rs p;
            unset = unset;
          }
      | inr (v, e) ↦
          let (given, unset) =
            resolve_secret-none env d.auth.token_env d.auth.token (ground (arith, e, h)) in
          record { name = d.auth.token_env; given = given; named = token_env r rs t; unset = unset }
    ]

-- the defaults leave the names of the variables
registry_defaults_secrets :
    (parse_url : Bytes → Option Url) (env : Bytes → Option Bytes) (rs : List Registry)
    → resolve_registries env (map (registry_defaults parse_url) rs) ≡ none
    → LacksSecret env rs
unfolding resolve_registries registry_defaults resolve_auth
registry_defaults_secrets parse_url env [] h = absurd (ground (arith, h))
registry_defaults_secrets parse_url env (r ∷ rs) h =
    elim (Option-cases (resolve_auth env (registry_defaults parse_url r).auth)) [
      | inl e ↦ resolve_auth-none env r (registry_defaults parse_url r) rs refl refl e
      | inr (a, e) ↦
          let rest = registry_defaults_secrets parse_url env rs (ground (arith, e, h)) in
          record {
            name = rest.name;
            given = rest.given;
            named = later r rs rest.named;
            unset = rest.unset;
          }
    ]

pub finish-LacksSecret :
    (parse_url : Bytes → Option Url) (env : Bytes → Option Bytes) (c : Config)
    → finish parse_url env c ≡ unset_variable
    → LacksSecret env c.registries
unfolding finish apply_defaults resolve_secrets
finish-LacksSecret parse_url env c h =
    registry_defaults_secrets parse_url env c.registries (ground (arith, h))
