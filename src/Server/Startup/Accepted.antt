-- ===== src/Server/Startup/Accepted.antt =====
-- internal/server/server.go: `New` on a configuration that `Parse` accepts.
use maze_registry_ui.Prelude.{
  ◌≡◌, ◌≢◌, refl, sym, subst, List, [], ◌∷◌, true, false, Option, none, some, arith, inl, inr,
  Bool-cases, Option-cases,
}
use maze_registry_ui.Prelude.Assoc.{lookup, insert, lookup-insert}
use maze_registry_ui.Prelude.Bytes.{Bytes, codes, bytes_eq, bytes_eq_iff, bytes_eq_refl, is_empty}
use maze_registry_ui.Prelude.Text.{trim_space, trim_right, cut_suffix}
use maze_registry_ui.Config.{Config, Registry, Url, is_valid_url, one_of, finish, accepted}
use maze_registry_ui.Config.Valid.{IsUsable, AllUsable, finish-IsServable}
use maze_registry_ui.Registry.Options.{
  is_slash, BaseUrls, Options, made, NewClient, is_known_auth, normalise_url, normalise_base_url,
  built, new_client,
}
use maze_registry_ui.Server.Startup.{client_options, running, url_parts, new_clients}

-- no URL has white space around it
abbrev pub AreTrimmed : List Registry → Type 0
AreTrimmed [] = Unit
AreTrimmed (r ∷ rs) = (trim_space r.url ≡ r.url) × AreTrimmed rs

-- each registry has a client
abbrev pub HaveClients : List (Bytes × NewClient) → List Registry → Type 0
HaveClients m [] = Unit
HaveClients m (r ∷ rs) = (lookup r.id m ≢ none) × HaveClients m rs

v2_unlike : (p : Bytes) → cut_suffix (codes "/v2") p ≡ none → bytes_eq p (codes "/v2") ≡ false
unfolding cut_suffix
v2_unlike p h = elim (Bool-cases (bytes_eq p (codes "/v2"))) [
  | inl e ↦
      let h' : cut_suffix (codes "/v2") (codes "/v2") ≡ none =
        subst (λ q. cut_suffix (codes "/v2") q ≡ none) ((bytes_eq_iff p (codes "/v2")).0 e) h in
      cc
  | inr e ↦ e
]

-- the three auth types that `Validate` lets pass are known to the client
auth_accepted :
    (parse_url : Bytes → Option Url) (r : Registry)
    → IsUsable parse_url r
    → is_known_auth r.auth.type ≡ true
unfolding is_known_auth bytes_eq
auth_accepted parse_url r v = elim v.credentials [
  | inl e ↦ subst (λ t. is_known_auth t ≡ true) (sym e) refl
  | inr (inl (e, _)) ↦ subst (λ t. is_known_auth t ≡ true) (sym e) refl
  | inr (inr (e, _)) ↦ subst (λ t. is_known_auth t ≡ true) (sym e) refl
]

module _ (net : BaseUrls) where
  normalise_accepted :
      (raw : Bytes) (u : net.Url)
      → one_of (codes "http" ∷ codes "https" ∷ []) (net.scheme u) ≡ true
      → is_empty (net.host u) ≡ false
      → cut_suffix (codes "/v2") (trim_right is_slash (net.path u)) ≡ none
      → normalise_url net raw u ≡ made (net.print (trim_right is_slash (net.path u)) u)
  unfolding normalise_url one_of
  normalise_accepted raw u scheme host path =
      ground (arith, scheme, host, path, v2_unlike (trim_right is_slash (net.path u)))

  url_accepted :
      (raw : Bytes)
      → is_valid_url (url_parts net) raw ≡ true
      → (u : net.Url) × (net.parse raw ≡ some u)
        × (normalise_url net raw u ≡ made (net.print (trim_right is_slash (net.path u)) u))
  unfolding is_valid_url url_parts
  url_accepted raw h = elim (Option-cases (net.parse raw)) [
    | inl e ↦ absurd (ground arith)
    | inr (u, e) ↦ (u, e, normalise_accepted raw u (ground arith) (ground arith) (ground arith))
  ]

  base_accepted :
      (raw : Bytes)
      → is_empty raw ≡ false
      → trim_space raw ≡ raw
      → is_valid_url (url_parts net) raw ≡ true
      → (base : Bytes) × (normalise_base_url net raw ≡ made base)
  unfolding normalise_base_url
  base_accepted raw given t h =
      let (u, parsed, normal) = url_accepted raw h in
      (
        net.print (trim_right is_slash (net.path u)) u,
        rw (t, given, normalise_base_url) (rw (parsed, normalise_base_url) (rw t normal)),
      )

  made_with :
      (o : Options) (base : Bytes)
      → normalise_base_url net o.base_url ≡ made base
      → is_known_auth o.auth.type ≡ true
      → (c : NewClient) × (new_client net o ≡ made c)
  unfolding new_client
  made_with o base h k = (built o base, rw (h, new_client, k) refl)

  client_accepted :
      (user_agent : Bytes) (r : Registry)
      → IsUsable (url_parts net) r
      → trim_space r.url ≡ r.url
      → (c : NewClient) × (new_client net (client_options user_agent r) ≡ made c)
  unfolding client_options
  client_accepted user_agent r v t =
      let (base, normal) = base_accepted r.url v.linked t v.reachable in
      made_with (client_options user_agent r) base normal (auth_accepted (url_parts net) r v)

  clients_accepted :
      (user_agent : Bytes) (rs : List Registry) (clients : List (Bytes × NewClient))
      → AllUsable (url_parts net) rs
      → AreTrimmed rs
      → (m : List (Bytes × NewClient)) × (new_clients net user_agent rs clients ≡ running m)
        × HaveClients m rs
        × ((id : Bytes) → lookup id clients ≢ none → lookup id m ≢ none)
  unfolding new_clients
  clients_accepted user_agent [] clients v t = (clients, refl, tt, λ id h. h)
  clients_accepted user_agent (r ∷ rs) clients v t =
      let (c, fresh) = client_accepted user_agent r v.0 t.0 in
      let (m, runs, all, kept) = clients_accepted user_agent rs (insert r.id c clients) v.1 t.1 in
      (
        m,
        rw (fresh, new_clients) runs,
        (
          kept r.id (λ e. ground (arith, lookup-insert r.id r.id c clients, bytes_eq_refl r.id)),
          all,
        ),
        λ id h. kept id (λ e. ground (arith, lookup-insert r.id id c clients)),
      )

  -- If Parse accepts a configuration, and no URL of its registries has white space around it,
  -- New builds a client for each of its registries without an error: what Validate lets through
  -- is what registry.New takes.
  pub finish-new_clients :
      (env : Bytes → Option Bytes) (user_agent : Bytes) (c d : Config)
      → finish (url_parts net) env c ≡ accepted d
      → AreTrimmed d.registries
      → (m : List (Bytes × NewClient)) × (new_clients net user_agent d.registries [] ≡ running m)
        × HaveClients m d.registries
  finish-new_clients env user_agent c d h t =
      let v = finish-IsServable (url_parts net) env c d h in
      let (m, runs, all, _) = clients_accepted user_agent d.registries [] v.usable t in
      (m, runs, all)
