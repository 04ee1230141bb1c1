-- ===== src/Server/Visits/Same.antt =====
-- internal/server/handlers.go: one request, in two states that agree on the registry it is for.
use maze_registry_ui.Prelude.{
  ℕ, ◌≡◌, refl, sym, ap, subst, ◌∙◌, List, Bool, true, false, ◌||◌, not, some, if◌then◌else◌, arith,
  Option-cases, inl, inr,
}
use maze_registry_ui.Prelude.Assoc.{lookup, insert, lookup-insert}
use maze_registry_ui.Prelude.Bytes.{Bytes, bytes_eq_iff, bytes_eq_refl, is_empty}
use maze_registry_ui.Config.{Config, Registry, find_registry}
use maze_registry_ui.Registry.Client.{Setup, Client, Outcome, done, fail}
use maze_registry_ui.Registry.Client.Content.{delete_manifest}
use maze_registry_ui.Registry.Client.Pages.{ping}
use maze_registry_ui.Server.Catalog.{invalidate}
use maze_registry_ui.Server.Handlers.{
  Request, App, HealthState, update, with_registry, delete_from, after_delete, same_origin_post,
  Reply, error_page, probe, health_of, health_get, health_set,
}
use maze_registry_ui.Server.Visits.Apart.{IsKept, found_id}

update_self : {A : Type 0} (k : Bytes) (v : A) (m : Bytes → A) → update k v m k ≡ v
update_self k v m = ground (arith, bytes_eq_refl k)

-- where the values that are written are the same
pub update_same :
    {A : Type 0} (k : Bytes) (v w : A) (m n : Bytes → A) → v ≡ w → update k v m k ≡ update k w n k
update_same k v w m n e = update_self k v m ∙ (e ∙ sym (update_self k w n))

either_same :
    {E S W A : Type 0} (j : Bytes) (b : Bool) (x y x' y' : App E S W × A)
    → IsKept j x.0 x'.0
    → IsKept j y.0 y'.0
    → IsKept j (if b then x else y).0 (if b then x' else y').0
either_same j true x y x' y' p q = p
either_same j false x y x' y' p q = q

health_get_same :
    (now : ℕ) (id : Bytes) (h h' : List (Bytes × HealthState))
    → lookup id h' ≡ lookup id h
    → health_get now id h' ≡ health_get now id h
unfolding health_get
health_get_same now id h h' e = rw (e, health_get) refl

insert_same :
    {V : Type 0} (k : Bytes) (v w : V) (m n : List (Bytes × V))
    → v ≡ w
    → lookup k (insert k v m) ≡ lookup k (insert k w n)
insert_same k v w m n e =
    let self : (u : _) (l : List (Bytes × _)) → lookup k (insert k u l) ≡ some u =
      λ u l. lookup-insert k k u l ∙ rw (bytes_eq_refl k) refl in
    self v m ∙ (ap (λ u. some u) e ∙ sym (self w n))

module _ {E S : Type 0} (setup : Bytes → Setup E S) (cfg : Config) (token : Bytes)
    (is_unauthorized : E → Bool) {W : Type 0} where
  pub with_registry_same :
      {A : Type 0} (missing : A) (rid : Bytes) (next : Registry → App E S W → App E S W × A)
      (a b : App E S W)
      → IsKept rid a b
      → ((reg : Registry) → IsKept reg.id a b → IsKept reg.id (next reg a).0 (next reg b).0)
      → IsKept rid
          (with_registry setup cfg token is_unauthorized missing rid next a).0
          (with_registry setup cfg token is_unauthorized missing rid next b).0
  unfolding with_registry
  with_registry_same missing rid next a b k h =
      elim (Option-cases (find_registry rid cfg.registries)) [
        | inl e ↦ rw (e, with_registry) k
        | inr (reg, e) ↦
            let same : reg.id ≡ rid =
              (bytes_eq_iff reg.id rid).0 (found_id rid cfg.registries reg e) in
            rw (e, with_registry)
              (subst (λ i. IsKept i (next reg a).0 (next reg b).0) same
                (h reg (subst (λ i. IsKept i a b) (sym same) k)))
      ]

  after_delete_same :
      (r : Request) (reg : Registry) (a b : App E S W) (result : Client S × Outcome E Unit)
      → IsKept reg.id a b
      → IsKept reg.id
          (after_delete setup cfg token is_unauthorized r reg a result).0
          (after_delete setup cfg token is_unauthorized r reg b result).0
  unfolding after_delete
  after_delete_same r reg a b (c, fail e) k = record {
    client = update_same reg.id c c b.clients a.clients refl;
    catalog = k.catalog;
    health = k.health;
  }
  after_delete_same r reg a b (c, done u) k = record {
    client = update_same reg.id c c b.clients a.clients refl;
    catalog =
        update_same reg.id (invalidate (b.catalogs reg.id)) (invalidate (a.catalogs reg.id))
          b.catalogs a.catalogs (ap invalidate k.catalog);
    health = k.health;
  }

  pub delete_from_same :
      (r : Request) (reg : Registry) (a b : App E S W)
      → IsKept reg.id a b
      → IsKept reg.id
          (delete_from setup cfg token is_unauthorized r reg a).0
          (delete_from setup cfg token is_unauthorized r reg b).0
  unfolding delete_from
  delete_from_same r reg a b k =
      let call = delete_manifest (setup reg.id) r.repo r.digest in
      let after : App E S W → Client S × Outcome E Unit → App E S W × Reply =
        after_delete setup cfg token is_unauthorized r reg in
      let before = call (a.clients reg.id) in
      let called = call (b.clients reg.id) in
      let incomplete = is_empty r.repo || is_empty r.digest in
      let cross = not (same_origin_post r token) in
      let denied : App E S W → ℕ → App E S W × Reply = λ x n. (x, error_page n) in
      let deleted : IsKept reg.id (after a before).0 (after b called).0 =
        subst (λ p. IsKept reg.id (after a before).0 (after b p).0) (sym (ap call k.client))
          (after_delete_same r reg a b before k) in
      either_same reg.id (not reg.delete_enabled) (denied a 403)
        (if cross then denied a 403 else if incomplete then denied a 400 else after a before)
        (denied b 403)
        (if cross then denied b 403 else if incomplete then denied b 400 else after b called) k
        (either_same reg.id cross (denied a 403)
          (if incomplete then denied a 400 else after a before) (denied b 403)
          (if incomplete then denied b 400 else after b called) k
          (either_same reg.id incomplete (denied a 400) (after a before) (denied b 400)
            (after b called) k deleted))

  pub health_of_same :
      (now later : ℕ) (reg : Registry) (a b : App E S W)
      → IsKept reg.id a b
      → IsKept reg.id
          (health_of setup cfg token is_unauthorized now later reg a).0
          (health_of setup cfg token is_unauthorized now later reg b).0
  unfolding health_of health_set
  health_of_same now later reg a b k =
      let fresh = health_get_same now reg.id a.health b.health k.health in
      elim (Option-cases (health_get now reg.id a.health)) [
        | inl e ↦
            let call = ping (setup reg.id) in
            let same : call (b.clients reg.id) ≡ call (a.clients reg.id) = ap call k.client in
            rw (fresh ∙ e, e, health_of)
              (record {
                client = update_same reg.id _ _ b.clients a.clients (ap (λ p. p.0) same);
                catalog = k.catalog;
                health =
                    insert_same reg.id _ _ b.health a.health
                      (ap (λ p. record (probe is_unauthorized p.1) { at = later }) same);
              })
        | inr (st, e) ↦ rw (fresh ∙ e, e, health_of) k
      ]
