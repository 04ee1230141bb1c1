-- ===== src/Registry/Client/Repeat.antt =====
-- internal/registry/client.go: `Catalog` answers from the cache what it has just fetched.
use maze_registry_ui.Prelude.{
  ℕ, ◌+◌, ◌^◌, ◌≤◌, ◌<◌, ◌≡◌, sym, ap, subst, ◌∙◌, false, Option, none, some, arith, if◌then◌else◌,
  lt→ltb, List, ◌++◌,
}
use maze_registry_ui.Prelude.Bytes.{Bytes, codes}
use maze_registry_ui.Prelude.Int.{ℤ, le_zero, pos_part}
use maze_registry_ui.Registry.Auth.{Response, Sent, response, send_error}
use maze_registry_ui.Registry.Cache.{TtlCache, get, set, cache_scope_global}
use maze_registry_ui.Registry.Cache.Bound.{IsValid}
use maze_registry_ui.Registry.Cache.Reads.{get-set}
use maze_registry_ui.Registry.Paging.{clamp_page_size}
use maze_registry_ui.Registry.Client.{
  Setup, Client, done, ClientError, Action, pure, or_raise, ◌>>=◌, ◌>>◌, Cached, catalog_page,
  CatalogPage, request, check_response, fetch, read_limited, cache_get, cache_set,
  max_manifest_bytes, undecodable,
}
use maze_registry_ui.Registry.Client.Pages.{
  catalog, fetch_catalog, catalog_key, catalog_of, as_catalog_page, page_query,
}
use maze_registry_ui.Registry.Client.Steps.{bind_inv, requested, request_lem}

-- the cache and the readings of the clock are as before
abbrev KeepsCache : {S : Type 0} → Client S → Client S → Type 0
KeepsCache c c' = (c'.cache ≡ c.cache) × (c'.reads ≡ c.reads)

KeepsCache-trans :
    {S : Type 0} (a b c : Client S) → KeepsCache a b → KeepsCache b c → KeepsCache a c
KeepsCache-trans a b c (e, f) (g, h) = (g ∙ e, h ∙ f)

requested-KeepsCache :
    {E S : Type 0} (c c' : Client S) (s : S) (x : Sent E) (r : Response)
    → requested c s x ≡ (c', done r)
    → KeepsCache c c'
requested-KeepsCache c c' s (response q) r h = ground (arith, h)
requested-KeepsCache c c' s (send_error e) r h = ground (arith, h)

module _ {E S : Type 0} (w : Setup E S) where
  request-KeepsCache :
      (m u a : Bytes) (c c' : Client S) (r : Response)
      → request w m u a c ≡ (c', done r)
      → KeepsCache c c'
  request-KeepsCache m u a c c' r h =
      let (s, sent) = w.perform m u a c.http in
      requested-KeepsCache c c' s sent r (sym (request_lem w m u a c) ∙ h)

  check-KeepsCache :
      (r : Response) (m u : Bytes) (c c' : Client S) (x : Unit)
      → check_response w r m u c ≡ (c', done x)
      → KeepsCache c c'
  unfolding check_response
  check-KeepsCache r m u c c' x h = ground (arith, h)

  read-KeepsCache :
      (r : Response) (limit : ℕ) (c c' : Client S) (b : Bytes)
      → read_limited w r limit c ≡ (c', done b)
      → KeepsCache c c'
  unfolding read_limited
  read-KeepsCache r limit c c' b h = ground (arith, h)

  or_raise-same :
      {A : Type 0} (o : Option A) (e : ClientError E) (c c' : Client S) (a : A)
      → or_raise o e c ≡ (c', done a)
      → KeepsCache c c'
  or_raise-same none e c c' a h = ground (arith, h)
  or_raise-same (some b) e c c' a h = ground (arith, h)

  pure_inv :
      {A : Type 0} (a b : A) (c c' : Client S)
      → pure {E = E} a c ≡ (c', done b)
      → (c' ≡ c) × (b ≡ a)
  pure_inv a b c c' h = (ground (arith, h), ground (arith, h))

  fetch-KeepsCache :
      (m u a : Bytes) (c c' : Client S) (r : Response)
      → fetch w m u a c ≡ (c', done r)
      → KeepsCache c c'
  unfolding fetch
  fetch-KeepsCache m u a c c' r h =
      let after = λ (r : Response). check_response w r m u >> pure r in
      let (c₁, r₁, asked, rest) = bind_inv (request w m u a) after c c' r h in
      let (c₂, x, checked, last) = bind_inv (check_response w r₁ m u) (λ _. pure r₁) c₁ c' r rest in
      let (e, _) = pure_inv r₁ r c₂ c' last in
      KeepsCache-trans c c₁ c' (request-KeepsCache m u a c c₁ r₁ asked)
        (subst (KeepsCache c₁) (sym e) (check-KeepsCache r₁ m u c₁ c₂ x checked))

  -- the client after `Catalog` has stored a page
  abbrev stored : ℕ → Bytes → CatalogPage → Client S → Client S
  stored n last page c = record c {
    cache =
        set (w.clock c.reads) (w.clock (c.reads + 1)) (catalog_key w n last) cache_scope_global
          (catalog_page page) w.cache_ttl c.cache;
    reads = c.reads + 2;
  }

  abbrev store_step : ℕ → Bytes → Response → List Bytes → Action E S CatalogPage
  store_step n last r names =
      cache_set w (catalog_key w n last) cache_scope_global (catalog_page (catalog_of w n r names))
        w.cache_ttl
      >> pure (catalog_of w n r names)

  abbrev decode_step : ℕ → Bytes → Response → Bytes → Action E S CatalogPage
  decode_step n last r body = or_raise (w.catalog_document body) undecodable >>= store_step n last r

  store_inv :
      (n : ℕ) (last : Bytes) (r : Response) (names : List Bytes) (c c' : Client S)
      (page : CatalogPage)
      → store_step n last r names c ≡ (c', done page)
      → c' ≡ stored n last page c
  unfolding cache_set
  store_inv n last r names c c' page h =
      let p = catalog_of w n r names in
      let (e, f) = pure_inv p page (stored n last p c) c' h in
      e ∙ ap (λ x. stored n last x c) (sym f)

  -- what a step after the request leaves
  decode_inv :
      (n : ℕ) (last : Bytes) (r : Response) (body : Bytes) (c c' : Client S) (page : CatalogPage)
      → decode_step n last r body c ≡ (c', done page)
      → (c₁ : Client S) × KeepsCache c c₁ × (c' ≡ stored n last page c₁)
  decode_inv n last r body c c' page h =
      let (c₁, names, decoded, rest) =
        bind_inv (or_raise (w.catalog_document body) undecodable) (store_step n last r) c c' page
          h in
      (
        c₁,
        or_raise-same (w.catalog_document body) undecodable c c₁ names decoded,
        store_inv n last r names c₁ c' page rest,
      )

  abbrev read_step : ℕ → Bytes → Response → Action E S CatalogPage
  read_step n last r = read_limited w r max_manifest_bytes >>= decode_step n last r

  read_inv :
      (n : ℕ) (last : Bytes) (r : Response) (c c' : Client S) (page : CatalogPage)
      → read_step n last r c ≡ (c', done page)
      → (c₁ : Client S) × KeepsCache c c₁ × (c' ≡ stored n last page c₁)
  read_inv n last r c c' page h =
      let (c₁, body, got, rest) =
        bind_inv (read_limited w r max_manifest_bytes) (decode_step n last r) c c' page h in
      let (c₂, kept, e) = decode_inv n last r body c₁ c' page rest in
      (c₂, KeepsCache-trans c c₁ c₂ (read-KeepsCache r max_manifest_bytes c c₁ body got) kept, e)

  fetch_catalog-stored :
      (n : ℕ) (last : Bytes) (c c' : Client S) (page : CatalogPage)
      → fetch_catalog w n last c ≡ (c', done page)
      → (c₁ : Client S) × KeepsCache c c₁ × (c' ≡ stored n last page c₁)
  unfolding fetch_catalog
  fetch_catalog-stored n last c c' page h =
      let url = w.base ++ codes "/v2/_catalog?" ++ page_query w n last in
      let (c₁, r, asked, rest) =
        bind_inv (fetch w (codes "GET") url (codes "application/json")) (read_step n last) c c' page
          h in
      let (c₂, kept, e) = read_inv n last r c₁ c' page rest in
      (
        c₂,
        KeepsCache-trans c c₁ c₂
            (fetch-KeepsCache (codes "GET") url (codes "application/json") c c₁ r asked) kept,
        e,
      )

  catalog_hit :
      (n : ℤ) (last : Bytes) (c : Client S) (page : CatalogPage)
      → (get (w.clock c.reads) (catalog_key w (clamp_page_size n) last) c.cache).1
        ≡ some (catalog_page page)
      → ((catalog w n last c).0.http ≡ c.http) × ((catalog w n last c).1 ≡ done page)
  unfolding catalog cache_get as_catalog_page
  catalog_hit n last c page h = (ground (arith, h), ground (arith, h))

  -- a get of the key after `stored`, on what the client's cache and readings were before
  abbrev got_back : Bytes → CatalogPage → TtlCache Cached → ℕ → Option Cached
  got_back key page cache k =
      (get (w.clock (k + 2)) key (
        set (w.clock k) (w.clock (k + 1)) key cache_scope_global (catalog_page page) w.cache_ttl
          cache)).1

  stored_hit :
      (key : Bytes) (page : CatalogPage) (c : Client S)
      → IsValid c.cache
      → c.cache.tick + 1 < 2 ^ 64
      → 2 ≤ c.cache.max
      → le_zero w.cache_ttl ≡ false
      → w.clock (c.reads + 1) ≤ w.clock (c.reads + 2)
      → w.clock (c.reads + 2) < w.clock c.reads + pos_part w.cache_ttl
      → got_back key page c.cache c.reads ≡ some (catalog_page page)
  stored_hit key page c v t room ttl later early =
      get-set (w.clock c.reads) (w.clock (c.reads + 1)) (w.clock (c.reads + 2)) key
        cache_scope_global (catalog_page page) w.cache_ttl c.cache v t room ttl later
      ∙ ap (λ b. if b then some (catalog_page page) else none) (lt→ltb _ _ early)

  -- If Catalog has fetched a page, its cache has room for two entries and a valid state with a
  -- tick that does not wrap, the ttl is positive and the clock has not gone back, a call of
  -- Catalog with the same page size and cursor before the ttl is over gives the same page and
  -- makes no request.
  pub catalog_repeated :
      (n : ℤ) (last : Bytes) (c c' : Client S) (page : CatalogPage)
      → fetch_catalog w (clamp_page_size n) last c ≡ (c', done page)
      → IsValid c.cache
      → c.cache.tick + 1 < 2 ^ 64
      → 2 ≤ c.cache.max
      → le_zero w.cache_ttl ≡ false
      → w.clock (c.reads + 1) ≤ w.clock (c.reads + 2)
      → w.clock (c.reads + 2) < w.clock c.reads + pos_part w.cache_ttl
      → ((catalog w n last c').0.http ≡ c'.http) × ((catalog w n last c').1 ≡ done page)
  catalog_repeated n last c c' page h v t room ttl later early =
      let (c₁, kept, e) = fetch_catalog-stored (clamp_page_size n) last c c' page h in
      let key = catalog_key w (clamp_page_size n) last in
      catalog_hit n last c' page (
        subst (λ (x : Client S). (get (w.clock x.reads) key x.cache).1 ≡ some (catalog_page page))
          (sym e)
          (subst (λ m. got_back key page m c₁.reads ≡ some (catalog_page page)) (sym kept.0)
            (subst (λ k. got_back key page c.cache k ≡ some (catalog_page page)) (sym kept.1)
              (stored_hit key page c v t room ttl later early))))
