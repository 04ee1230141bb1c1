-- ===== src/Registry/TokenService/Redirects.antt =====
-- internal/registry/client.go: which requests of a chain of redirects carry the credentials.
use maze_registry_ui.Prelude.{
  suc, ◌+◌, ◌<◌, ◌≤◌, ◌≡◌, ◌≢◌, refl, leb, ◌⊎◌, List, [], ◌∷◌, Bool, true, none, some, length,
  arith, if◌then◌else◌, Bool-cases, inl, inr,
}
use maze_registry_ui.Prelude.Bytes.{Bytes, bytes_eq, bytes_eq_iff, bytes_eq_refl}
use maze_registry_ui.Registry.TokenService.{Authorization, anonymous, strip_auth_on_host_change}

-- a redirect ends the chain, or goes on with a header that is dropped on a change of the host
data Redirected (host last : Bytes) (via : List Bytes) (auth : Authorization) : Type 0 where
  stops : strip_auth_on_host_change host (last ∷ via) auth ≡ none → Redirected host last via auth
  goes_on :
      (left : Authorization)
      → strip_auth_on_host_change host (last ∷ via) auth ≡ some left
      → (left ≡ anonymous) ⊎ (host ≡ last)
      → length via < 9
      → Redirected host last via auth

redirected :
    (host last : Bytes) (via : List Bytes) (auth : Authorization) → Redirected host last via auth
unfolding strip_auth_on_host_change
redirected host last via auth = elim (Bool-cases (leb 10 (suc (length via)))) [
  | inl long ↦ stops (ground arith)
  | inr short ↦ elim (Bool-cases (bytes_eq host last)) [
    | inl same ↦ goes_on auth (ground arith) (inr ((bytes_eq_iff host last).0 same)) (ground arith)
    | inr other ↦ goes_on anonymous (ground arith) (inl refl) (ground arith)
  ]
]

-- The Authorization headers of the requests that follow the first one of a chain, as net/http
-- makes them: each takes the header of the first request if `copies` says so of the hosts before it
-- and of its own, and is then given to `CheckRedirect`. The chain ends where that returns an error.
module _ (copies : List Bytes → Bytes → Bool) (auth : Authorization) where
  abbrev pub follow : List Bytes → List Bytes → List (Bytes × Authorization)
  follow via [] = []
  follow via (host ∷ hosts) =
      let rest = follow (host ∷ via) hosts in
      elim (strip_auth_on_host_change host via (if copies via host then auth else anonymous)) [
        | none ↦ []
        | some left ↦ (host, left) ∷ rest
      ]

  -- no request presents credentials to a host that the request before it did not go to
  abbrev pub AreStripped : Bytes → List (Bytes × Authorization) → Type 0
  AreStripped last [] = Unit
  AreStripped last ((host, left) ∷ rest) =
      ((left ≡ anonymous) ⊎ (host ≡ last)) × AreStripped host rest

  follow-AreStripped :
      (first : Bytes) (via hosts : List Bytes) → AreStripped first (follow (first ∷ via) hosts)
  follow-AreStripped first via [] = tt
  follow-AreStripped first via (host ∷ hosts) =
      let a = if copies (first ∷ via) host then auth else anonymous in
      elim (redirected host first via a) [
        | stops e ↦ rw (e, AreStripped) tt
        | goes_on left e h short ↦
            rw (e, AreStripped) (h, follow-AreStripped host (first ∷ via) hosts)
      ]

  follow_bounded :
      (first : Bytes) (via hosts : List Bytes)
      → length via ≤ 9
      → length (follow (first ∷ via) hosts) + length via ≤ 9
  follow_bounded first via [] h = omega (arith, h)
  follow_bounded first via (host ∷ hosts) h =
      let a = if copies (first ∷ via) host then auth else anonymous in
      elim (redirected host first via a) [
        | stops e ↦ rw (e, length) (omega (arith, h))
        | goes_on left e l short ↦
            rw (e, length)
              (omega (arith, follow_bounded host (first ∷ via) hosts (omega (arith, short))))
      ]

  -- Whatever headers net/http copies along a chain of redirects, with stripAuthOnHostChange as
  -- its CheckRedirect no request presents credentials to a host other than that of the request
  -- before it, and at most nine requests follow the first one.
  pub follow_safe :
      (first : Bytes) (hosts : List Bytes)
      → AreStripped first (follow (first ∷ []) hosts) × (length (follow (first ∷ []) hosts) ≤ 9)
  follow_safe first hosts = (
    follow-AreStripped first [] hosts,
    omega (arith, follow_bounded first [] hosts (omega arith)),
  )

  -- If two redirects in a row lead to one host other than the first, and net/http copies the
  -- header of the first request to it both times, as it does for a subdomain of the first host,
  -- the request of the first redirect carries no credentials and that of the second carries
  -- them.
  follow_twice :
      (first other : Bytes)
      → first ≢ other
      → copies (first ∷ []) other ≡ true
      → copies (other ∷ first ∷ []) other ≡ true
      → follow (first ∷ []) (other ∷ other ∷ []) ≡ (other, anonymous) ∷ (other, auth) ∷ []
  unfolding strip_auth_on_host_change
  follow_twice first other ne copied again =
      ground (arith, bytes_eq_iff other first, bytes_eq_refl other)
