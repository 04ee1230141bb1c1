-- ===== src/Registry/TokenService/Presented.antt =====
-- internal/registry/auth.go: the credentials that `requestToken` presents to the token service.
use maze_registry_ui.Prelude.{
  ◌≡◌, ◌≢◌, refl, ◌⊎◌, [], ◌∷◌, true, false, arith, Bool-cases, inl, inr,
}
use maze_registry_ui.Prelude.Bytes.{Bytes, codes, is_empty}
use maze_registry_ui.Prelude.Text.{equal_fold}
use maze_registry_ui.Registry.TokenService.{
  Credentials, Authorization, anonymous, basic, bearer, token_auth,
}

-- the user name and password if either is given, else the token of the auth type bearer
pub data IsPresented (c : Credentials) : Authorization → Type 0 where
  by_password : (c.username ≢ []) ⊎ (c.password ≢ []) → IsPresented c (basic c.username c.password)
  by_token :
      c.username ≡ []
      → c.password ≡ []
      → equal_fold c.type (codes "bearer") ≡ true
      → c.token ≢ []
      → IsPresented c (bearer c.token)
  by_nothing :
      c.username ≡ []
      → c.password ≡ []
      → (equal_fold c.type (codes "bearer") ≡ false) ⊎ (c.token ≡ [])
      → IsPresented c anonymous

given_or_not : (s : Bytes) → ((is_empty s ≡ true) × (s ≡ [])) ⊎ ((is_empty s ≡ false) × (s ≢ []))
given_or_not [] = inl (refl, refl)
given_or_not (c ∷ s) = inr (refl, λ h. ground (arith, h))

pub token_auth-IsPresented : (c : Credentials) → IsPresented c (token_auth c)
unfolding token_auth
token_auth-IsPresented c = elim (given_or_not c.username) [
  | inr (u, given) ↦ rw u (by_password (inl given))
  | inl (u, no_name) ↦ elim (given_or_not c.password) [
    | inr (p, given) ↦ rw (u, p) (by_password (inr given))
    | inl (p, no_word) ↦ elim (Bool-cases (equal_fold c.type (codes "bearer"))) [
      | inr other ↦ rw (u, p, other) (by_nothing no_name no_word (inl other))
      | inl typed ↦ elim (given_or_not c.token) [
        | inr (t, given) ↦ rw (u, p, typed, t) (by_token no_name no_word typed given)
        | inl (t, no_token) ↦ rw (u, p, typed, t) (by_nothing no_name no_word (inr no_token))
      ]
    ]
  ]
]
