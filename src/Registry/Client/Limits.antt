-- ===== src/Registry/Client/Limits.antt =====
-- internal/registry/client.go: `readLimited` cuts no document short.
use maze_registry_ui.Prelude.{
  ℕ, zero, suc, ◌+◌, ◌-◌, ◌^◌, ◌≤◌, ◌<◌, ◌≡◌, ◌⊎◌, refl, ap, [], ◌∷◌, false, arith, length, take,
  ltb, Bool-cases, inl, inr,
}
use maze_registry_ui.Prelude.Bytes.{Bytes}
use maze_registry_ui.Registry.Auth.{Response}
use maze_registry_ui.Registry.Client.{
  Setup, Client, done, fail, read_limited, read_size, body_too_long, body_broken,
}

take_all : (n : ℕ) (s : Bytes) → length s ≤ n → take n s ≡ s
take_all zero [] h = refl
take_all zero (x ∷ s) h = absurd (omega (arith, h))
take_all (suc n) [] h = refl
take_all (suc n) (x ∷ s) h = ap (◌∷◌ x) (take_all n s (omega (arith, h)))

length-take : (n : ℕ) (s : Bytes) → n ≤ length s → length (take n s) ≡ n
length-take zero s h = refl
length-take (suc n) [] h = absurd (omega (arith, h))
length-take (suc n) (x ∷ s) h = ap suc (length-take n s (omega (arith, h)))

-- a whole body within the limit
abbrev pub IsWhole : Response → ℕ → Type 0
IsWhole r limit = (length r.body ≤ limit) × (r.broken ≡ false)

module _ {E S : Type 0} (w : Setup E S) where
  read_size_lem : (limit : ℕ) → limit < 2 ^ 63 - 1 → read_size w limit ≡ limit + 1
  unfolding read_size
  read_size_lem limit h = ground (arith, h)

  -- With a limit below the greatest int64, readLimited returns the whole body if the body is no
  -- longer than the limit and can be read to its end, and an error otherwise, never a part of
  -- it.
  pub read_limited-IsWhole :
      (r : Response) (limit : ℕ) (c : Client S)
      → limit < 2 ^ 63 - 1
      → (IsWhole r limit × (read_limited w r limit c ≡ (c, done r.body)))
        ⊎ ((¬ IsWhole r limit)
            × ((read_limited w r limit c ≡ (c, fail (body_too_long limit)))
                ⊎ (read_limited w r limit c ≡ (c, fail body_broken))))
  unfolding read_limited
  read_limited-IsWhole r limit c small = elim (Bool-cases (ltb limit (length r.body))) [
    | inl long ↦
        inr (ground arith, inl (ground (arith, small, long, length-take (limit + 1) r.body)))
    | inr short ↦ elim (Bool-cases r.broken) [
      | inl cut ↦ inr (λ h. cc, inr (ground (arith, small, short, cut)))
      | inr fine ↦
          inl (
            (ground arith, fine),
            (ground (arith, small, short, fine, take_all (limit + 1) r.body)),
          )
    ]
  ]
