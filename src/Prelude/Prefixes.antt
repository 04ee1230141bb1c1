-- ===== src/Prelude/Prefixes.antt =====
-- Prefixes of byte strings.
use maze_registry_ui.Prelude.{
  ◌≡◌, refl, [], ◌∷◌, ◌++◌, true, ◌==◌, ==_iff, arith, inl, inr, Bool-cases,
}
use maze_registry_ui.Prelude.Bytes.{Bytes}
use maze_registry_ui.Prelude.Text.{has_prefix}

pub has_prefix_split : (t s : Bytes) → has_prefix t s ≡ true → (b : Bytes) × (s ≡ t ++ b)
unfolding has_prefix
has_prefix_split [] s h = (s, refl)
has_prefix_split (x ∷ t) [] h = ground arith
has_prefix_split (x ∷ t) (y ∷ s) h = elim (Bool-cases (x == y)) [
  | inl e ↦
      let (b, r) = has_prefix_split t s (ground (arith, e)) in (b, rw (r, (==_iff x y).0 e) refl)
  | inr e ↦ ground (arith, e)
]

pub has_prefix-append : (t b : Bytes) → has_prefix t (t ++ b) ≡ true
unfolding has_prefix
has_prefix-append [] b = refl
has_prefix-append (x ∷ t) b = ground (arith, has_prefix-append t b)
