-- ===== src/Prelude/Bytes.antt =====
-- Go strings as lists of bytes, and the functions of the `strings` package that the program calls.
use Prim.Native.Char.{code}
use Prim.Native.Nat.{ℕ, compare, Ordering}
use Prim.Native.String.{String}
use mathlib.Core.Bool.{Bool, true, false, ◌&&◌}
use mathlib.Core.List.{List, [], ◌∷◌}
use mathlib.Core.Logic.{◌↔◌}
use mathlib.Core.Path.{◌≡◌, refl}
use native.Mathlib.Omega.{arith}
use maze_registry_ui.Prelude.Tests.{◌==◌}
use maze_registry_ui.Prelude.Order.{
  IsOrder, IsStrict, lex, lex-IsOrder, lex-IsStrict, compare-IsOrder, compare-IsStrict,
}

abbrev pub Bytes : Type 0
Bytes = List ℕ

-- the bytes of an ASCII literal
abbrev pub codes : String → Bytes
codes String.[] = []
codes (String.◌∷◌ c s) = code c ∷ codes s

-- `a == b`
unfoldable pub bytes_eq : Bytes → Bytes → Bool
bytes_eq [] [] = true
bytes_eq [] (y ∷ ys) = false
bytes_eq (x ∷ xs) [] = false
bytes_eq (x ∷ xs) (y ∷ ys) = (x == y) && bytes_eq xs ys

pub bytes_eq_iff : (a b : Bytes) → (bytes_eq a b ≡ true) ↔ (a ≡ b)
unfolding bytes_eq
bytes_eq_iff [] [] = (λ _. refl, λ _. refl)
bytes_eq_iff [] (y ∷ ys) = (λ h. cc, λ h. cc)
bytes_eq_iff (x ∷ xs) [] = (λ h. cc, λ h. cc)
bytes_eq_iff (x ∷ xs) (y ∷ ys) =
    (λ h. ground (arith, bytes_eq_iff xs ys), λ h. ground (arith, bytes_eq_iff xs ys))

pub bytes_eq_refl : (a : Bytes) → bytes_eq a a ≡ true
bytes_eq_refl a = (bytes_eq_iff a a).1 refl

-- `strings.Compare`
unfoldable pub compare_bytes : Bytes → Bytes → Ordering
unfolding lex
compare_bytes = lex compare

pub compare_bytes-IsOrder : IsOrder compare_bytes
unfolding compare_bytes
compare_bytes-IsOrder = lex-IsOrder compare-IsOrder

pub compare_bytes-IsStrict : IsStrict compare_bytes
unfolding compare_bytes
compare_bytes-IsStrict = lex-IsStrict compare-IsStrict

-- `s == ""`
abbrev pub is_empty {ℓ} : {A : Type ℓ} → List A → Bool
is_empty [] = true
is_empty (x ∷ xs) = false
