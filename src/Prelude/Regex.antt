-- ===== src/Prelude/Regex.antt =====
-- The regular expressions of Go's regexp package that the program uses, all of them anchored, and
-- the matcher by derivatives.
pub mod Meaning
pub mod Shapes
use Prim.Native.Nat.{ℕ, zero, suc}
use mathlib.Core.Bool.{Bool, true, false, ◌&&◌, ◌||◌}
use mathlib.Core.List.{List, [], ◌∷◌}
use maze_registry_ui.Prelude.Bytes.{Bytes}
use maze_registry_ui.Prelude.Tests.{leb, if◌then◌else◌}

-- `chars` is a class, given by ranges of bytes.
pub data Regex : Type 0 where
  empty_set : Regex
  epsilon : Regex
  chars : List (ℕ × ℕ) → Regex
  seq : Regex → Regex → Regex
  alt : Regex → Regex → Regex
  star : Regex → Regex

abbrev pub char : ℕ → Regex
char c = chars ((c, c) ∷ [])

abbrev pub plus : Regex → Regex
plus r = seq r (star r)

-- `r{n}`
abbrev pub times : ℕ → Regex → Regex
times zero r = epsilon
times (suc n) r = seq r (times n r)

-- `r{0,n}`
abbrev pub up_to : ℕ → Regex → Regex
up_to zero r = epsilon
up_to (suc n) r = alt epsilon (seq r (up_to n r))

abbrev pub literal : Bytes → Regex
literal [] = epsilon
literal (c ∷ s) = seq (char c) (literal s)

unfoldable pub in_class : List (ℕ × ℕ) → ℕ → Bool
in_class [] c = false
in_class ((lo, hi) ∷ l) c = (leb lo c && leb c hi) || in_class l c

unfoldable pub nullable : Regex → Bool
nullable empty_set = false
nullable epsilon = true
nullable (chars l) = false
nullable (seq r q) = nullable r && nullable q
nullable (alt r q) = nullable r || nullable q
nullable (star r) = true

-- what has to follow a byte
unfoldable pub derive : ℕ → Regex → Regex
unfolding nullable in_class
derive c empty_set = empty_set
derive c epsilon = empty_set
derive c (chars l) = if in_class l c then epsilon else empty_set
derive c (seq r q) =
    let first = seq (derive c r) q in
    let both = alt first (derive c q) in if nullable r then both else first
derive c (alt r q) = alt (derive c r) (derive c q)
derive c (star r) = seq (derive c r) (star r)

unfoldable pub accepts : Regex → Bytes → Bool
unfolding derive
accepts r [] = nullable r
accepts r (c ∷ s) = accepts (derive c r) s
