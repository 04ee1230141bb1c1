-- ===== src/Registry/Tags/Digits.antt =====
-- internal/registry/client.go: the comparison of two runs of digits in `naturalCompare` is the
-- comparison of the numbers that they spell.
use maze_registry_ui.Prelude.{
  ℕ, ◌+◌, ◌-◌, ◌*◌, ◌≤◌, ◌<◌, ◌≡◌, refl, [], ◌∷◌, Ordering, compare, ltb, ◌==◌, if◌then◌else◌,
  length, arith, inl, inr, Bool-cases, ◌≢◌,
}
use maze_registry_ui.Prelude.Bytes.{Bytes, bytes_eq, bytes_eq_iff, compare_bytes}
use maze_registry_ui.Prelude.Order.{lex}
use maze_registry_ui.Registry.Tags.{digit_run, trim_zeros, compare_runs}

abbrev pub AllDigits : Bytes → Type 0
AllDigits [] = Unit {0}
AllDigits (x ∷ s) = (b'0' ≤ x) × (x ≤ b'9') × AllDigits s

-- ten to the length
weight : Bytes → ℕ
weight [] = 1
weight (x ∷ s) = 10 * weight s

-- the number that digits spell, from the front
digit_sum : Bytes → ℕ
digit_sum [] = 0
digit_sum (x ∷ s) = (x - b'0') * weight s + digit_sum s

-- the number that digits spell behind those that spell `n`
unfoldable pub spelled : ℕ → Bytes → ℕ
spelled n [] = n
spelled n (x ∷ s) = spelled (n * 10 + (x - b'0')) s

spelled_lem : (n : ℕ) (s : Bytes) → spelled n s ≡ n * weight s + digit_sum s
unfolding spelled weight digit_sum
spelled_lem n [] = omega arith
spelled_lem n (x ∷ s) = omega (arith, spelled_lem (n * 10 + (x - b'0')) s)

digit_sum-lt-weight : (s : Bytes) → AllDigits s → digit_sum s < weight s
unfolding digit_sum weight
digit_sum-lt-weight [] h = omega arith
digit_sum-lt-weight (x ∷ s) (lo, hi, h) =
    let d : ℕ = x - b'0' in
    let small : d ≤ 9 = omega arith in
    let ih = digit_sum-lt-weight s h in
    let top : d * weight s ≤ 9 * weight s = grind arith in omega arith

weight_mono : (s t : Bytes) → length s ≤ length t → weight s ≤ weight t
unfolding weight
weight_mono [] [] h = omega arith
weight_mono [] (y ∷ t) h = omega (arith, weight_mono [] t (omega arith))
weight_mono (x ∷ s) [] h = absurd (omega arith)
weight_mono (x ∷ s) (y ∷ t) h = omega (arith, weight_mono s t (omega arith))

weight_eq : (s t : Bytes) → length s ≡ length t → weight s ≡ weight t
weight_eq s t h = omega (arith, weight_mono s t (omega arith), weight_mono t s (omega arith))

-- the higher leading digit wins, whatever follows
leading : (a b p v w : ℕ) → a < b → v < p → a * p + v < b * p + w
leading a b p v w h k = let step : (a + 1) * p ≤ b * p = grind arith in omega arith

lex-digit_sum :
    (s t : Bytes)
    → length s ≡ length t
    → AllDigits s
    → AllDigits t
    → lex compare s t ≡ compare (digit_sum s) (digit_sum t)
unfolding lex digit_sum
lex-digit_sum [] [] e hs ht = refl
lex-digit_sum [] (y ∷ t) e hs ht = absurd (omega arith)
lex-digit_sum (x ∷ s) [] e hs ht = absurd (omega arith)
lex-digit_sum (x ∷ s) (y ∷ t) e (lx, hx, hs) (ly, hy, ht) =
    let same : weight s ≡ weight t = weight_eq s t (omega arith) in
    let a : ℕ = x - b'0' in
    let b : ℕ = y - b'0' in
    ground (
      arith,
      lex-digit_sum s t,
      same,
      leading a b (weight s) (digit_sum s) (digit_sum t),
      leading b a (weight t) (digit_sum t) (digit_sum s),
      digit_sum-lt-weight s hs,
      digit_sum-lt-weight t ht,
    )

-- no leading zero
abbrev IsTrimmed : Bytes → Type 0
IsTrimmed [] = Unit {0}
IsTrimmed (x ∷ s) = x ≢ b'0'

trim_zeros-IsTrimmed : (s : Bytes) → IsTrimmed (trim_zeros s)
unfolding trim_zeros
trim_zeros-IsTrimmed [] = tt
trim_zeros-IsTrimmed (x ∷ s) = elim (Bool-cases (x == b'0')) [
  | inl e ↦ rw (e, trim_zeros) (trim_zeros-IsTrimmed s)
  | inr e ↦ rw (e, trim_zeros) (ground arith)
]

trim_zeros-AllDigits : (s : Bytes) → AllDigits s → AllDigits (trim_zeros s)
unfolding trim_zeros
trim_zeros-AllDigits [] h = tt
trim_zeros-AllDigits (x ∷ s) (lo, hi, h) = elim (Bool-cases (x == b'0')) [
  | inl e ↦ rw (e, trim_zeros) (trim_zeros-AllDigits s h)
  | inr e ↦ rw (e, trim_zeros) (lo, hi, h)
]

digit_sum-trim_zeros : (s : Bytes) → digit_sum (trim_zeros s) ≡ digit_sum s
unfolding trim_zeros digit_sum
digit_sum-trim_zeros [] = refl
digit_sum-trim_zeros (x ∷ s) = ground (arith, digit_sum-trim_zeros s)

-- with no leading zero, the longer run is the larger number
shorter-lt :
    (s t : Bytes)
    → length s < length t
    → AllDigits s
    → AllDigits t
    → IsTrimmed t
    → digit_sum s < digit_sum t
unfolding digit_sum
shorter-lt s [] h hs ht trimmed = absurd (omega arith)
shorter-lt s (y ∷ t) h hs (lo, hi, ht) trimmed =
    let d : ℕ = y - b'0' in
    let big : 1 ≤ d = omega arith in
    let top : 1 * weight t ≤ d * weight t = grind arith in
    omega (arith, digit_sum-lt-weight s hs, weight_mono s t (omega arith))

compare_trimmed :
    (s t : Bytes)
    → AllDigits s
    → AllDigits t
    → IsTrimmed s
    → IsTrimmed t
    → (if length s == length t
        then (if bytes_eq s t then Ordering.eq else compare_bytes s t)
        else if ltb (length s) (length t)
        then Ordering.lt
        else Ordering.gt)
      ≡ compare (digit_sum s) (digit_sum t)
unfolding compare_bytes
compare_trimmed s t hs ht us ut =
    ground (arith, bytes_eq_iff s t, lex-digit_sum s t, shorter-lt s t, shorter-lt t s)

spelled_zero : (s : Bytes) → spelled 0 s ≡ digit_sum (trim_zeros s)
spelled_zero s = omega (arith, spelled_lem 0 s, digit_sum-trim_zeros s)

-- what the loop concludes from two runs is how the numbers compare, leading zeros ignored
pub compare_runs-spelled :
    (a b : Bytes)
    → AllDigits a
    → AllDigits b
    → compare_runs a b ≡ compare (spelled 0 a) (spelled 0 b)
unfolding compare_runs
compare_runs-spelled a b ha hb =
    rw (spelled_zero a, spelled_zero b)
      (compare_trimmed (trim_zeros a) (trim_zeros b) (trim_zeros-AllDigits a ha)
        (trim_zeros-AllDigits b hb) (trim_zeros-IsTrimmed a) (trim_zeros-IsTrimmed b))

pub digit_run-AllDigits : (s : Bytes) → AllDigits (digit_run s)
unfolding digit_run
digit_run-AllDigits [] = tt
digit_run-AllDigits (x ∷ s) = ground (arith, digit_run-AllDigits s)
