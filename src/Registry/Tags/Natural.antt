-- ===== src/Registry/Tags/Natural.antt =====
-- internal/registry/client.go: `naturalCompare` against the order that it stands for. A string is
-- read as a list of tokens, a whole run of digits being the number that it spells.
use maze_registry_ui.Prelude.{
  ℕ, zero, suc, ◌+◌, ◌-◌, ◌*◌, ◌≤◌, ◌≡◌, refl, List, [], ◌∷◌, true, false, ◌&&◌, Ordering, compare,
  ltb, if◌then◌else◌, length, arith, inl, inr, Bool-cases, ◌≢◌,
}
use maze_registry_ui.Prelude.Bytes.{Bytes}
use maze_registry_ui.Prelude.Order.{lex, then_by, swap}
use maze_registry_ui.Registry.Tags.{
  is_ascii_digit, digit_run, after_run, compare_runs, natural_loop, natural_compare,
}
use maze_registry_ui.Registry.Tags.Digits.{spelled, compare_runs-spelled, digit_run-AllDigits}

-- A byte below the digits, the value of a run of digits, or a byte above the digits.
pub data Token : Type 0 where
  low : ℕ → Token
  number : ℕ → Token
  high : ℕ → Token

-- the numbers stand where the digits stand among the bytes
unfoldable pub compare_tokens : Token → Token → Ordering
compare_tokens (Token.low a) (Token.low b) = compare a b
compare_tokens (Token.low a) _ = Ordering.lt
compare_tokens (Token.number a) (Token.low b) = Ordering.gt
compare_tokens (Token.number a) (Token.number b) = compare a b
compare_tokens (Token.number a) (Token.high b) = Ordering.lt
compare_tokens (Token.high a) (Token.high b) = compare a b
compare_tokens (Token.high a) _ = Ordering.gt

byte_token : ℕ → Token
byte_token x = if ltb x b'0' then Token.low x else Token.high x

-- the tokens of the text that stands behind digits that spell `n`
mutual
  pub tokens : Bytes → List Token
  tokens [] = []
  tokens (x ∷ s) = if is_ascii_digit x then reading (x - b'0') s else byte_token x ∷ tokens s

  pub reading : ℕ → Bytes → List Token
  reading n [] = Token.number n ∷ []
  reading n (x ∷ s) =
      if is_ascii_digit x
      then reading (n * 10 + (x - b'0')) s
      else Token.number n ∷ byte_token x ∷ tokens s

-- a run of digits is read to its end, and makes one token
reading_lem :
    (n : ℕ) (s : Bytes)
    → reading n s ≡ Token.number (spelled n (digit_run s)) ∷ tokens (after_run s)
unfolding reading tokens spelled digit_run after_run
reading_lem n [] = refl
reading_lem n (x ∷ s) = ground (arith, reading_lem (n * 10 + (x - b'0')) s)

-- the next token, where the text starts with a digit and where it does not
tokens_digit :
    (x : ℕ) (s : Bytes)
    → is_ascii_digit x ≡ true
    → tokens (x ∷ s) ≡ Token.number (spelled 0 (digit_run (x ∷ s))) ∷ tokens (after_run (x ∷ s))
unfolding tokens spelled digit_run after_run is_ascii_digit
tokens_digit x s h = ground (arith, reading_lem (x - b'0') s)

tokens_other :
    (x : ℕ) (s : Bytes) → is_ascii_digit x ≡ false → tokens (x ∷ s) ≡ byte_token x ∷ tokens s
unfolding tokens
tokens_other x s h = rw h

length-after_run-le : (s : Bytes) → length (after_run s) ≤ length s
unfolding after_run
length-after_run-le [] = omega arith
length-after_run-le (x ∷ s) = ground (arith, length-after_run-le s)

-- a number stands between the bytes below the digits and those above
compare_heads :
    (x y n : ℕ)
    → is_ascii_digit x ≡ true
    → is_ascii_digit y ≡ false
    → compare_tokens (Token.number n) (byte_token y)
      ≡ (if ltb x y then Ordering.lt else Ordering.gt)
unfolding is_ascii_digit byte_token compare_tokens
compare_heads x y n hx hy = ground arith

differ : (x y : ℕ) → is_ascii_digit x ≡ true → is_ascii_digit y ≡ false → x ≢ y
differ x y hx hy e = cc

compare_bytes_tokens :
    (x y : ℕ)
    → is_ascii_digit x ≡ false
    → is_ascii_digit y ≡ false
    → compare_tokens (byte_token x) (byte_token y) ≡ compare x y
unfolding is_ascii_digit byte_token compare_tokens
compare_bytes_tokens x y hx hy = ground arith

compare_tokens_flip : (a b : Token) → compare_tokens b a ≡ swap (compare_tokens a b)
unfolding compare_tokens
compare_tokens_flip a b = ground arith

-- the round of the loop in which both sides stand at a digit
digits_round :
    (fuel x y : ℕ) (a b : Bytes)
    → is_ascii_digit x ≡ true
    → is_ascii_digit y ≡ true
    → natural_loop (suc fuel) (x ∷ a) (y ∷ b)
      ≡ then_by
          (compare_runs (digit_run (x ∷ a)) (digit_run (y ∷ b)))
          (natural_loop fuel (after_run (x ∷ a)) (after_run (y ∷ b)))
unfolding natural_loop
digits_round fuel x y a b hx hy = ground arith

-- the round in which one side stands at no digit
bytes_round :
    (fuel x y : ℕ) (a b : Bytes)
    → (is_ascii_digit x && is_ascii_digit y) ≡ false
    → natural_loop (suc fuel) (x ∷ a) (y ∷ b) ≡ then_by (compare x y) (natural_loop fuel a b)
unfolding natural_loop
bytes_round fuel x y a b h = ground arith

-- the first tokens, where one side stands at no digit
tokens_round :
    (x y : ℕ) (a b : Bytes)
    → (is_ascii_digit x && is_ascii_digit y) ≡ false
    → lex compare_tokens (tokens (x ∷ a)) (tokens (y ∷ b))
      ≡ then_by (compare x y) (lex compare_tokens (tokens a) (tokens b))
unfolding lex
tokens_round x y a b h = elim (Bool-cases (is_ascii_digit x)) [
  | inl dx ↦
      let dy : is_ascii_digit y ≡ false = ground arith in
      rw (tokens_digit x a dx, tokens_other y b dy)
        (ground (arith, compare_heads x y (spelled 0 (digit_run (x ∷ a))) dx dy, differ x y dx dy))
  | inr nx ↦ elim (Bool-cases (is_ascii_digit y)) [
    | inl dy ↦
        rw (tokens_other x a nx, tokens_digit y b dy)
          (ground (
            arith,
            compare_heads y x (spelled 0 (digit_run (y ∷ b))) dy nx,
            compare_tokens_flip (Token.number (spelled 0 (digit_run (y ∷ b)))) (byte_token x),
            differ y x dy nx,
          ))
    | inr ny ↦ rw (tokens_other x a nx, tokens_other y b ny, compare_bytes_tokens x y nx ny)
  ]
]

-- the text that is used up first comes first
first_empty :
    (x : ℕ) (s : Bytes)
    → (lex compare_tokens (tokens []) (tokens (x ∷ s)) ≡ Ordering.lt)
      × (lex compare_tokens (tokens (x ∷ s)) (tokens []) ≡ Ordering.gt)
unfolding lex tokens
first_empty x s = elim (Bool-cases (is_ascii_digit x)) [
  | inl dx ↦ rw (tokens_digit x s dx) (refl, refl)
  | inr nx ↦ rw (tokens_other x s nx) (refl, refl)
]

after_run_shorter :
    (x : ℕ) (s : Bytes) → is_ascii_digit x ≡ true → length (after_run (x ∷ s)) ≤ length s
unfolding after_run
after_run_shorter x s h = ground (arith, length-after_run-le s)

natural_loop-tokens :
    (fuel : ℕ) (a b : Bytes)
    → length a ≤ fuel
    → natural_loop fuel a b ≡ lex compare_tokens (tokens a) (tokens b)
unfolding natural_loop lex tokens compare_tokens
natural_loop-tokens zero [] [] h = refl
natural_loop-tokens zero [] (y ∷ b) h = ground (arith, first_empty y b)
natural_loop-tokens zero (x ∷ a) b h = absurd (omega arith)
natural_loop-tokens (suc fuel) [] [] h = refl
natural_loop-tokens (suc fuel) [] (y ∷ b) h = ground (arith, first_empty y b)
natural_loop-tokens (suc fuel) (x ∷ a) [] h = ground (arith, first_empty x a)
natural_loop-tokens (suc fuel) (x ∷ a) (y ∷ b) h =
    elim (Bool-cases (is_ascii_digit x && is_ascii_digit y)) [
      | inl both ↦
          let dx : is_ascii_digit x ≡ true = ground arith in
          let dy : is_ascii_digit y ≡ true = ground arith in
          rw
            (
              digits_round fuel x y a b dx dy,
              tokens_digit x a dx,
              tokens_digit y b dy,
              compare_runs-spelled _ _ (digit_run-AllDigits (x ∷ a)) (digit_run-AllDigits (y ∷ b)),
              natural_loop-tokens fuel (after_run (x ∷ a)) (after_run (y ∷ b))
                  (omega (arith, after_run_shorter x a dx)),
            )
            refl
      | inr other ↦
          rw
            (
              bytes_round fuel x y a b other,
              tokens_round x y a b other,
              natural_loop-tokens fuel a b (omega arith),
            )
            refl
    ]

-- naturalCompare orders two strings as the lexicographic order orders their tokens, where each
-- whole run of digits is the number that it spells and stands among the bytes where the digits
-- stand; the loop needs no more rounds than the first string has bytes.
pub natural_compare-tokens :
    (a b : Bytes) → natural_compare a b ≡ lex compare_tokens (tokens a) (tokens b)
unfolding natural_compare
natural_compare-tokens a b = natural_loop-tokens (length a) a b (omega arith)
