-- ===== src/Prelude/Regex/Shapes.antt =====
-- What the expressions for literals and for counted classes mean, and which bytes can occur.
use Prim.Native.Nat.{ℕ, zero, suc, ◌≤◌}
use mathlib.Core.Bool.{Bool, true, false, ◌&&◌, ◌||◌}
use mathlib.Core.List.{List, [], ◌∷◌, ◌++◌}
use mathlib.Core.Logic.{◌↔◌}
use mathlib.Core.Path.{◌≡◌, refl, ap, ◌∙◌}
use native.Mathlib.Omega.{arith}
use maze_registry_ui.Prelude.Bytes.{Bytes}
use maze_registry_ui.Prelude.Lists.{length}
use maze_registry_ui.Prelude.Regex.{
  Regex, empty_set, epsilon, chars, seq, alt, star, times, up_to, literal, in_class,
}
use maze_registry_ui.Prelude.Regex.Meaning.{Means, nothing, one, both, left, right, done, again}

unfoldable pub all_bytes : (ℕ → Bool) → Bytes → Bool
all_bytes p [] = true
all_bytes p (c ∷ s) = p c && all_bytes p s

pub all_bytes-append :
    (p : ℕ → Bool) (a b : Bytes) → all_bytes p (a ++ b) ≡ (all_bytes p a && all_bytes p b)
unfolding all_bytes
all_bytes-append p [] b = refl
all_bytes-append p (c ∷ a) b = ground (arith, all_bytes-append p a b)

pub all_bytes_mono :
    (p q : ℕ → Bool)
    → ((c : ℕ) → p c ≡ true → q c ≡ true)
    → (s : Bytes) → all_bytes p s ≡ true
    → all_bytes q s ≡ true
unfolding all_bytes
all_bytes_mono p q sub [] h = refl
all_bytes_mono p q sub (c ∷ s) h = ground (arith, sub c, all_bytes_mono p q sub s)

-- some class of the expression holds the byte
unfoldable pub occurs : Regex → ℕ → Bool
occurs empty_set c = false
occurs epsilon c = false
occurs (chars l) c = in_class l c
occurs (seq r q) c = occurs r c || occurs q c
occurs (alt r q) c = occurs r c || occurs q c
occurs (star r) c = occurs r c

or_left : (a b : Bool) → a ≡ true → (a || b) ≡ true
or_left a b h = ground arith

or_right : (a b : Bool) → b ≡ true → (a || b) ≡ true
or_right a b h = ground arith

pub and_intro : (a b : Bool) → a ≡ true → b ≡ true → (a && b) ≡ true
and_intro a b h k = ground arith

-- a text has no byte that does not occur in the expression it matches
pub Means-occurs : (r : Regex) (s : Bytes) → Means r s → all_bytes (occurs r) s ≡ true
unfolding occurs all_bytes
Means-occurs empty_set s x = elim x [ ]
Means-occurs epsilon s (nothing e) = rw e refl
Means-occurs (chars l) s (one c h e) = rw (e, h) refl
Means-occurs (seq r q) s (both a b m n e) =
    rw (e, all_bytes-append (occurs (seq r q)) a b)
      (and_intro _ _
        (all_bytes_mono (occurs r) (occurs (seq r q)) (λ c. or_left _ _) a (Means-occurs r a m))
        (all_bytes_mono (occurs q) (occurs (seq r q)) (λ c. or_right _ _) b (Means-occurs q b n)))
Means-occurs (alt r q) s (left m) =
    all_bytes_mono (occurs r) (occurs (alt r q)) (λ c. or_left _ _) s (Means-occurs r s m)
Means-occurs (alt r q) s (right m) =
    all_bytes_mono (occurs q) (occurs (alt r q)) (λ c. or_right _ _) s (Means-occurs q s m)
Means-occurs (star r) s (done e) = rw e refl
Means-occurs (star r) s (again c a b m n e) =
    rw (e, all_bytes-append (occurs r) (c ∷ a) b)
      (and_intro _ _ (Means-occurs r (c ∷ a) m) (Means-occurs (star r) b n))

in_class_single : (c d : ℕ) → in_class ((c, c) ∷ []) d ≡ true → d ≡ c
unfolding in_class
in_class_single c d h = ground arith

in_class_same : (c : ℕ) → in_class ((c, c) ∷ []) c ≡ true
unfolding in_class
in_class_same c = ground arith

pub Means-literal : (t s : Bytes) → Means (literal t) s ↔ (s ≡ t)
Means-literal [] s = (λ m. elim m [ nothing e ↦ e ], λ e. nothing e)
Means-literal (c ∷ t) s = (
  λ m. elim m [
    | both a b (one d h e) n e' ↦ e' ∙ rw (e, in_class_single c d h, (Means-literal t b).0 n) refl
  ],
  λ e. both (c ∷ []) t (one c (in_class_same c) refl) ((Means-literal t t).1 refl) e,
)

-- one byte of the class, and then the rest
pub Means-step :
    (r : Regex) (l : List (ℕ × ℕ)) (s : Bytes)
    → Means (seq (chars l) r) s
    → (c : ℕ) × (t : Bytes) × (s ≡ c ∷ t) × (in_class l c ≡ true) × Means r t
Means-step r l s (both a b (one c h e) m e') = (c, b, e' ∙ ap (λ x. x ++ b) e, h, m)

pub step-Means :
    (r : Regex) (l : List (ℕ × ℕ)) (c : ℕ) (t : Bytes)
    → in_class l c ≡ true
    → Means r t
    → Means (seq (chars l) r) (c ∷ t)
step-Means r l c t h m = both (c ∷ []) t (one c h refl) m refl

abbrev TimesBytes : ℕ → List (ℕ × ℕ) → Bytes → Type 0
TimesBytes n l s = (length s ≡ n) × (all_bytes (in_class l) s ≡ true)

abbrev UpToBytes : ℕ → List (ℕ × ℕ) → Bytes → Type 0
UpToBytes n l s = (length s ≤ n) × (all_bytes (in_class l) s ≡ true)

pub Means-times :
    (n : ℕ) (l : List (ℕ × ℕ)) (s : Bytes) → Means (times n (chars l)) s → TimesBytes n l s
unfolding all_bytes
Means-times zero l s (nothing e) = rw e (refl, refl)
Means-times (suc n) l s m =
    let (c, t, e, h, rest) = Means-step (times n (chars l)) l s m in
    let (k, all) = Means-times n l t rest in
    rw e (ap suc k, and_intro (in_class l c) (all_bytes (in_class l) t) h all)

pub times-Means :
    (n : ℕ) (l : List (ℕ × ℕ)) (s : Bytes)
    → length s ≡ n
    → all_bytes (in_class l) s ≡ true
    → Means (times n (chars l)) s
unfolding all_bytes
times-Means zero l [] e h = nothing refl
times-Means zero l (c ∷ s) e h = absurd (omega (arith, e))
times-Means (suc n) l [] e h = absurd (omega (arith, e))
times-Means (suc n) l (c ∷ s) e h =
    step-Means (times n (chars l)) l c s (ground (arith, h))
      (times-Means n l s (omega (arith, e)) (ground (arith, h)))

pub Means-up_to :
    (n : ℕ) (l : List (ℕ × ℕ)) (s : Bytes) → Means (up_to n (chars l)) s → UpToBytes n l s
unfolding all_bytes
Means-up_to zero l s (nothing e) = rw e (omega arith, refl)
Means-up_to (suc n) l s (left (nothing e)) = rw e (omega arith, refl)
Means-up_to (suc n) l s (right m) =
    let (c, t, e, h, rest) = Means-step (up_to n (chars l)) l s m in
    let (k, all) = Means-up_to n l t rest in
    rw e (omega (arith, k), and_intro (in_class l c) (all_bytes (in_class l) t) h all)

pub up_to-Means :
    (n : ℕ) (l : List (ℕ × ℕ)) (s : Bytes)
    → length s ≤ n
    → all_bytes (in_class l) s ≡ true
    → Means (up_to n (chars l)) s
unfolding all_bytes
up_to-Means zero l [] e h = nothing refl
up_to-Means zero l (c ∷ s) e h = absurd (omega (arith, e))
up_to-Means (suc n) l [] e h = left (nothing refl)
up_to-Means (suc n) l (c ∷ s) e h = right (
    step-Means (up_to n (chars l)) l c s (ground (arith, h))
      (up_to-Means n l s (omega (arith, e)) (ground (arith, h))))
