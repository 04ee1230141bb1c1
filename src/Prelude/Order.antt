-- ===== src/Prelude/Order.antt =====
-- Three-way comparisons, as `cmp.Compare`, `strings.Compare` and the comparison functions given to
-- `slices.SortFunc` return them: `lt`, `eq` and `gt` stand for -1, 0 and 1.
use Prim.Native.Nat.{compare, Ordering}
use mathlib.Core.List.{List, [], ◌∷◌}
use mathlib.Core.Logic.{◌≢◌}
use mathlib.Core.Path.{◌≡◌, refl}
use native.Mathlib.Omega.{arith}

abbrev pub swap : Ordering → Ordering
swap Ordering.lt = Ordering.gt
swap Ordering.eq = Ordering.eq
swap Ordering.gt = Ordering.lt

-- the first comparison that is not a tie decides
abbrev pub then_by : Ordering → Ordering → Ordering
then_by Ordering.lt o = Ordering.lt
then_by Ordering.eq o = o
then_by Ordering.gt o = Ordering.gt

-- A comparison that orders its type, ties allowed.
pub record IsOrder {ℓ} {A : Type ℓ} (cmp : A → A → Ordering) : Type ℓ where
  pub flip : (a b : A) → cmp b a ≡ swap (cmp a b)
  pub lt_trans : (a b c : A) → cmp a b ≡ Ordering.lt → cmp b c ≡ Ordering.lt → cmp a c ≡ Ordering.lt
  pub eq_left : (a b c : A) → cmp a b ≡ Ordering.eq → cmp a c ≡ cmp b c

-- only equal values tie
abbrev pub IsStrict {ℓ} : {A : Type ℓ} → (A → A → Ordering) → Type ℓ
IsStrict {A} cmp = (a b : A) → cmp a b ≡ Ordering.eq → a ≡ b

module _ {ℓ} {A : Type ℓ} {cmp : A → A → Ordering} (o : IsOrder cmp) where
  pub cmp_refl : (a : A) → cmp a a ≡ Ordering.eq
  cmp_refl a = ground (arith, o.flip a a)

  pub le_trans : (a b c : A) → cmp a b ≢ Ordering.gt → cmp b c ≢ Ordering.gt → cmp a c ≢ Ordering.gt
  le_trans a b c p q = ground (
    arith,
    o.lt_trans a b c,
    o.eq_left a b c,
    o.eq_left c b a,
    o.flip a b,
    o.flip b c,
    o.flip a c,
  )

pub compare-IsOrder : IsOrder compare
compare-IsOrder = record {
  flip = λ a b. ground arith;
  lt_trans = λ a b c p q. ground arith;
  eq_left = λ a b c p. ground arith;
}

pub compare-IsStrict : IsStrict compare
compare-IsStrict a b h = ground arith

-- comparing by a key
abbrev pub by_key {ℓ κ} :
    {A : Type ℓ} {B : Type κ} → (A → B) → (B → B → Ordering) → A → A → Ordering
by_key f cmp a b = cmp (f a) (f b)

-- the order the other way round
abbrev pub reversed {ℓ} : {A : Type ℓ} → (A → A → Ordering) → A → A → Ordering
reversed cmp a b = cmp b a

-- ties of the first comparison are broken by the second
abbrev pub broken_by {ℓ} : {A : Type ℓ} → (A → A → Ordering) → (A → A → Ordering) → A → A → Ordering
broken_by f g a b = then_by (f a b) (g a b)

pub by_key-IsOrder {ℓ κ} :
    {A : Type ℓ} {B : Type κ} (f : A → B) {cmp : B → B → Ordering}
    → IsOrder cmp
    → IsOrder (by_key f cmp)
by_key-IsOrder f o = record {
  flip = λ a b. o.flip (f a) (f b);
  lt_trans = λ a b c. o.lt_trans (f a) (f b) (f c);
  eq_left = λ a b c. o.eq_left (f a) (f b) (f c);
}

pub reversed-IsOrder {ℓ} :
    {A : Type ℓ} {cmp : A → A → Ordering} → IsOrder cmp → IsOrder (reversed cmp)
reversed-IsOrder o = record {
  flip = λ a b. o.flip b a;
  lt_trans = λ a b c p q. o.lt_trans c b a q p;
  eq_left = λ a b c p. ground (arith, o.eq_left b a c, o.flip a c, o.flip b c);
}

pub broken_by-IsOrder {ℓ} :
    {A : Type ℓ} {f g : A → A → Ordering} → IsOrder f → IsOrder g → IsOrder (broken_by f g)
broken_by-IsOrder o p = record {
  flip = λ a b. ground (arith, o.flip a b, p.flip a b);
  lt_trans = λ a b c h k. ground (
    arith,
    o.lt_trans a b c,
    o.eq_left a b c,
    o.eq_left c b a,
    o.flip a b,
    o.flip b c,
    o.flip a c,
    p.lt_trans a b c,
  );
  eq_left = λ a b c h. ground (arith, o.eq_left a b c, p.eq_left a b c);
}

-- Lists compare by their first difference; a proper prefix comes first.
unfoldable pub lex {ℓ} : {A : Type ℓ} → (A → A → Ordering) → List A → List A → Ordering
lex cmp [] [] = Ordering.eq
lex cmp [] (y ∷ ys) = Ordering.lt
lex cmp (x ∷ xs) [] = Ordering.gt
lex cmp (x ∷ xs) (y ∷ ys) = then_by (cmp x y) (lex cmp xs ys)

module _ {ℓ} {A : Type ℓ} {cmp : A → A → Ordering} (o : IsOrder cmp) where
  lex_flip : (xs ys : List A) → lex cmp ys xs ≡ swap (lex cmp xs ys)
  unfolding lex
  lex_flip [] [] = refl
  lex_flip [] (y ∷ ys) = refl
  lex_flip (x ∷ xs) [] = refl
  lex_flip (x ∷ xs) (y ∷ ys) = ground (arith, o.flip x y, lex_flip xs ys)

  lex_lt_trans :
      (xs ys zs : List A)
      → lex cmp xs ys ≡ Ordering.lt
      → lex cmp ys zs ≡ Ordering.lt
      → lex cmp xs zs ≡ Ordering.lt
  unfolding lex
  lex_lt_trans [] [] zs p q = cc
  lex_lt_trans [] (y ∷ ys) [] p q = cc
  lex_lt_trans [] (y ∷ ys) (z ∷ zs) p q = refl
  lex_lt_trans (x ∷ xs) [] zs p q = cc
  lex_lt_trans (x ∷ xs) (y ∷ ys) [] p q = cc
  lex_lt_trans (x ∷ xs) (y ∷ ys) (z ∷ zs) p q = ground (
    arith,
    o.lt_trans x y z,
    o.eq_left x y z,
    o.eq_left z y x,
    o.flip x y,
    o.flip y z,
    o.flip x z,
    lex_lt_trans xs ys zs,
  )

  lex_eq_left : (xs ys zs : List A) → lex cmp xs ys ≡ Ordering.eq → lex cmp xs zs ≡ lex cmp ys zs
  unfolding lex
  lex_eq_left [] [] zs p = refl
  lex_eq_left [] (y ∷ ys) zs p = cc
  lex_eq_left (x ∷ xs) [] zs p = cc
  lex_eq_left (x ∷ xs) (y ∷ ys) [] p = refl
  lex_eq_left (x ∷ xs) (y ∷ ys) (z ∷ zs) p = ground (arith, o.eq_left x y z, lex_eq_left xs ys zs)

  pub lex-IsOrder : IsOrder (lex cmp)
  lex-IsOrder = record { flip = lex_flip; lt_trans = lex_lt_trans; eq_left = lex_eq_left }

pub lex-IsStrict {ℓ} : {A : Type ℓ} {cmp : A → A → Ordering} → IsStrict cmp → IsStrict (lex cmp)
unfolding lex
lex-IsStrict s [] [] h = refl
lex-IsStrict s [] (y ∷ ys) h = cc
lex-IsStrict s (x ∷ xs) [] h = cc
lex-IsStrict s (x ∷ xs) (y ∷ ys) h = ground (arith, s x y, lex-IsStrict s xs ys)
