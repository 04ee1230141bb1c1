-- ===== src/Config/Expand/Missing.antt =====
-- internal/config/config.go: the names that `Parse` reports as unset.
use maze_registry_ui.Prelude.{
  ℕ, zero, suc, ◌≡◌, refl, sym, subst, ◌∙◌, ◌≢◌, List, [], ◌∷◌, ◌++◌, true, Option, none, some,
  length, ◌-◌, arith, Option-cases, Bool-cases, inl, inr,
}
use maze_registry_ui.Prelude.Bytes.{Bytes, codes}
use maze_registry_ui.Prelude.Text.{contains}
use maze_registry_ui.Config.Expand.{
  Reference, match_ref, replace_ref, expand_from, expand_string, Scalar, expand_scalar, Node, Nodes,
  scalar, branch, nil, cons, expand_node, expand_nodes, expand_root,
}

-- no variable of these names is set
abbrev pub AreUnset : (Bytes → Option Bytes) → List Bytes → Type 0
AreUnset env [] = Unit
AreUnset env (n ∷ ns) = (env n ≡ none) × AreUnset env ns

AreUnset-append :
    (env : Bytes → Option Bytes) (ms ns : List Bytes)
    → AreUnset env ms
    → AreUnset env ns
    → AreUnset env (ms ++ ns)
AreUnset-append env [] ns h k = k
AreUnset-append env (m ∷ ms) ns h k = (h.0, AreUnset-append env ms ns h.1 k)

-- the variable is set, or the reference has a fallback, or its name is missing
data Replaced (env : Bytes → Option Bytes) (m : Reference) : Type 0 where
  found : env m.name ≢ none → (replace_ref env m).1 ≡ [] → Replaced env m
  fell_back : contains (codes ":-") m.text ≡ true → (replace_ref env m).1 ≡ [] → Replaced env m
  lost : env m.name ≡ none → (replace_ref env m).1 ≡ m.name ∷ [] → Replaced env m

replace_ref_cases : (env : Bytes → Option Bytes) (m : Reference) → Replaced env m
unfolding replace_ref
replace_ref_cases env m = elim (Option-cases (env m.name)) [
  | inl h ↦ elim (Bool-cases (contains (codes ":-") m.text)) [
    | inl e ↦ fell_back e (ground arith)
    | inr e ↦ lost h (ground arith)
  ]
  | inr (v, h) ↦ found (λ k. ground arith) (ground arith)
]

replace_ref-AreUnset :
    (env : Bytes → Option Bytes) (m : Reference) → AreUnset env (replace_ref env m).1
replace_ref-AreUnset env m = elim (replace_ref_cases env m) [
  | found h e ↦ subst (AreUnset env) (sym e) tt
  | fell_back h e ↦ subst (AreUnset env) (sym e) tt
  | lost h e ↦ subst (AreUnset env) (sym e) (h, tt)
]

expand_from-AreUnset :
    (env : Bytes → Option Bytes) (k : ℕ) (s : Bytes) → AreUnset env (expand_from env k s).1
unfolding expand_from
expand_from-AreUnset env k [] = tt
expand_from-AreUnset env (suc k) (c ∷ s) = expand_from-AreUnset env k s
expand_from-AreUnset env zero (c ∷ s) = elim (Option-cases (match_ref (c ∷ s))) [
  | inl h ↦ rw (h, expand_from) (expand_from-AreUnset env zero s)
  | inr (m, h) ↦
      rw (h, expand_from)
        (AreUnset-append env (replace_ref env m).1 (expand_from env (length m.text - 1) s).1
          (replace_ref-AreUnset env m) (expand_from-AreUnset env (length m.text - 1) s))
]

expand_string-AreUnset :
    (env : Bytes → Option Bytes) (s : Bytes) → AreUnset env (expand_string env s).1
unfolding expand_string
expand_string-AreUnset env s = expand_from-AreUnset env 0 s

expand_scalar-missing :
    (env : Bytes → Option Bytes) (n : Scalar)
    → (expand_scalar env n).1 ≡ (expand_string env n.value).1
unfolding expand_scalar
expand_scalar-missing env n = ground arith

mutual
  unfolding expand_node expand_nodes

  expand_node-AreUnset :
      (env : Bytes → Option Bytes) (n : Node) → AreUnset env (expand_node env n).1
  expand_node-AreUnset env (scalar n) =
      rw (expand_scalar-missing env n) (expand_string-AreUnset env n.value)
  expand_node-AreUnset env (branch kind ns) = expand_nodes-AreUnset env ns

  expand_nodes-AreUnset :
      (env : Bytes → Option Bytes) (ns : Nodes) → AreUnset env (expand_nodes env ns).1
  expand_nodes-AreUnset env nil = tt
  expand_nodes-AreUnset env (cons n ns) =
      AreUnset-append env (expand_node env n).1 (expand_nodes env ns).1 (expand_node-AreUnset env n)
        (expand_nodes-AreUnset env ns)

-- every variable of these names is set
abbrev pub AreSet : (Bytes → Option Bytes) → List Bytes → Type 0
AreSet env [] = Unit
AreSet env (n ∷ ns) = (env n ≢ none) × AreSet env ns

AreSet-left :
    (env : Bytes → Option Bytes) (ms ns : List Bytes) → AreSet env (ms ++ ns) → AreSet env ms
AreSet-left env [] ns h = tt
AreSet-left env (m ∷ ms) ns h = (h.0, AreSet-left env ms ns h.1)

AreSet-right :
    (env : Bytes → Option Bytes) (ms ns : List Bytes) → AreSet env (ms ++ ns) → AreSet env ns
AreSet-right env [] ns h = h
AreSet-right env (m ∷ ms) ns h = AreSet-right env ms ns h.1

-- the second environment sets whatever the first one sets
abbrev pub Extends : (Bytes → Option Bytes) → (Bytes → Option Bytes) → Type 0
Extends env more = (n : Bytes) → more n ≡ none → env n ≡ none

replace_ref_fallback :
    (env : Bytes → Option Bytes) (m : Reference)
    → contains (codes ":-") m.text ≡ true
    → (replace_ref env m).1 ≡ []
unfolding replace_ref
replace_ref_fallback env m h = ground arith

module _ (env more : Bytes → Option Bytes) (ext : Extends env more) where
  replace_ref-set :
      (m : Reference) → AreSet more (replace_ref env m).1 → (replace_ref more m).1 ≡ []
  replace_ref-set m h = elim (replace_ref_cases more m) [
    | found k e ↦ e
    | fell_back k e ↦ e
    | lost k e ↦ elim (replace_ref_cases env m) [
      | found k' e' ↦ absurd (k' (ext m.name k))
      | fell_back k' e' ↦ replace_ref_fallback more m k'
      | lost k' e' ↦ absurd ((subst (AreSet more) e' h).0 k)
    ]
  ]

  expand_from-set :
      (k : ℕ) (s : Bytes) → AreSet more (expand_from env k s).1 → (expand_from more k s).1 ≡ []
  unfolding expand_from
  expand_from-set k [] h = refl
  expand_from-set (suc k) (c ∷ s) h = expand_from-set k s h
  expand_from-set zero (c ∷ s) h = elim (Option-cases (match_ref (c ∷ s))) [
    | inl e ↦ rw (e, expand_from) (expand_from-set zero s (rw (e, expand_from) at h))
    | inr (m, e) ↦
        let h' = rw (e, expand_from) at h in
        let n = length m.text - 1 in
        rw (e, expand_from)
          (rw
            (
              replace_ref-set m (AreSet-left more (replace_ref env m).1 (expand_from env n s).1 h'),
              expand_from-set n s
                  (AreSet-right more (replace_ref env m).1 (expand_from env n s).1 h'),
            )
            refl)
  ]

  expand_scalar-set :
      (n : Scalar) → AreSet more (expand_scalar env n).1 → (expand_scalar more n).1 ≡ []
  unfolding expand_string
  expand_scalar-set n h =
      expand_scalar-missing more n
      ∙ expand_from-set 0 n.value (subst (AreSet more) (expand_scalar-missing env n) h)

  mutual
    unfolding expand_node expand_nodes

    expand_node-set : (n : Node) → AreSet more (expand_node env n).1 → (expand_node more n).1 ≡ []
    expand_node-set (scalar n) h = expand_scalar-set n h
    expand_node-set (branch kind ns) h = expand_nodes-set ns h

    expand_nodes-set :
        (ns : Nodes) → AreSet more (expand_nodes env ns).1 → (expand_nodes more ns).1 ≡ []
    expand_nodes-set nil h = refl
    expand_nodes-set (cons n ns) h =
        rw
          (
            expand_node-set n (AreSet-left more (expand_node env n).1 (expand_nodes env ns).1 h),
            expand_nodes-set ns (AreSet-right more (expand_node env n).1 (expand_nodes env ns).1 h),
          )
          refl

  pub expand_root-set :
      (root : Option Node) → AreSet more (expand_root env root).1 → (expand_root more root).1 ≡ []
  unfolding expand_root
  expand_root-set none h = refl
  expand_root-set (some n) h = expand_node-set n h

pub expand_root-AreUnset :
    (env : Bytes → Option Bytes) (root : Option Node) → AreUnset env (expand_root env root).1
unfolding expand_root
expand_root-AreUnset env none = tt
expand_root-AreUnset env (some n) = expand_node-AreUnset env n
