-- ===== src/Server/Views/Layers.antt =====
-- internal/server/handlers.go: which layers `layerViews` highlights.
use mathlib.Core.List.Perm
use mathlib.Core.List.{
  Mem, Pairwise-append, mem-append, mem-cons_self, mem-cons_of_mem, eq-or-mem_of_mem-cons,
  not-mem-nil, exists_of_mem-map,
}
use mathlib.Core.Logic.Or
use mathlib.Core.HLevel.{¬_prop}
use mathlib.Core.Logic.{∥∥₁_elim}
use maze_registry_ui.Prelude.{
  ℕ, ◌+◌, ◌≤◌, ◌≡◌, refl, sym, subst, ap, ◌∙◌, List, [], ◌∷◌, ◌++◌, map, true, false, ◌&&◌, not,
  Ordering, ◌==◌, arith, Bool-cases, inl, inr, if◌then◌else◌, length, take, drop, take-append-drop,
}
use maze_registry_ui.Prelude.Int.{ℤ, le_zero, compare_int}
use maze_registry_ui.Prelude.Sort.{IsSorted, sort_by-perm, sort_by-IsSorted}
use maze_registry_ui.Registry.Manifest.{Layer}
use maze_registry_ui.Server.Views.{
  Floats, LayerView, number, by_size, ranked, has_index, hot_of, hot_layers, layer_view,
  layer_views, total_bytes,
}
use maze_registry_ui.Server.Views.Positions.{
  by_size-IsOrder, ranked_apart, number_same, count_in, count_le, length-take-le,
}

module _ (floats : Floats) where
  hot_of_le : (total : ℤ) (es : List (ℕ × Layer)) → length (hot_of floats total es) ≤ length es
  unfolding hot_of
  hot_of_le total [] = omega arith
  hot_of_le total ((i, l) ∷ es) = ground (arith, hot_of_le total es)

  hot_found :
      (total : ℤ) (es : List (ℕ × Layer)) (i : ℕ)
      → has_index i (hot_of floats total es) ≡ true
      → (l : Layer) × Mem (i, l) es × (le_zero total ≡ false)
  unfolding hot_of
  hot_found total [] i h = cc
  hot_found total ((j, l) ∷ es) i h =
      elim (Bool-cases (not (le_zero total) && floats.over_twentieth l.size total)) [
        | inl over ↦ elim (Bool-cases (j == i)) [
          | inl e ↦ (
            l,
            subst (λ k. Mem (k, l) ((j, l) ∷ es)) (ground (arith, e)) mem-cons_self,
            ground arith,
          )
          | inr e ↦
              let (l', m, pos) = hot_found total es i (ground arith) in
              (l', mem-cons_of_mem _ m, pos)
        ]
        | inr under ↦
            let (l', m, pos) = hot_found total es i (ground arith) in (l', mem-cons_of_mem _ m, pos)
      ]

  cold_under :
      (total : ℤ) (es : List (ℕ × Layer)) (j : ℕ) (m : Layer)
      → le_zero total ≡ false
      → has_index j (hot_of floats total es) ≡ false
      → Mem (j, m) es
      → floats.over_twentieth m.size total ≡ false
  unfolding hot_of
  cold_under total [] j m pos h mem = absurd (not-mem-nil mem)
  cold_under total ((i, l) ∷ es) j m pos h mem =
      Or.elim (hlevel) (eq-or-mem_of_mem-cons mem)
        (λ e. ground (arith, ap (λ p. p.0) e, ap (λ p. floats.over_twentieth p.1.size total) e))
        (λ later. cold_under total es j m pos (ground arith) later)

  hot_beats :
      (layers : List Layer) (i j : ℕ) (l m : Layer)
      → Mem (i, l) (number 0 layers)
      → Mem (j, m) (number 0 layers)
      → has_index i (hot_layers floats layers) ≡ true
      → has_index j (hot_layers floats layers) ≡ false
      → compare_int l.size m.size ≡ Ordering.lt
      → floats.over_twentieth m.size (total_bytes layers (ℤ.pos 0)) ≡ false
  unfolding hot_layers ranked
  hot_beats layers i j l m mi mj hot cold less =
      let total = total_bytes layers (ℤ.pos 0) in
      let order = ranked layers in
      let top = take 3 order in
      let (l', found, pos) = hot_found total top i hot in
      let same = sort_by-perm by_size (number 0 layers) in
      let joined : top ++ drop 3 order ≡ order = take-append-drop 3 order in
      let sorted =
        subst (IsSorted by_size) (sym joined)
          (sort_by-IsSorted by_size-IsOrder (number 0 layers)) in
      let split = (Pairwise-append (λ a b. ¬_prop) {l₁ = top} {l₂ = drop 3 order}).0 sorted in
      let placed : Mem (i, l') (number 0 layers) =
        (Perm.mem_iff same).0 (subst (Mem (i, l')) joined (mem-append.1 (Or.inl found))) in
      let smaller : compare_int l'.size m.size ≡ Ordering.lt =
        sym (number_same 0 layers i l l' m.size mi placed) ∙ less in
      let either = mem-append.0 (subst (Mem (j, m)) (sym joined) ((Perm.mem_iff same).1 mj)) in
      Or.elim (hlevel) either (λ up. cold_under total top j m pos cold up)
        (λ down. absurd (ranked_apart i j l' m (split.2 (i, l') found (j, m) down) smaller))

  abbrev pub hot_count : List (LayerView floats.Float) → ℕ
  hot_count [] = 0
  hot_count (v ∷ vs) = (if v.hot then 1 else 0) + hot_count vs

  -- at most three are highlighted, and none of these is smaller than another that could be
  pub record AreHighlighted (layers : List Layer) (views : List (LayerView floats.Float))
      : Type 0 where
    pub few : hot_count views ≤ 3
    pub in_order : map (λ v. v.digest) views ≡ map (λ l. l.digest) layers
    pub largest :
        (a b : LayerView floats.Float)
        → Mem a views
        → Mem b views
        → a.hot ≡ true
        → b.hot ≡ false
        → compare_int a.size b.size ≡ Ordering.lt
        → floats.over_twentieth b.size (total_bytes layers (ℤ.pos 0)) ≡ false

  views_count :
      (total : ℤ) (hot : List ℕ) (es : List (ℕ × Layer))
      → hot_count (map (layer_view floats total hot) es) ≡ count_in hot es
  unfolding layer_view
  views_count total hot [] = refl
  views_count total hot ((i, l) ∷ es) = omega (arith, views_count total hot es)

  views_digests :
      (total : ℤ) (hot : List ℕ) (k : ℕ) (ls : List Layer)
      → map (λ v. v.digest) (map (layer_view floats total hot) (number k ls))
        ≡ map (λ l. l.digest) ls
  unfolding layer_view number
  views_digests total hot k [] = refl
  views_digests total hot k (l ∷ ls) = ap (λ ds. l.digest ∷ ds) (views_digests total hot (k + 1) ls)

  hot_layers_le : (layers : List Layer) → length (hot_layers floats layers) ≤ 3
  unfolding hot_layers
  hot_layers_le layers =
      let top = take 3 (ranked layers) in
      omega (arith, hot_of_le (total_bytes layers (ℤ.pos 0)) top, length-take-le 3 (ranked layers))

  -- layerViews shows the layers in their order, highlights at most three of them, and if a layer
  -- that is not highlighted is larger than one that is, its share of the total is not over a
  -- twentieth.
  pub layer_views-AreHighlighted :
      (layers : List Layer) → AreHighlighted layers (layer_views floats layers)
  unfolding layer_views layer_view
  layer_views-AreHighlighted layers =
      let hot = hot_layers floats layers in
      let total = total_bytes layers (ℤ.pos 0) in
      record {
        few = omega (
          arith,
          views_count total hot (number 0 layers),
          count_le hot layers,
          hot_layers_le layers,
        );
        in_order = views_digests total hot 0 layers;
        largest = λ a b ma mb ha hb less.
            ∥∥₁_elim (exists_of_mem-map ma) (hlevel) (λ ((i, l), mi, ea).
              ∥∥₁_elim (exists_of_mem-map mb) (hlevel) (λ ((j, m), mj, eb).
                let sizes : compare_int l.size m.size ≡ Ordering.lt =
                  ap (λ v. compare_int v.size m.size) ea
                  ∙ (ap (λ v. compare_int a.size v.size) eb ∙ less) in
                ap (λ v. floats.over_twentieth v.size total) (sym eb)
                ∙ hot_beats layers i j l m mi mj (ap (λ v. v.hot) ea ∙ ha) (ap (λ v. v.hot) eb ∙ hb)
                    sizes));
      }
