-- ===== src/Splitter/Layers/Count.antt =====
-- What `count_layers` of tools/gguf-splitter/src/main.rs counts.
use arcflame.Base.{
  ℕ, suc, ◌-◌, Bool, true, false, leb, if◌then◌else◌, leb→le, ◌^◌, ◌<◌, ◌≤◌, ◌≡◌, ◌⊎◌, inl, inr,
  refl, ◌∙◌, List, [], ◌∷◌, Option, none, some, All, arith,
}
use arcflame.Splitter.{add_u32}
use arcflame.Splitter.Header.{TensorInfo}
use arcflame.Splitter.Layers.{get_layer_id, raise, count_layers_from, count_layers}

-- The layer, if there is one, is below a bound.
abbrev pub LayerBelow : ℕ → Option ℕ → Type 0
LayerBelow n none = Unit {0}
LayerBelow n (some layer) = layer < n

-- Some tensor is of this layer.
abbrev pub HasLayer : ℕ → List TensorInfo → Type 0
HasLayer layer [] = ⊥
HasLayer layer (t ∷ ts) = (get_layer_id t.name ≡ some layer) ⊎ HasLayer layer ts

abbrev pub TensorBelow : ℕ → TensorInfo → Type 0
TensorBelow n t = LayerBelow n (get_layer_id t.name)

raise-LayerBelow :
    (max : ℕ) (o : Option ℕ)
    → LayerBelow (2 ^ 32 - 1) o
    → LayerBelow (raise max o) o
      × (max ≤ raise max o)
      × ((raise max o ≡ max) ⊎ ((layer : ℕ) × (o ≡ some layer) × (raise max o ≡ suc layer)))
raise-LayerBelow max none small = (tt, omega arith, inl refl)
raise-LayerBelow max (some layer) small = by_test (leb max layer) refl
  where
    by_test :
        (b : Bool)
        → leb max layer ≡ b
        → let n = if b then add_u32 layer 1 else max in
          (layer < n) × (max ≤ n) × ((n ≡ max) ⊎ ((k : ℕ) × (some layer ≡ some k) × (n ≡ suc k)))
    by_test true e =
        (omega arith, omega (arith, leb→le max layer e), inr (layer, refl, omega arith))
    by_test false e = (ground arith, omega arith, inl refl)

LayerBelow-mono : (m n : ℕ) (o : Option ℕ) → m ≤ n → LayerBelow m o → LayerBelow n o
LayerBelow-mono m n none le below = tt
LayerBelow-mono m n (some layer) le below = omega arith

count_layers_from_lem :
    (max : ℕ) (ts : List TensorInfo)
    → All (TensorBelow (2 ^ 32 - 1)) ts
    → All (TensorBelow (count_layers_from max ts)) ts
      × (max ≤ count_layers_from max ts)
      × ((count_layers_from max ts ≡ max)
          ⊎ ((layer : ℕ) × HasLayer layer ts × (count_layers_from max ts ≡ suc layer)))
unfolding count_layers_from
count_layers_from_lem max [] small = (tt, omega arith, inl refl)
count_layers_from_lem max (t ∷ ts) small =
    let (here, up, from) = raise-LayerBelow max (get_layer_id t.name) small.0 in
    let (there, up', from') = count_layers_from_lem (raise max (get_layer_id t.name)) ts small.1 in
    (
      (LayerBelow-mono _ _ (get_layer_id t.name) up' here, there),
      omega (arith, up, up'),
      reached from from',
    )
  where
    n : ℕ
    n = count_layers_from (raise max (get_layer_id t.name)) ts

    reached :
        ((raise max (get_layer_id t.name) ≡ max)
          ⊎ ((layer : ℕ) × (get_layer_id t.name ≡ some layer)
              × (raise max (get_layer_id t.name) ≡ suc layer)))
        → ((n ≡ raise max (get_layer_id t.name))
            ⊎ ((layer : ℕ) × HasLayer layer ts × (n ≡ suc layer)))
        → (n ≡ max) ⊎ ((layer : ℕ) × HasLayer layer (t ∷ ts) × (n ≡ suc layer))
    reached a (inr (layer, has, e)) = inr (layer, inr has, e)
    reached (inl e) (inl e') = inl (e' ∙ e)
    reached (inr (layer, is, e)) (inl e') = inr (layer, inl is, e' ∙ e)

-- If no tensor is of layer 2 ^ 32 - 1 or above, `count_layers` is the least number above all layers:
-- every layer of a tensor is below it, and it is 0, or some tensor is of the layer just below it.
pub count_layers_least :
    (tensors : List TensorInfo)
    → All (TensorBelow (2 ^ 32 - 1)) tensors
    → All (TensorBelow (count_layers tensors)) tensors
      × ((count_layers tensors ≡ 0)
          ⊎ ((layer : ℕ) × HasLayer layer tensors × (count_layers tensors ≡ suc layer)))
unfolding count_layers
count_layers_least tensors small =
    let (below, _, reached) = count_layers_from_lem 0 tensors small in (below, reached)
