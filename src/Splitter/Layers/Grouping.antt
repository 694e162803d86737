-- ===== src/Splitter/Layers/Grouping.antt =====
-- What `group_tensors_by_layer` puts into each group.
use arcflame.Base.{
  ℕ, suc, ◌<◌, ◌≡◌, refl, ap, ◌∙◌, sym, Bool, true, false, List, [], ◌∷◌, ◌++◌, append-nil,
  append_assoc, Option, none, some, length, get_elem?, get_or, replicate, ltb, leb, ◌==◌,
  if◌then◌else◌, arith, length-set, get_or-set_self, get_or-set_ne, get_elem?-get_or, get_or-append,
  get_or-append_length, get_or-replicate, length-append, length-replicate, inl, inr, Bool-cases,
}
use arcflame.Splitter.Header.{TensorInfo}
use arcflame.Splitter.Layers.{get_layer_id, Groups, place, group_loop, group_tensors_by_layer}

abbrev pub in_layer : ℕ → Option ℕ → Bool
in_layer k none = false
in_layer k (some layer) = layer == k

-- In none of the layers below `num_layers`.
abbrev pub outside : ℕ → Option ℕ → Bool
outside num_layers none = true
outside num_layers (some layer) = leb num_layers layer

-- The positions, counted from `i`, of the tensors whose layer passes the test, in file order.
unfoldable pub matching : (Option ℕ → Bool) → ℕ → List TensorInfo → List ℕ
matching test i [] = []
matching test i (t ∷ ts) =
    let rest = matching test (suc i) ts in if test (get_layer_id t.name) then i ∷ rest else rest

length-place : (i : ℕ) (o : Option ℕ) (g : Groups) → length (place i o g).groups ≡ length g.groups
length-place i none g = refl
length-place i (some layer) g = elim (Bool-cases (ltb layer (length g.groups))) [
  | inl e ↦ rw e (length-set g.groups layer _)
  | inr e ↦ rw e refl
]

place_group :
    (i : ℕ) (o : Option ℕ) (g : Groups) (k : ℕ)
    → k < length g.groups
    → get_or (place i o g).groups k []
      ≡ (if in_layer k o then get_or g.groups k [] ++ (i ∷ []) else get_or g.groups k [])
place_group i none g k h = refl
place_group i (some layer) g k h = ground (
  arith,
  get_or-set_self g.groups k (get_or g.groups k [] ++ (i ∷ [])) [],
  get_or-set_ne g.groups layer k (get_or g.groups layer [] ++ (i ∷ [])) [],
)

place_non_layer :
    (i : ℕ) (o : Option ℕ) (g : Groups)
    → (place i o g).non_layer
      ≡ (if outside (length g.groups) o then g.non_layer ++ (i ∷ []) else g.non_layer)
place_non_layer i none g = refl
place_non_layer i (some layer) g = ground arith

length-group_loop :
    (i : ℕ) (ts : List TensorInfo) (g : Groups)
    → length (group_loop i ts g).groups ≡ length g.groups
unfolding group_loop
length-group_loop i [] g = refl
length-group_loop i (t ∷ ts) g =
    length-group_loop (suc i) ts _ ∙ length-place i (get_layer_id t.name) g

snoc_if :
    (b : Bool) (xs rest : List ℕ) (i : ℕ)
    → (if b then xs ++ (i ∷ []) else xs) ++ rest ≡ xs ++ (if b then i ∷ rest else rest)
snoc_if true xs rest i = append_assoc xs (i ∷ []) rest
snoc_if false xs rest i = refl

group_loop_group :
    (i : ℕ) (ts : List TensorInfo) (g : Groups) (k : ℕ)
    → k < length g.groups
    → get_or (group_loop i ts g).groups k [] ≡ get_or g.groups k [] ++ matching (in_layer k) i ts
unfolding group_loop matching
group_loop_group i [] g k h = sym (append-nil _)
group_loop_group i (t ∷ ts) g k h =
    group_loop_group (suc i) ts _ k (omega (arith, length-place i (get_layer_id t.name) g))
    ∙ ap (λ xs. xs ++ matching (in_layer k) (suc i) ts) (place_group i (get_layer_id t.name) g k h)
    ∙ snoc_if (in_layer k (get_layer_id t.name)) _ _ i

group_loop_non_layer :
    (i : ℕ) (ts : List TensorInfo) (g : Groups)
    → (group_loop i ts g).non_layer ≡ g.non_layer ++ matching (outside (length g.groups)) i ts
unfolding group_loop matching
group_loop_non_layer i [] g = sym (append-nil _)
group_loop_non_layer i (t ∷ ts) g =
    group_loop_non_layer (suc i) ts _
    ∙ rw (length-place i (get_layer_id t.name) g) (
        ap (λ xs. xs ++ matching (outside (length g.groups)) (suc i) ts)
          (place_non_layer i (get_layer_id t.name) g))
    ∙ snoc_if (outside (length g.groups) (get_layer_id t.name)) _ _ i

abbrev no_groups : ℕ → Groups
no_groups num_layers = record { groups = replicate num_layers []; non_layer = [] }

filled_length :
    (tensors : List TensorInfo) (num_layers : ℕ)
    → length (group_loop 0 tensors (no_groups num_layers)).groups ≡ num_layers
filled_length tensors num_layers =
    length-group_loop 0 tensors (no_groups num_layers) ∙ length-replicate num_layers []

pub length-group_tensors_by_layer :
    (tensors : List TensorInfo) (num_layers : ℕ)
    → length (group_tensors_by_layer tensors num_layers) ≡ suc num_layers
unfolding group_tensors_by_layer
length-group_tensors_by_layer tensors num_layers =
    let g = group_loop 0 tensors (no_groups num_layers) in
    omega (arith, length-append g.groups (g.non_layer ∷ []), filled_length tensors num_layers)

pub group_tensors_by_layer_group :
    (tensors : List TensorInfo) (num_layers k : ℕ)
    → k < num_layers
    → get_or (group_tensors_by_layer tensors num_layers) k [] ≡ matching (in_layer k) 0 tensors
unfolding group_tensors_by_layer
group_tensors_by_layer_group tensors num_layers k h =
    get_or-append (group_loop 0 tensors (no_groups num_layers)).groups _ k []
      (omega (arith, filled_length tensors num_layers))
    ∙ group_loop_group 0 tensors (no_groups num_layers) k
        (omega (arith, length-replicate {0} {A = List ℕ} num_layers []))
    ∙ ap (λ xs. xs ++ matching (in_layer k) 0 tensors) (get_or-replicate num_layers k [])

pub group_tensors_by_layer_rest :
    (tensors : List TensorInfo) (num_layers : ℕ)
    → get_or (group_tensors_by_layer tensors num_layers) num_layers []
      ≡ matching (outside num_layers) 0 tensors
unfolding group_tensors_by_layer
group_tensors_by_layer_rest tensors num_layers =
    let g = group_loop 0 tensors (no_groups num_layers) in
    ap (λ k. get_or (g.groups ++ (g.non_layer ∷ [])) k []) (sym (filled_length tensors num_layers))
    ∙ get_or-append_length g.groups g.non_layer []
    ∙ group_loop_non_layer 0 tensors (no_groups num_layers)
    ∙ ap (λ n. matching (outside n) 0 tensors) (length-replicate num_layers [])

-- `group_tensors_by_layer` makes `num_layers + 1` groups. Group `k` below `num_layers` holds the
-- indices, in file order, of exactly the tensors of layer `k`; the last group those of all others.
pub group_tensors_by_layer_groups :
    (tensors : List TensorInfo) (num_layers k : ℕ)
    → k < num_layers
    → (length (group_tensors_by_layer tensors num_layers) ≡ suc num_layers)
      × (get_elem? (group_tensors_by_layer tensors num_layers) k
          ≡ some (matching (in_layer k) 0 tensors))
      × (get_elem? (group_tensors_by_layer tensors num_layers) num_layers
          ≡ some (matching (outside num_layers) 0 tensors))
group_tensors_by_layer_groups tensors num_layers k h =
    let len = length-group_tensors_by_layer tensors num_layers in
    let gs = group_tensors_by_layer tensors num_layers in
    (
      len,
      get_elem?-get_or gs k [] (omega (arith, len))
          ∙ ap some (group_tensors_by_layer_group tensors num_layers k h),
      get_elem?-get_or gs num_layers [] (omega (arith, len))
          ∙ ap some (group_tensors_by_layer_rest tensors num_layers),
    )
