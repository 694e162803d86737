-- ===== src/Agent/Shard/Laws.antt =====
-- How the layers of node-agent/src/inference/shard.rs agree with those of the splitter.
use arcflame.Base.{
  ℕ, ◌+◌, ◌-◌, ◌*◌, ◌^◌, ◌≤◌, ◌<◌, ◌≡◌, ◌⊎◌, refl, ap, ◌∙◌, Bool, true, false, ◌&&◌, [], ◌∷◌,
  Option, none, some, some-injective, take, ltb, leb, ◌==◌, if◌then◌else◌, Bool-cases, inl, inr,
  arith,
}
use arcflame.Base.Text.{
  codes, strip_prefix, find, parse_digits, parse_number, parse_u32, parse_i32, pos,
}
use arcflame.Splitter.Layers.{get_layer_id}
use arcflame.Agent.{Text}
use arcflame.Agent.Shard.{last_layer, layer_from_tensor_name, tensor_belongs_to_node, from_bits}

le→leb : (a b : ℕ) → a ≤ b → leb a b ≡ true
le→leb a b h = ground arith

if-some :
    {A : Type 0} (b : Bool) {x : Option A} {a : A}
    → (if b then x else none) ≡ some a
    → (b ≡ true) × (x ≡ some a)
if-some true h = (refl, h)
if-some false h = cc

and-true : (a b c : Bool) → (a && b && c) ≡ true → (a ≡ true) × (b ≡ true) × (c ≡ true)
and-true true true true h = (refl, refl, refl)
and-true true true false h = cc
and-true true false c h = cc
and-true false b c h = cc

-- What a digit in front of a number that is read leaves to be read.
digits-some :
    (top acc c : ℕ) (cs : Text) (l : ℕ)
    → parse_digits top acc (c ∷ cs) ≡ some l
    → (leb b'0' c ≡ true)
      × (leb c b'9' ≡ true)
      × (parse_digits top (acc * 10 + (c - b'0')) cs ≡ some l)
unfolding parse_digits
digits-some top acc c cs l h =
    let (test, rest) = if-some (leb b'0' c && leb c b'9' && leb (acc * 10 + (c - b'0')) top) h in
    let (low, high, _) =
      and-true (leb b'0' c) (leb c b'9') (leb (acc * 10 + (c - b'0')) top) test in
    (low, high, rest)

-- The accumulated digits never shrink.
parse_digits-le : (top acc : ℕ) (cs : Text) (l : ℕ) → parse_digits top acc cs ≡ some l → acc ≤ l
unfolding parse_digits
parse_digits-le top acc [] l h = omega (arith, some-injective _ _ h)
parse_digits-le top acc (c ∷ cs) l h =
    let (_, _, rest) = digits-some top acc c cs l h in
    omega (arith, parse_digits-le top (acc * 10 + (c - b'0')) cs l rest)

-- A number that a wide type reads is read by a narrow one that holds it.
parse_digits_narrow :
    (top wide acc : ℕ) (cs : Text) (l : ℕ)
    → l ≤ top
    → parse_digits wide acc cs ≡ some l
    → parse_digits top acc cs ≡ some l
unfolding parse_digits
parse_digits_narrow top wide acc [] l small h = h
parse_digits_narrow top wide acc (c ∷ cs) l small h =
    let (low, high, rest) = digits-some wide acc c cs l h in
    let bound = parse_digits-le wide (acc * 10 + (c - b'0')) cs l rest in
    rw (low, high, le→leb (acc * 10 + (c - b'0')) top (omega arith))
      (parse_digits_narrow top wide (acc * 10 + (c - b'0')) cs l small rest)

from_bits_small : (n : ℕ) → n < 2 ^ 31 → from_bits n ≡ pos n
from_bits_small n small = ground arith

last_layer_fits :
    (first num : ℕ) (lm : Bool)
    → 0 < num
    → first + num < 2 ^ 31
    → last_layer (record { first_layer = pos first; num_layers = pos num; has_lm_head = lm })
      ≡ pos (first + num - 1)
unfolding last_layer
last_layer_fits first num lm some_layers fits =
    ap from_bits (omega arith) ∙ from_bits_small (first + num - 1) (omega arith)

parse_number_narrow :
    (cs : Text) (l : ℕ)
    → l < 2 ^ 31
    → parse_number (2 ^ 32 - 1) cs ≡ some l
    → parse_number (2 ^ 31 - 1) cs ≡ some l
parse_number_narrow [] l small h = h
parse_number_narrow (c ∷ cs) l small h =
    parse_digits_narrow (2 ^ 31 - 1) (2 ^ 32 - 1) 0 (c ∷ cs) l (omega arith) h

-- A text that starts with a minus is no number of a `u32`.
minus_none :
    (c : ℕ) (cs : Text) (l : ℕ) → parse_number (2 ^ 32 - 1) (c ∷ cs) ≡ some l → (c == b'-') ≡ false
minus_none c cs l h = let (low, _, _) = digits-some (2 ^ 32 - 1) 0 c cs l h in ground arith

parse_narrow :
    (cs : Text) (l : ℕ) → l < 2 ^ 31 → parse_u32 cs ≡ some l → parse_i32 cs ≡ some (pos l)
unfolding parse_u32 parse_i32
parse_narrow [] l small h = cc
parse_narrow (c ∷ cs) l small h = by_sign (Bool-cases (c == b'+'))
  where
    by_sign : ((c == b'+') ≡ true) ⊎ ((c == b'+') ≡ false) → parse_i32 (c ∷ cs) ≡ some (pos l)
    by_sign (inl plus) =
        let minus : (c == b'-') ≡ false = ground arith in
        let number : parse_number (2 ^ 32 - 1) cs ≡ some l = rw plus at h in
        rw (minus, plus, parse_number_narrow cs l small number) refl
    by_sign (inr plus) =
        let number : parse_number (2 ^ 32 - 1) (c ∷ cs) ≡ some l = rw plus at h in
        let minus = minus_none c cs l number in
        rw (minus, plus, parse_number_narrow (c ∷ cs) l small number) refl

leb-below : (m n : ℕ) → 0 < n → leb m (n - 1) ≡ ltb m n
leb-below m n some_n = ground arith

layer_agrees :
    (name : Text) (l : ℕ)
    → l < 2 ^ 31
    → get_layer_id name ≡ some l
    → layer_from_tensor_name name ≡ some (pos l)
unfolding get_layer_id layer_from_tensor_name
layer_agrees name l small h = by_prefix (strip_prefix (codes "blk.") name) h
  where
    by_dot :
        (rest : Text) (o : Option ℕ)
        → elim o [ none ↦ none | some dot ↦ parse_u32 (take dot rest) ] ≡ some l
        → elim o [ none ↦ none | some dot ↦ parse_i32 (take dot rest) ] ≡ some (pos l)
    by_dot rest none h' = cc
    by_dot rest (some dot) h' = parse_narrow (take dot rest) l small h'

    by_prefix :
        (o : Option Text)
        → elim o [
          | none ↦ none
          | some rest ↦ elim (find b'.' rest) [ none ↦ none | some dot ↦ parse_u32 (take dot rest) ]
        ]
          ≡ some l
        → elim o [
          | none ↦ none
          | some rest ↦ elim (find b'.' rest) [ none ↦ none | some dot ↦ parse_i32 (take dot rest) ]
        ]
          ≡ some (pos l)
    by_prefix none h' = cc
    by_prefix (some rest) h' = by_dot rest (find b'.' rest) h'

-- A tensor that the splitter puts in layer `l` belongs to a node exactly when `l` is one of the
-- node's layers, `first`, …, `first + num - 1`. The range is not empty, and it and `l` stay below
-- 2 ^ 31, where neither the node's `i32` nor its sum wraps.
pub belongs_by_layer :
    (name : Text) (l first num : ℕ) (lm : Bool)
    → get_layer_id name ≡ some l
    → l < 2 ^ 31
    → 0 < num
    → first + num < 2 ^ 31
    → tensor_belongs_to_node name
        (record { first_layer = pos first; num_layers = pos num; has_lm_head = lm })
      ≡ (leb first l && ltb l (first + num))
unfolding tensor_belongs_to_node strip_prefix
belongs_by_layer name l first num lm is_layer small some_layers fits =
    rw
      (
        layer_agrees name l small is_layer,
        last_layer_fits first num lm some_layers fits,
        leb-below l (first + num) (omega arith),
      )
      refl
