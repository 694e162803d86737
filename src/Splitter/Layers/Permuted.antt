-- ===== src/Splitter/Layers/Permuted.antt =====
-- What a rearrangement of indices keeps: bounds, distinctness, length.
use mathlib.Core.Path.{subst}
use mathlib.Core.List.{Perm, Permᴰ}
use mathlib.Core.Logic.{∥∥₁_elim}
use native.Mathlib.Bridge.{le_prop}
use arcflame.Base.{ℕ, suc, ◌≡◌, ◌≢◌, ◌<◌, refl, sym, ap, ◌∙◌, List, [], ◌∷◌, ◌++◌, All, length}
use arcflame.Splitter.Writer.Sorting.{Distinct}

All-Permᴰ : (P : ℕ → Type 0) {xs ys : List ℕ} → Permᴰ xs ys → All P ys → All P xs
All-Permᴰ P Permᴰ.nil all = tt
All-Permᴰ P (Permᴰ.cons e d) all = (subst P (sym e) all.0, All-Permᴰ P d all.1)
All-Permᴰ P (Permᴰ.swap e e') all = (subst P (sym e) all.1.0, (subst P (sym e') all.0, all.1.1))
All-Permᴰ P (Permᴰ.trans d d') all = All-Permᴰ P d (All-Permᴰ P d' all)

Distinct-Permᴰ : {xs ys : List ℕ} → Permᴰ xs ys → Distinct ys → Distinct xs
Distinct-Permᴰ Permᴰ.nil h = tt
Distinct-Permᴰ (Permᴰ.cons {l₁ = l₁} e d) h =
    (subst (λ i. All (λ j. j ≢ i) l₁) (sym e) (All-Permᴰ _ d h.0), Distinct-Permᴰ d h.1)
Distinct-Permᴰ (Permᴰ.swap {l = l} e e') h = (
  ((λ p. h.0.0 (sym e ∙ sym p ∙ e')), subst (λ i. All (λ j. j ≢ i) l) (sym e) h.1.0),
  (subst (λ i. All (λ j. j ≢ i) l) (sym e') h.0.1, h.1.1),
)
Distinct-Permᴰ (Permᴰ.trans d d') h = Distinct-Permᴰ d (Distinct-Permᴰ d' h)

length-Permᴰ : {xs ys : List ℕ} → Permᴰ xs ys → length xs ≡ length ys
length-Permᴰ Permᴰ.nil = refl
length-Permᴰ (Permᴰ.cons e d) = ap suc (length-Permᴰ d)
length-Permᴰ (Permᴰ.swap e e') = refl
length-Permᴰ (Permᴰ.trans d d') = length-Permᴰ d ∙ length-Permᴰ d'

All-IsProp : {P : ℕ → Type 0} → ((i : ℕ) → IsProp (P i)) → (xs : List ℕ) → IsProp (All P xs)
All-IsProp h [] = hlevel
All-IsProp h (x ∷ xs) = hlevel (h x, All-IsProp h xs)

Distinct-IsProp : (xs : List ℕ) → IsProp (Distinct xs)
Distinct-IsProp [] = hlevel
Distinct-IsProp (x ∷ xs) = hlevel (All-IsProp {P = λ j. j ≢ x} (λ j. hlevel) xs, Distinct-IsProp xs)

pub All-Perm : (n : ℕ) {xs ys : List ℕ} → Perm xs ys → All (λ i. i < n) ys → All (λ i. i < n) xs
All-Perm n {xs} p all = ∥∥₁_elim p (All-IsProp (λ i. le_prop) xs) (λ d. All-Permᴰ _ d all)

pub Distinct-Perm : {xs ys : List ℕ} → Perm xs ys → Distinct ys → Distinct xs
Distinct-Perm {xs} p h = ∥∥₁_elim p (Distinct-IsProp xs) (λ d. Distinct-Permᴰ d h)

pub length-Perm : {xs ys : List ℕ} → Perm xs ys → length xs ≡ length ys
length-Perm {xs} {ys} p =
    ∥∥₁_elim {A = Permᴰ xs ys} {P = length xs ≡ length ys} p (hlevel) (length-Permᴰ)

pub All-append : (P : ℕ → Type 0) (xs ys : List ℕ) → All P (xs ++ ys) → All P xs × All P ys
All-append P [] ys all = (tt, all)
All-append P (x ∷ xs) ys all =
    let (front, back) = All-append P xs ys all.1 in ((all.0, front), back)

pub Distinct-append : (xs ys : List ℕ) → Distinct (xs ++ ys) → Distinct xs × Distinct ys
Distinct-append [] ys h = (tt, h)
Distinct-append (x ∷ xs) ys h =
    let (front, back) = Distinct-append xs ys h.1 in (((All-append _ xs ys h.0).0, front), back)
