-- ===== src/Splitter/Writer/Align.antt =====
-- `align_up` by 32 in plain arithmetic.
use arcflame.Base.{ℕ, ◌+◌, ◌-◌, ◌*◌, ◌/◌, ◌%◌, ◌^◌, ◌<◌, ◌≤◌, ◌≡◌, ◌∙◌, ap, arith}
use arcflame.Base.Bits.{bit_and_clear, bit_and}
use arcflame.Splitter.Writer.{align_up}

pub align_up_32 : (x : ℕ) → x + 32 < 2 ^ 64 → align_up x 32 ≡ (x + 31) / 32 * 32
unfolding align_up
align_up_32 x h =
    let e : ((x + 32) % 2 ^ 64 + 2 ^ 64 - 1) % 2 ^ 64 ≡ x + 31 = omega arith in
    ap (λ y. bit_and y (2 ^ 64 - 32)) e ∙ bit_and_clear (x + 31) (omega arith)

-- Below the wrap, `align_up(x, 32)` is the least multiple of 32 that is not below `x`: it is one,
-- it is at least `x`, and it is less than `x + 32`.
pub align_up_least :
    (x : ℕ)
    → x + 32 < 2 ^ 64
    → (align_up x 32 % 32 ≡ 0) × (x ≤ align_up x 32) × (align_up x 32 < x + 32)
align_up_least x h = omega (arith, align_up_32 x h)
