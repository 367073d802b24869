-- ===== src/Common/Numbers.antt =====
-- Python's rounding of exact quotients.
use native.Mathlib.Nat.{div-add-mod, div-le_of_le-mul, mul_comm}
use alfaedge_pulse.Common.{
  ℕ, ◌+◌, ◌*◌, ◌/◌, ◌%◌, ◌≤◌, ◌<◌, ◌≡◌, sym, ap, ◌∙◌, arith, ltb, ◌==◌, if◌then◌else◌,
}

-- `round(n / d)`: to the nearest whole, a half to the even one.
unfoldable pub round_ratio : ℕ → ℕ → ℕ
round_ratio n d =
    let q = n / d in
    let r = n % d in
    if ltb (2 * r) d then q else if ltb d (2 * r) then q + 1 else if q % 2 == 0 then q else q + 1

exact_rest : (n d k : ℕ) → n ≤ k * d → n / d ≡ k → n % d ≡ 0
exact_rest n d k h e =
    let whole : d * k + n % d ≡ n = ap (λ q. d * q + n % d) (sym e) ∙ div-add-mod n d in
    omega (arith, whole, h, mul_comm d k)

-- A quotient of at most `k` rounds to at most `k`.
pub round_ratio-le : (n d k : ℕ) → 0 < d → n ≤ k * d → round_ratio n d ≤ k
unfolding round_ratio
round_ratio-le n d k pos h =
    let below : n / d ≤ k = div-le_of_le-mul d (rw (mul_comm d k) h) in
    ground (arith, below, exact_rest n d k h)
