-- ===== src/Worker/Fund/Stroops.antt =====
-- `BigInt(Math.round(parseFloat(amount) * 10_000_000))`: the product is one of doubles, which have 53
-- bits. The text has seven decimals and names less than 2^40 dollars, so that a double between them
-- is reached by 80 doublings of the numerator or of the denominator, and a zero stays zero.
use nexus_hub_contract.Prelude.{ℕ, zero, suc, ◌+◌, ◌-◌, ◌*◌, ◌/◌, ◌%◌, ◌^◌, ltb, leb, if◌then◌else◌}
use nexus_hub_contract.Prelude.Int.{ℤ, pos_part, neg_part, sub_ℕ}

-- n / d to the nearest, a tie to the even one.
abbrev nearest : ℕ → ℕ → ℕ
nearest n d =
    if ltb (2 * (n % d)) d
    then n / d
    else if ltb d (2 * (n % d))
    then n / d + 1
    else n / d + (n / d) % 2

-- The double next to n / d below 2^53, over a power of two `k`.
abbrev fine : (fuel n d k : ℕ) → ℕ × ℕ
fine zero n d k = (nearest n d, k)
fine (suc fuel) n d k =
    let more = fine fuel (2 * n) d (2 * k) in if ltb n (2 ^ 52 * d) then more else (nearest n d, k)

-- From 2^53 on, the doubles are multiples of a power of two `k`.
abbrev coarse : (fuel n d k : ℕ) → ℕ × ℕ
coarse zero n d k = (nearest n d * k, 1)
coarse (suc fuel) n d k =
    let more = coarse fuel n (2 * d) (2 * k) in
    if leb (2 ^ 53 * d) n then more else (nearest n d * k, 1)

abbrev to_double : (n d : ℕ) → ℕ × ℕ
to_double n d = if leb (2 ^ 53 * d) n then coarse 80 n d 1 else fine 80 n d 1

-- The double of the text, times ten million.
abbrev product : ℕ → ℕ × ℕ
product n = let (m, k) = to_double n 10_000_000 in to_double (m * 10_000_000) k

-- `Math.round`, a half upwards.
abbrev round_up : ℕ × ℕ → ℕ
round_up (m, k) = (2 * m + k) / (2 * k)

abbrev round_down : ℕ × ℕ → ℕ
round_down (m, k) = (2 * m + k - 1) / (2 * k)

-- Of a count of 10^-7 dollars, for the text of that value.
unfoldable pub stroops_of : ℤ → ℤ
stroops_of amount =
    sub_ℕ (round_up (product (pos_part amount))) (round_down (product (neg_part amount)))
