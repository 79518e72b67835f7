-- ===== src/Model/Decimal.antt =====
-- A Decimal of decimal.js that is not negative, as the amount of a request is, and what a
-- Decimal(18, 6) column makes of it: the column counts millionths, and PostgreSQL rounds to the
-- nearest, a half away from zero. The amount of a request is the number's shortest decimal, of 17
-- digits at most, so that 1.01 of it has 20, the precision of decimal.js: no operation rounds.
pub mod Exact
use nexus_hub_contract.Prelude.{ℕ, ◌+◌, ◌*◌, ◌/◌, ◌^◌, Bool, suc, ◌&&◌, ltb}
use nexus_hub_contract.Prelude.Int.{
  ℤ, pos, negsuc, pos_part, neg_part, sub_ℕ, ◌+ℤ◌, ◌-ℤ◌, ltb_ℤ, times,
}

-- `units` divided by the power of ten of `places`.
pub record Decimal : Type 0 where
  pub units : ℕ
  pub places : ℕ

-- `amount.mul(0.01)`
abbrev pub hundredth : Decimal → Decimal
hundredth d = record { units = d.units; places = d.places + 2 }

-- `a.add(b)`
abbrev pub add : Decimal → Decimal → Decimal
add a b = record {
  units = a.units * 10 ^ b.places + b.units * 10 ^ a.places;
  places = a.places + b.places;
}

-- Division to the nearest, a half away from zero.
abbrev pub round_div : ℤ → ℕ → ℤ
round_div a s = sub_ℕ ((2 * pos_part a + s) / (2 * s)) ((2 * neg_part a + s) / (2 * s))

abbrev scale : Decimal → ℕ
scale d = 10 ^ d.places

abbrev millionths : Decimal → ℤ
millionths d = pos (1_000_000 * d.units)

-- A value as it is stored.
unfoldable pub to_column : Decimal → ℤ
to_column d = round_div (millionths d) (scale d)

-- `{ increment: d }` and `{ decrement: d }` of a column: PostgreSQL rounds the sum.
unfoldable pub increment : ℤ → Decimal → ℤ
increment column d = round_div (times (scale d) column +ℤ millionths d) (scale d)

unfoldable pub decrement : ℤ → Decimal → ℤ
decrement column d = round_div (times (scale d) column -ℤ millionths d) (scale d)

-- `new Decimal(column).lt(d)`
unfoldable pub lt : ℤ → Decimal → Bool
lt column d = ltb_ℤ (times (scale d) column) (millionths d)

-- `toFixed(7)`, as a count of 10^-7.
unfoldable pub to_fixed_7 : Decimal → ℤ
to_fixed_7 d = round_div (pos (10_000_000 * d.units)) (scale d)

-- The 18 digits of the column.
abbrev pub fits_decimal : ℤ → Bool
fits_decimal a =
    ltb (pos_part a) 1_000_000_000_000_000_000 && ltb (neg_part a) 1_000_000_000_000_000_000

-- An `Int` column has 32 bits.
abbrev pub fits_int : ℕ → Bool
fits_int n = ltb n 0x80000000
