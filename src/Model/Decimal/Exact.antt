-- ===== src/Model/Decimal/Exact.antt =====
-- Amounts in whole ten-thousandths, with which the columns round nothing.
use nexus_hub_contract.Prelude.{ℕ, ◌*◌, ◌≡◌, arith}
use nexus_hub_contract.Prelude.Int.{ℤ, pos, negsuc, ◌+ℤ◌, ◌-ℤ◌, times}
use nexus_hub_contract.Model.Decimal.{Decimal, hundredth, add, to_column, increment, decrement}

-- n / 10,000
abbrev pub ten_thousandths : ℕ → Decimal
ten_thousandths n = record { units = n; places = 4 }

pub to_column-amount : (n : ℕ) → to_column (ten_thousandths n) ≡ pos (100 * n)
unfolding to_column
to_column-amount n = ground arith

pub to_column-fee : (n : ℕ) → to_column (hundredth (ten_thousandths n)) ≡ pos n
unfolding to_column
to_column-fee n = ground arith

pub increment-amount :
    (n : ℕ) (column : ℤ) → increment column (ten_thousandths n) ≡ column +ℤ pos (100 * n)
unfolding increment times ◌+ℤ◌
increment-amount n (pos m) = ground arith
increment-amount n (negsuc m) = ground arith

pub decrement-debit :
    (n : ℕ) (column : ℤ)
    → decrement column (add (ten_thousandths n) (hundredth (ten_thousandths n)))
      ≡ column -ℤ (pos (100 * n) +ℤ pos n)
unfolding decrement times ◌+ℤ◌ ◌-ℤ◌
decrement-debit n (pos m) = ground arith
decrement-debit n (negsuc m) = ground arith
