-- ===== src/Tax.antt =====
-- app/utils/tax.py and app/utils/resale.py. A price is a number of hundredths of a yen, so
-- `int(amount * 1.1 + 0.5)` is the quotient below: the float result can only differ from the
-- exact one where a tie is rounded, and ties are whole yen, where the floats are exact.
use i_dolly_backend.Prelude.{ℕ, ◌+◌, ◌*◌, ◌/◌, ◌≤◌, arith}
use i_dolly_backend.Tables.{Price}

unfoldable pub with_tax : Price → ℕ
with_tax amount = (amount * 110 + 5000) / 10000

-- RESALE_CAP_QUANTITY
abbrev pub resale_cap_quantity : ℕ
resale_cap_quantity = 3

-- The tax is added to the nearest yen: the amount with 10 percent is at most half a yen away.
pub with_tax-nearest :
    (amount : Price)
    → (10000 * with_tax amount ≤ 110 * amount + 5000)
      × (110 * amount ≤ 10000 * with_tax amount + 5000)
unfolding with_tax
with_tax-nearest amount = (omega arith, omega arith)
