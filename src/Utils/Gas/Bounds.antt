-- ===== src/Utils/Gas/Bounds.antt =====
-- utils/utils.go: the fees are fit for a transaction.
use shutter_tests.Prelude.{String, ◌≡◌, arith, ◌⊎◌}
use shutter_tests.Prelude.Int.{ℤ, pos, ◌+ℤ◌, ◌≤ℤ◌, +ℤ_parts}
use shutter_tests.Utils.Gas.{
  min_gas_tip, min_gas_tip_update_fn, Float64, delta, high_priority_gas_price_fn,
}

-- The tip of MinGasTipUpdateFn is the greater of the suggested tip and the configured minimum, and
-- with a price that is not negative the fee cap is not below the tip: the network accepts the pair.
pub min_gas_tip_update_fn_bounds :
    (setting : String) (tip price : ℤ)
    → pos 0 ≤ℤ price
    → let g = min_gas_tip_update_fn setting tip price in
      (g.tip ≤ℤ g.fee)
      × (tip ≤ℤ g.tip)
      × (min_gas_tip setting ≤ℤ g.tip)
      × ((g.tip ≡ tip) ⊎ (g.tip ≡ min_gas_tip setting))
unfolding min_gas_tip_update_fn
min_gas_tip_update_fn_bounds setting tip price h =
    ground (arith, +ℤ_parts (min_gas_tip setting) price)

-- HighPriorityGasPriceFn leaves room above price and tip together, if the product with the float does
-- not come out negative.
pub high_priority-ge :
    (f : Float64) (tip price : ℤ)
    → pos 0 ≤ℤ delta f f.three price
    → price +ℤ tip ≤ℤ (high_priority_gas_price_fn f tip price).fee
unfolding high_priority_gas_price_fn
high_priority-ge f tip price h = omega (arith, +ℤ_parts (price +ℤ tip) (delta f f.three price))
