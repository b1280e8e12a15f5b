-- ===== src/Utils/Gas.antt =====
-- utils/utils.go: the fee functions. A big.Int is an integer. The products with a float are taken by
-- operations that are a parameter, `Float64`.
pub mod Bounds
use shutter_tests.Prelude.{ℕ, String, Option, none, some, if◌then◌else◌, ◌==◌, string_eq}
use shutter_tests.Prelude.Int.{ℤ, pos, ◌+ℤ◌, ltb_ℤ}
use shutter_tests.Prelude.Outcomes.{Outcome, ok, ◌>>=◌}
use shutter_tests.Prelude.Text.{atoi}

pub record GasCalculation : Type 0 where
  pub fee : ℤ
  pub tip : ℤ

-- From the suggested tip cap and the suggested price; the index and the count are not used by the
-- functions of this file.
abbrev pub GasPriceFn : Type 0
GasPriceFn = ℤ → ℤ → GasCalculation

-- The two answers of the client, in the order of the calls.
unfoldable pub gas_calculation_from_client :
    Outcome ℤ → Outcome ℤ → GasPriceFn → Outcome GasCalculation
gas_calculation_from_client suggest_tip suggest_price f = do
  tip ← suggest_tip
  price ← suggest_price
  ok (f tip price)

pub record Float64 : Type 1 where
  pub Float : Type 0
  pub of_big : ℤ → Float
  pub times : Float → Float → Float
  pub to_int64 : Float → ℤ
  pub one_and_a_half : Float
  pub three : Float

module _ (f : Float64) where
  -- `int64(gasFloat * factor)`.
  unfoldable pub delta : Float64.Float f → ℤ → ℤ
  delta factor price = f.to_int64 (f.times (f.of_big price) factor)

  unfoldable pub default_gas_price_fn : GasPriceFn
  unfolding delta
  default_gas_price_fn tip price = record {
    fee = price +ℤ tip +ℤ delta f.one_and_a_half price;
    tip = tip;
  }

  unfoldable pub high_priority_gas_price_fn : GasPriceFn
  unfolding delta
  high_priority_gas_price_fn tip price = record {
    fee = price +ℤ tip +ℤ delta f.three price;
    tip = tip;
  }

abbrev pub gwei : ℤ
gwei = pos 1_000_000_000

-- The smallest tip, from the variable MIN_GAS_TIP_CAP, which reads as "" where it is not set.
unfoldable pub min_gas_tip : String → ℤ
min_gas_tip setting =
    if setting == "" then gwei else elim (atoi setting) [ none ↦ gwei | some n ↦ n ]

unfoldable pub min_gas_tip_update_fn : String → GasPriceFn
min_gas_tip_update_fn setting tip price =
    let floor = min_gas_tip setting in
    if ltb_ℤ tip floor
    then record { fee = floor +ℤ price; tip = floor }
    else if ltb_ℤ price tip
    then record { fee = tip; tip = tip }
    else record { fee = price; tip = tip }
