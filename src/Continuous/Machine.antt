-- ===== src/Continuous/Machine.antt =====
-- continuous/config.go: what createConfiguration leaves behind also where it fails, the file pk.hex and
-- the funding transactions.
use shutter_tests.Prelude.Runs
pub use shutter_tests.Prelude.Runs.{go_on_with, ◌>>=◌, ask, >>=-eq-ok, ask-eq-ok, go_on_with_ok}
use shutter_tests.Prelude.{ℕ, List, Option, String}
use shutter_tests.Prelude.Int.{ℤ}
use shutter_tests.Prelude.Outcomes.{Outcome}
use shutter_tests.Chain.{Transaction}
use shutter_tests.Utils.PkFile.{KeyCodec}
use shutter_tests.Utils.Contracts.{Bindings}
use shutter_tests.Continuous.Accounts.{FundCalls}

-- `pk_hex` is the text of the file, if it is there.
pub record Machine : Type 0 where
  pub pk_hex : Option (List ℕ)
  pub sent : List Transaction

abbrev pub Run : Type 0 → Type 0
Run A = Runs.Run Machine A

-- What is answered to createConfiguration, by the environment, the file system and the node. Those
-- answers that are asked for several times are given for each time.
pub record Answers : Type 0 where
  pub env : String → String
  pub dial : String → Outcome (Unit {0})
  pub network_id : Outcome ℤ
  pub submit_nonce : Outcome ℕ
  pub submit_nonce_again : Outcome ℕ
  pub nonce_at : ℕ → Outcome ℕ
  pub other_file : String → Outcome (List ℕ)
  pub generate_key : ℕ → Outcome ℕ
  pub open_error : ℕ → Option String
  pub write_error : ℕ → ℕ → Option String
  pub fund_calls : ℕ → FundCalls
  pub mkdir_temp : Outcome String
  pub read_graffiti : String → Outcome (List String)
  pub codec : KeyCodec
  pub bindings : Bindings
