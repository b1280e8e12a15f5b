-- ===== src/Continuous/Running.antt =====
-- main.go: runContinuous, the System together with the accounts that it sends from. A transaction is
-- sent by SendShutterizedTX, whatever is answered to it, and the other steps are those of the System.
pub mod Unchanged
pub mod Turns
pub mod Nonces
use shutter_tests.Prelude.{◌≡◌, length}
use shutter_tests.Prelude.Int.{ℤ}
use shutter_tests.Prelude.Outcomes.{ok}
use shutter_tests.Chain.{Crypto}
use shutter_tests.Continuous.System.{System, Step, initial}
use shutter_tests.Continuous.Send.{Sender, SendCalls, send_shutterized_tx}

pub data Run (c : Crypto) (start : Sender) : Sender → System → Type 0 where
  begins : Run c start start initial
  sends :
      (calls : SendCalls) (block_number target_slot : ℤ) {cfg cfg' : Sender} {s s' : System}
      → Run c start cfg s
      → send_shutterized_tx c calls block_number target_slot cfg s ≡ ok (cfg', s')
      → Run c start cfg' s'
  moves :
      {cfg : Sender} {s t : System}
      → Run c start cfg s
      → Step (length cfg.accounts) s t
      → t.sent ≡ s.sent
      → Run c start cfg t
