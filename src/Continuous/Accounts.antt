-- ===== src/Continuous/Accounts.antt =====
-- continuous/account.go: the accounts of the test, and loadGraffitiJSON of continuous/config.go.
pub mod Funding
use shutter_tests.Prelude.{
  ℕ, zero, suc, ◌+◌, ◌/◌, String, Bool, true, List, [], ◌∷◌, ◌++◌, Option, none, some, length, take,
  drop, insert, string_eq, if◌then◌else◌,
}
use shutter_tests.Prelude.Int.{ℤ, pos, negsuc, ◌-ℤ◌, leb_ℤ}
use shutter_tests.Prelude.Words.{int64_of_uint64, int64_of_big, uint64_of_big}
use shutter_tests.Prelude.Outcomes.{Outcome, ok, err, panic, explicit, or_error, ◌>>=◌}
use shutter_tests.Chain.{Transaction, Crypto}
use shutter_tests.Utils.Account.{Account, use_nonce, account_from_private_key, sign}
use shutter_tests.Utils.Repair.{new_transaction}

abbrev pub num_funded_accounts : ℕ
num_funded_accounts = 6

abbrev pub minimal_funding : ℤ
minimal_funding = pos 500_000_000_000_000_000

-- The first loop of retrieveAccounts, which stops at `num` accounts.
unfoldable pub accounts_of_keys : Crypto → ℕ → List ℕ → List Account
accounts_of_keys c zero pks = []
accounts_of_keys c (suc num) [] = []
accounts_of_keys c (suc num) (pk ∷ pks) = account_from_private_key c pk ∷ accounts_of_keys c num pks

-- A nonce that cannot be read is 0. The client does not panic.
unfoldable pub nonce_of : Outcome ℕ → ℤ
nonce_of (ok n) = int64_of_uint64 n
nonce_of (err e) = pos 0
nonce_of (panic p) = pos 0

unfoldable pub set_nonces : (ℕ → Outcome ℕ) → List Account → List Account
unfolding nonce_of
set_nonces nonce_at [] = []
set_nonces nonce_at (a ∷ accounts) =
    record a { nonce = nonce_of (nonce_at a.address) } ∷ set_nonces nonce_at accounts

-- retrieveAccounts, for a `num` that is not 0, with what ReadPks answers.
unfoldable pub retrieve_accounts :
    Crypto → ℕ → Outcome (List ℕ) → (ℕ → Outcome ℕ) → Outcome (List Account)
unfolding accounts_of_keys set_nonces
retrieve_accounts c num (ok pks) nonce_at = ok (set_nonces nonce_at (accounts_of_keys c num pks))
retrieve_accounts c num (err e) nonce_at = panic (explicit e)
retrieve_accounts c num (panic p) nonce_at = panic p

-- createAccounts, with the keys that are generated.
unfoldable pub create_accounts : Crypto → List (Outcome ℕ) → Outcome (List Account)
create_accounts c [] = ok []
create_accounts c (key ∷ keys) = do
  pk ← key
  accounts ← create_accounts c keys
  ok (account_from_private_key c pk ∷ accounts)

-- What the node answers to fundNewAccount.
pub record FundCalls : Type 0 where
  pub balance : Outcome ℤ
  pub gas_price : Outcome ℤ
  pub send_transaction : Transaction → Option String
  pub wait_mined : Option String

-- The end of a call: the error that is returned, or nil, the transaction that was sent, and the
-- submitting account as it is left.
abbrev pub Funded : Type 0
Funded = Option String × Option Transaction × Account

sent_and_mined : FundCalls → Transaction → Account → Funded
sent_and_mined calls tx submitter = elim (calls.send_transaction tx) [
  | some e ↦ (some e, none, submitter)
  | none ↦ (calls.wait_mined, some tx, submitter)
]

-- `if err != nil { return err }`.
try_call {ℓ} : {A : Type ℓ} → Outcome A → Account → (A → Outcome Funded) → Outcome Funded
try_call (ok a) submitter rest = rest a
try_call (err e) submitter rest = ok (some e, none, submitter)
try_call (panic p) submitter rest = panic p

-- The part of fundNewAccount that sends `missing`, with the submitter's next nonce.
unfoldable pub fund_missing : Crypto → FundCalls → ℕ → ℤ → ℤ → Account → Outcome Funded
unfolding sent_and_mined use_nonce new_transaction try_call
fund_missing c calls to missing gas_price submitter =
    let (nonce, submitter') = use_nonce submitter in
    try_call
      (sign c submitter' submitter'.address
        (new_transaction (uint64_of_big nonce) to missing 21000 gas_price))
      submitter' (λ tx. ok (sent_and_mined calls tx submitter'))

-- An account that misses at most half of the target is left alone.
fund_from : Crypto → FundCalls → ℕ → ℤ → ℤ → ℤ → Account → Outcome Funded
unfolding fund_missing try_call
fund_from c calls to target half current submitter =
    if leb_ℤ (int64_of_big (target -ℤ current)) half
    then ok (none, none, submitter)
    else try_call calls.gas_price submitter
        (λ price. fund_missing c calls to (target -ℤ current) price submitter)

unfoldable pub half_of : ℤ → ℤ
half_of (pos n) = pos (n / 2)
half_of (negsuc n) = negsuc (n / 2)

-- fundNewAccount, with the transaction that is sent.
unfoldable pub fund_new_account : Crypto → FundCalls → Account → ℤ → Account → Outcome Funded
unfolding fund_from half_of try_call
fund_new_account c calls account amount submitter =
    try_call calls.balance submitter
      (λ current. fund_from c calls account.address amount (half_of amount) current submitter)

-- The set that loadGraffitiJSON makes of the list in its file.
unfoldable pub graffiti_set : List String → List (String × Bool) → List (String × Bool)
graffiti_set [] m = m
graffiti_set (g ∷ gs) m = graffiti_set gs (insert g true m)

unfoldable pub load_graffiti_json :
    Outcome String → (String → Outcome (List String)) → Outcome (List (String × Bool))
unfolding graffiti_set
load_graffiti_json path read = do
  file ← or_error path "graffiti file path variable not set"
  graffitis ← read file
  ok (graffiti_set graffitis [])
