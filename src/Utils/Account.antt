-- ===== src/Utils/Account.antt =====
-- utils/utils.go: accounts, their signing function and their locally counted nonces.
pub mod Nonces
use shutter_tests.Prelude.{
  ℕ, some, if◌then◌else◌, ◌==◌, nat_eq, ◌≡◌, arith, List, [], ◌∷◌, zero, suc,
}
use shutter_tests.Prelude.Int.{ℤ, pos, ◌+ℤ◌}
use shutter_tests.Prelude.Outcomes.{Outcome, ok, err, ◌>>=◌}
use shutter_tests.Chain.{Transaction, Crypto}

pub record Account : Type 0 where
  pub address : ℕ
  pub private_key : ℕ
  pub nonce : ℤ

-- Returns the stored nonce, and the account with the next one.
unfoldable pub use_nonce : Account → ℤ × Account
use_nonce acc = (acc.nonce, record acc { nonce = acc.nonce +ℤ pos 1 })

-- The part of `bind.TransactOpts` that the source fills in. The signer is the account's own.
pub record TransactOpts : Type 0 where
  pub nonce : ℤ
  pub from : ℕ
  pub signer : Account
  pub value : ℤ
  pub gas_fee_cap : ℤ
  pub gas_tip_cap : ℤ

unfoldable pub opts : Account → TransactOpts × Account
unfolding use_nonce
opts acc =
    let (nonce, acc') = use_nonce acc in
    (
      record {
        nonce = nonce;
        from = acc.address;
        signer = acc;
        value = pos 0;
        gas_fee_cap = pos 0;
        gas_tip_cap = pos 0;
      },
      acc',
    )

module _ (c : Crypto) where
  -- The public key of an ECDSA key is always one of its own kind, so the cast cannot fail.
  unfoldable pub account_from_private_key : ℕ → Account
  account_from_private_key key = record {
    address = c.address_of_key key;
    private_key = key;
    nonce = pos 0;
  }

  -- The closure `account.Sign`: it serves the address of the account's own key only.
  unfoldable pub sign : Account → ℕ → Transaction → Outcome Transaction
  sign acc address tx =
      if address == c.address_of_key acc.private_key
      then (c.sign acc.private_key tx >>= λ signature.
          ok (record tx { signature = some signature }))
      else err "not authorized"

  -- Signing changes nothing but the signature.
  pub sign-eq-ok :
      (account : Account) (address : ℕ) (tx signed : Transaction)
      → sign account address tx ≡ ok signed
      → signed ≡ record tx { signature = signed.signature }
  unfolding sign
  sign-eq-ok account address tx signed h = ground (arith, h)

-- The nonces that `n` uses of an account give out, and the account afterwards.
pub use_nonces : ℕ → Account → List ℤ × Account
unfolding use_nonce
use_nonces zero acc = ([], acc)
use_nonces (suc n) acc =
    let (nonce, acc') = use_nonce acc in
    let (rest, last) = use_nonces n acc' in (nonce ∷ rest, last)
