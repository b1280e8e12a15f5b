-- ===== src/Continuous/Configure/Again.antt =====
-- continuous/config.go: the accounts of one start are those of the next.
use mathlib.Core.List.{append-nil}
use shutter_tests.Prelude.{ℕ, ◌≡◌, refl, sym, ap, subst, ◌∙◌, String, List, ◌++◌, some, length}
use shutter_tests.Prelude.Outcomes.{Outcome, ok}
use shutter_tests.Chain.{Crypto}
use shutter_tests.Utils.Account.{Account}
use shutter_tests.Utils.PkFile.{read_pks}
use shutter_tests.Utils.PkFile.RoundTrip.{IsCodec}
use shutter_tests.Continuous.Accounts.{num_funded_accounts, retrieve_accounts, create_accounts}
use shutter_tests.Continuous.Machine.{Machine, Answers}
use shutter_tests.Continuous.Configure.{
  Configuration, open_pk_file, prepare_accounts, create_configuration,
}
use shutter_tests.Continuous.Configure.Prepare.{
  private_keys, private_keys-retrieve_accounts, length-private_keys,
}
use shutter_tests.Continuous.Configure.Restart.{
  NoErrors, Holds, prepare_accounts-Prepared, length-Prepared, private_keys-Prepared,
  store_all-Holds,
}
use shutter_tests.Continuous.Configure.Success.{create_configuration-Configured}

-- A file with enough keys: nothing is created.
prepare_full :
    (c : Crypto) (a : Answers) (pk_file : String) (m : Machine) (accounts : List Account)
    → retrieve_accounts c num_funded_accounts
        (read_pks a.codec (open_pk_file a pk_file m))
        a.nonce_at
      ≡ ok accounts
    → length accounts ≡ num_funded_accounts
    → prepare_accounts c a pk_file m ≡ (ok accounts, m)
unfolding prepare_accounts create_accounts
prepare_full c a pk_file m accounts h l = rw (h, l) (rw append-nil refl)

open_pk_file-lem :
    (a : Answers) (m : Machine) (text : List ℕ)
    → m.pk_hex ≡ some text
    → open_pk_file a "pk.hex" m ≡ ok text
unfolding open_pk_file
open_pk_file-lem a m text h = rw h refl

Holds-same :
    (a : Answers) (m m' : Machine) (pks : List ℕ)
    → m'.pk_hex ≡ m.pk_hex
    → Holds a m pks
    → Holds a m' pks
Holds-same a m m' pks e h = record {
  text = h.text;
  there = e ∙ h.there;
  closed = h.closed;
  reads = h.reads;
}

Holds-reads :
    (a next : Answers) (m : Machine) (pks : List ℕ)
    → next.codec ≡ a.codec
    → Holds a m pks
    → read_pks next.codec (open_pk_file next "pk.hex" m) ≡ ok pks
Holds-reads a next m pks same h =
    ap (read_pks next.codec) (open_pk_file-lem next m h.text h.there)
    ∙ ap (λ k. read_pks k (ok h.text)) same
    ∙ h.reads

retrieve_all :
    (c : Crypto) (pks : List ℕ) (nonce_at : ℕ → Outcome ℕ)
    → (accounts : List Account) × (retrieve_accounts c num_funded_accounts (ok pks) nonce_at
        ≡ ok accounts)
unfolding retrieve_accounts
retrieve_all c pks nonce_at = (_, refl)

-- A start that succeeds with the accounts of pk.hex, where writing the file does not fail and the file
-- held only keys and addresses on closed lines: the next start, whatever is answered to it, retrieves
-- accounts with the same private keys in the same order, and creates and stores none.
pub create_configuration-prepare_accounts :
    (c : Crypto) (a next : Answers) (mode : String) (m m' : Machine) (cfg : Configuration)
    (pks : List ℕ)
    → IsCodec c a.codec
    → NoErrors a
    → Holds a m pks
    → create_configuration c a mode m ≡ (ok cfg, m')
    → cfg.pk_file ≡ "pk.hex"
    → next.codec ≡ a.codec
    → (accounts : List Account) × (prepare_accounts c next "pk.hex" m' ≡ (ok accounts, m'))
      × (private_keys accounts ≡ private_keys cfg.accounts)
create_configuration-prepare_accounts c a next mode m m' cfg pks law fine holds h file same =
    let d = create_configuration-Configured c a mode m m' cfg h in
    let p =
      prepare_accounts-Prepared c a "pk.hex" pks m d.between cfg.accounts
        (Holds-reads a a m pks refl holds)
        (subst (λ f. prepare_accounts c a f m ≡ (ok cfg.accounts, d.between)) file d.prepares) in
    let held : Holds a m' (pks ++ private_keys p.created) = Holds-same a d.between m' _ d.kept (
      subst (λ r. Holds a r.1 (pks ++ private_keys p.created)) p.stores
        (store_all-Holds c a law fine 0 p.created m pks holds).1) in
    let (accounts, found) = retrieve_all c (pks ++ private_keys p.created) next.nonce_at in
    let keys : private_keys accounts ≡ private_keys cfg.accounts =
      private_keys-retrieve_accounts c num_funded_accounts (pks ++ private_keys p.created)
        next.nonce_at accounts found
      ∙ sym (private_keys-Prepared c a pks m d.between cfg.accounts p) in
    (
      accounts,
      prepare_full c next "pk.hex" m' accounts
          (subst (λ r. retrieve_accounts c num_funded_accounts r next.nonce_at ≡ ok accounts)
            (sym (Holds-reads a next m' _ same held)) found)
          (sym (length-private_keys accounts)
            ∙ ap length keys
            ∙ length-private_keys cfg.accounts
            ∙ length-Prepared c a pks m d.between cfg.accounts p),
      keys,
    )
