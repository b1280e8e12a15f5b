-- ===== src/Continuous/Configure/Restart.antt =====
-- continuous/config.go: the accounts that a first start stores are those that the next one retrieves.
use mathlib.Core.List.{append-nil, append_assoc, map-append}
use shutter_tests.Prelude.{
  ℕ, ◌+◌, ◌-◌, ◌≤◌, ◌≡◌, refl, sym, ap, subst, ◌∙◌, arith, String, List, [], ◌∷◌, ◌++◌, none, some,
  length, take, length-append,
}
use shutter_tests.Prelude.Outcomes.{ok, ok_injective}
use shutter_tests.Chain.{Crypto}
use shutter_tests.Utils.Account.{Account}
use shutter_tests.Utils.PkFile.{read_pks, store_account, text_of}
use shutter_tests.Utils.PkFile.Words.{IsClosed}
use shutter_tests.Utils.PkFile.RoundTrip.{IsCodec, read_pks-store_account}
use shutter_tests.Continuous.Accounts.{num_funded_accounts, retrieve_accounts, create_accounts}
use shutter_tests.Continuous.Machine.{Machine, Answers, >>=-eq-ok, ask-eq-ok, go_on_with_ok}
use shutter_tests.Continuous.Configure.{
  open_pk_file, generated, store_one, store_all, prepare_accounts,
}
use shutter_tests.Continuous.Configure.Prepare.{
  private_keys, private_keys-retrieve_accounts, length-private_keys, length-create_accounts,
  length-generated, take-append, length-take,
}

-- Opening and writing the file never fails.
pub record NoErrors (a : Answers) : Type 0 where
  pub opens : (i : ℕ) → a.open_error i ≡ none
  pub writes : (i : ℕ) → a.write_error i ≡ (λ j. none)

-- The file holds these keys, and whatever is appended does not run into its last word.
pub record Holds (a : Answers) (m : Machine) (pks : List ℕ) : Type 0 where
  pub text : List ℕ
  pub there : m.pk_hex ≡ some text
  pub closed : IsClosed text
  pub reads : read_pks a.codec (ok text) ≡ ok pks

module _ (c : Crypto) (a : Answers) (law : IsCodec c a.codec) (fine : NoErrors a) where
  store_one-Holds :
      (i : ℕ) (created : Account) (m : Machine) (pks : List ℕ)
      → Holds a m pks
      → ((store_one c a i created m).0 ≡ ok tt)
        × Holds a (store_one c a i created m).1 (pks ++ created.private_key ∷ [])
  unfolding store_one text_of
  store_one-Holds i created m pks h =
      let (text, e, closed, reads) =
        read_pks-store_account c a.codec law created (some h.text) pks h.closed h.reads in
      let stored : store_account c a.codec (a.open_error i) (a.write_error i) created m.pk_hex
          ≡ (none, some text) =
        rw (fine.opens i, fine.writes i, h.there) e in
      (
        rw stored refl,
        record { text = text; there = ap (λ r. r.1) stored; closed = closed; reads = reads },
      )

  pub store_all-Holds :
      (i : ℕ) (created : List Account) (m : Machine) (pks : List ℕ)
      → Holds a m pks
      → ((store_all c a i created m).0 ≡ ok tt)
        × Holds a (store_all c a i created m).1 (pks ++ private_keys created)
  unfolding store_all
  store_all-Holds i [] m pks h = (refl, rw append-nil h)
  store_all-Holds i (account ∷ rest) m pks h =
      let (done, h') = store_one-Holds i account m pks h in
      let m' = (store_one c a i account m).1 in
      let (all_done, h'') = store_all-Holds (i + 1) rest m' (pks ++ account.private_key ∷ []) h' in
      subst (λ r. (r.0 ≡ ok tt) × Holds a r.1 (pks ++ private_keys (account ∷ rest)))
        (sym (go_on_with_ok (store_one c a i account m) (λ _. store_all c a (i + 1) rest) tt done))
        (
          all_done,
          subst (Holds a (store_all c a (i + 1) rest m').1)
              (append_assoc pks (account.private_key ∷ []) (private_keys rest)) h'',
        )

-- What prepare_accounts did where it succeeded.
pub record Prepared (c : Crypto) (a : Answers) (pks : List ℕ) (m m' : Machine)
    (accounts : List Account) : Type 0 where
  pub retrieved : List Account
  pub created : List Account
  pub retrieves : retrieve_accounts c num_funded_accounts (ok pks) a.nonce_at ≡ ok retrieved
  pub creates :
      create_accounts c (generated a.generate_key (num_funded_accounts - length retrieved))
      ≡ ok created
  pub stores : store_all c a 0 created m ≡ (ok tt, m')
  pub both : retrieved ++ created ≡ accounts

pub prepare_accounts-Prepared :
    (c : Crypto) (a : Answers) (pk_file : String) (pks : List ℕ) (m m' : Machine)
    (accounts : List Account)
    → read_pks a.codec (open_pk_file a pk_file m) ≡ ok pks
    → prepare_accounts c a pk_file m ≡ (ok accounts, m')
    → Prepared c a pks m m' accounts
unfolding prepare_accounts
prepare_accounts-Prepared c a pk_file pks m m' accounts read h =
    let (retrieved, e1, h1) =
      ask-eq-ok
        (retrieve_accounts c num_funded_accounts (read_pks a.codec (open_pk_file a pk_file m))
          a.nonce_at)
        _ m m' h in
    let (created, e2, h2) =
      ask-eq-ok
        (create_accounts c (generated a.generate_key (num_funded_accounts - length retrieved))) _ m
        m' h1 in
    let (done, last, e3, h3) = >>=-eq-ok (store_all c a 0 created) _ m m' h2 in
    record {
      retrieved = retrieved;
      created = created;
      retrieves =
          subst (λ r. retrieve_accounts c num_funded_accounts r a.nonce_at ≡ ok retrieved) read e1;
      creates = e2;
      stores = e3 ∙ ap (λ x. (ok tt, x.1)) h3;
      both = ok_injective (ap (λ x. x.0) h3);
    }

-- The keys of all accounts are the first six of the file, filled up with new ones.
module _ (c : Crypto) (a : Answers) (pks : List ℕ) (m m' : Machine) (accounts : List Account)
    (p : Prepared c a pks m m' accounts) where
  retrieved_keys : private_keys p.retrieved ≡ take num_funded_accounts pks
  retrieved_keys =
      private_keys-retrieve_accounts c num_funded_accounts pks a.nonce_at p.retrieved p.retrieves

  length-created : length p.created ≡ num_funded_accounts - length p.retrieved
  length-created =
      length-create_accounts c _ p.created p.creates ∙ length-generated a.generate_key _

  pub length-Prepared : length accounts ≡ num_funded_accounts
  length-Prepared =
      let few : length p.retrieved ≤ num_funded_accounts = omega (
        arith,
        ap length retrieved_keys,
        length-private_keys p.retrieved,
        length-take num_funded_accounts pks,
      ) in
      omega (arith, ap length p.both, length-append p.retrieved p.created, length-created)

  pub private_keys-Prepared :
      private_keys accounts ≡ take num_funded_accounts (pks ++ private_keys p.created)
  private_keys-Prepared =
      ap private_keys (sym p.both)
      ∙ map-append _ p.retrieved p.created
      ∙ ap (λ ks. ks ++ private_keys p.created) retrieved_keys
      ∙ sym (
          take-append num_funded_accounts pks (private_keys p.created) (
            omega (
              arith,
              length-private_keys p.created,
              length-created,
              ap length retrieved_keys,
              length-private_keys p.retrieved,
            )))
