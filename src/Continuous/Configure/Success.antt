-- ===== src/Continuous/Configure/Success.antt =====
-- continuous/config.go: what a configuration holds that is created without an error.
use shutter_tests.Prelude.{
  ℕ, ◌+◌, ◌≡◌, ◌⊎◌, refl, sym, ap, subst, ◌∙◌, arith, String, List, [], ◌∷◌, Bool, length, All,
  All-append, ◌==◌, string_eq, Bool-cases, inl, inr, ==→≡,
}
use shutter_tests.Prelude.Words.{int64_of_uint64}
use shutter_tests.Prelude.Outcomes.{ok, ok_injective, Outcome-cases, ◌>>=◌}
use shutter_tests.Chain.{Crypto}
use shutter_tests.Utils.Account.{Account}
use shutter_tests.Utils.PkFile.{read_pks}
use shutter_tests.Utils.Repair.{read_string_from_env}
use shutter_tests.Continuous.Accounts.{num_funded_accounts, retrieve_accounts}
use shutter_tests.Continuous.Machine.{Machine, Answers, >>=-eq-ok, ask-eq-ok}
use shutter_tests.Continuous.Settings.{
  read_chain, read_contracts, read_database, read_blame_folder, read_graffiti_set,
}
use shutter_tests.Continuous.Configure.{
  Configuration, open_pk_file, prepare_accounts, fund_one, fund_all, fund_accounts,
  create_configuration,
}
use shutter_tests.Continuous.Configure.Prepare.{
  IsOwn, set_nonces-IsOwn, accounts_of_keys-IsOwn, create_accounts-IsOwn,
}
use shutter_tests.Continuous.Configure.Restart.{
  Prepared, prepare_accounts-Prepared, length-Prepared,
}

-- Funding writes no file.
fund_one-pk_hex :
    (c : Crypto) (a : Answers) (i : ℕ) (account submitter : Account) (m : Machine)
    → (fund_one c a i account submitter m).1.pk_hex ≡ m.pk_hex
unfolding fund_one
fund_one-pk_hex c a i account submitter m = ground arith

fund_all-pk_hex :
    (c : Crypto) (a : Answers) (i : ℕ) (accounts : List Account) (submitter last : Account)
    (m m' : Machine)
    → fund_all c a i accounts submitter m ≡ (ok last, m')
    → m'.pk_hex ≡ m.pk_hex
unfolding fund_all
fund_all-pk_hex c a i [] submitter last m m' h = ap (λ r. r.1.pk_hex) (sym h)
fund_all-pk_hex c a i (account ∷ rest) submitter last m m' h =
    let (next, between, e, f) = >>=-eq-ok (fund_one c a i account submitter) _ m m' h in
    fund_all-pk_hex c a (i + 1) rest next last between m' f
    ∙ ap (λ r. r.1.pk_hex) (sym e)
    ∙ fund_one-pk_hex c a i account submitter m

record Funded (c : Crypto) (a : Answers) (pk_file : String) (submitter : Account) (m m' : Machine)
    (both : List Account × Account) : Type 0 where
  pub between : Machine
  pub nonce : ℕ
  pub prepares : prepare_accounts c a pk_file m ≡ (ok both.0, between)
  pub kept : m'.pk_hex ≡ between.pk_hex
  pub again : a.submit_nonce_again ≡ ok nonce
  pub submits : both.1 ≡ record submitter { nonce = int64_of_uint64 nonce }

fund_accounts-Funded :
    (c : Crypto) (a : Answers) (pk_file : String) (submitter : Account) (m m' : Machine)
    (both : List Account × Account)
    → fund_accounts c a pk_file submitter m ≡ (ok both, m')
    → Funded c a pk_file submitter m m' both
unfolding fund_accounts
fund_accounts-Funded c a pk_file submitter m m' both h =
    let (accounts, between, e1, h1) = >>=-eq-ok (prepare_accounts c a pk_file) _ m m' h in
    let (last, after, e2, h2) = >>=-eq-ok (fund_all c a 0 accounts submitter) _ between m' h1 in
    let (nonce, e3, h3) = ask-eq-ok a.submit_nonce_again _ after m' h2 in
    subst (Funded c a pk_file submitter m m') (ok_injective (ap (λ r. r.0) h3)) (record {
      between = between;
      nonce = nonce;
      prepares = e1;
      kept =
          ap (λ r. r.1.pk_hex) (sym h3)
          ∙ fund_all-pk_hex c a 0 accounts submitter last between after e2;
      again = e3;
      submits = refl;
    })

-- What each part of a successful call has answered.
pub record Configured (c : Crypto) (a : Answers) (mode : String) (m m' : Machine)
    (cfg : Configuration) : Type 0 where
  pub between : Machine
  pub submitter : Account
  pub nonce : ℕ
  pub file : read_string_from_env a.env "CONTINUOUS_PK_FILE" ≡ ok cfg.pk_file
  pub chain : read_chain c a ≡ ok (cfg.chain_id, submitter)
  pub prepares : prepare_accounts c a cfg.pk_file m ≡ (ok cfg.accounts, between)
  pub kept : m'.pk_hex ≡ between.pk_hex
  pub again : a.submit_nonce_again ≡ ok nonce
  pub submits : cfg.submit_account ≡ record submitter { nonce = int64_of_uint64 nonce }
  pub folder : read_blame_folder a ≡ ok cfg.blame_folder
  pub graffiti : read_graffiti_set a mode ≡ ok cfg.graffiti_set

pub create_configuration-Configured :
    (c : Crypto) (a : Answers) (mode : String) (m m' : Machine) (cfg : Configuration)
    → create_configuration c a mode m ≡ (ok cfg, m')
    → Configured c a mode m m' cfg
unfolding create_configuration
create_configuration-Configured c a mode m m' cfg h =
    let (pk_file, e1, h1) = ask-eq-ok (read_string_from_env a.env "CONTINUOUS_PK_FILE") _ m m' h in
    let ((chain_id, submitter), e2, h2) = ask-eq-ok (read_chain c a) _ m m' h1 in
    let (both, m3, e3, h3) = >>=-eq-ok (fund_accounts c a pk_file submitter) _ m m' h2 in
    let (contracts, e4, h4) = ask-eq-ok (read_contracts a chain_id) _ m3 m' h3 in
    let (db, e5, h5) = ask-eq-ok (read_database a) _ m3 m' h4 in
    let (folder, e6, h6) = ask-eq-ok (read_blame_folder a) _ m3 m' h5 in
    let (graffiti, e7, h7) = ask-eq-ok (read_graffiti_set a mode) _ m3 m' h6 in
    let funded = fund_accounts-Funded c a pk_file submitter m m3 both e3 in
    subst (Configured c a mode m m') (ok_injective (ap (λ r. r.0) h7)) (record {
      between = funded.between;
      submitter = submitter;
      nonce = funded.nonce;
      file = e1;
      chain = e2;
      prepares = funded.prepares;
      kept = ap (λ r. r.1.pk_hex) (sym h7) ∙ funded.kept;
      again = funded.again;
      submits = funded.submits;
      folder = e6;
      graffiti = e7;
    })

pub prepared_keys :
    (c : Crypto) (a : Answers) (pk_file : String) (m m' : Machine) (accounts : List Account)
    → prepare_accounts c a pk_file m ≡ (ok accounts, m')
    → (pks : List ℕ) × (read_pks a.codec (open_pk_file a pk_file m) ≡ ok pks)
unfolding prepare_accounts retrieve_accounts
prepared_keys c a pk_file m m' accounts h =
    elim (Outcome-cases (read_pks a.codec (open_pk_file a pk_file m))) [
      | inl found ↦ found
      | inr (inl (e, failed)) ↦ absurd (ground (arith, h, failed))
      | inr (inr (p, failed)) ↦ absurd (ground (arith, h, failed))
    ]

read_blame_folder-lem :
    (a : Answers) (folder : String)
    → read_blame_folder a ≡ ok folder
    → read_string_from_env a.env "CONTINUOUS_BLAME_FOLDER" ≡ ok folder
unfolding read_blame_folder read_string_from_env
read_blame_folder-lem a folder h = ground (arith, h)

graffiti_by_mode :
    (a : Answers) (mode : String) (set : List (String × Bool))
    → read_graffiti_set a mode ≡ ok set
    → (mode ≡ "graffiti") ⊎ (set ≡ [])
unfolding read_graffiti_set
graffiti_by_mode a mode set h = elim (Bool-cases (mode == "graffiti")) [
  | inl t ↦ inl (==→≡ mode "graffiti" t)
  | inr f ↦ inr (ground (arith, h, f))
]

Prepared-IsOwn :
    (c : Crypto) (a : Answers) (pks : List ℕ) (m m' : Machine) (accounts : List Account)
    → Prepared c a pks m m' accounts
    → All (IsOwn c) accounts
unfolding retrieve_accounts
Prepared-IsOwn c a pks m m' accounts p = subst (All (IsOwn c)) p.both (
    All-append (IsOwn c) p.retrieved p.created
      (subst (All (IsOwn c)) (ok_injective p.retrieves)
        (set_nonces-IsOwn c a.nonce_at _ (accounts_of_keys-IsOwn c num_funded_accounts pks)))
      (create_accounts-IsOwn c _ p.created p.creates))

-- What every configuration has: six accounts, each with the address of its own key, the submit account
-- with the nonce that the node gave last, the folder that the environment names, and no graffiti
-- unless the mode asks for them.
pub record IsConfigured (c : Crypto) (a : Answers) (mode : String) (cfg : Configuration)
    : Type 0 where
  pub six : length cfg.accounts ≡ 6
  pub own : All (IsOwn c) cfg.accounts
  pub nonce : (a.submit_nonce_again >>= λ n. ok (int64_of_uint64 n)) ≡ ok cfg.submit_account.nonce
  pub folder : read_string_from_env a.env "CONTINUOUS_BLAME_FOLDER" ≡ ok cfg.blame_folder
  pub graffiti : (mode ≡ "graffiti") ⊎ (cfg.graffiti_set ≡ [])

-- If createConfiguration succeeds, there are six accounts, each with the address of its own key; the
-- submit account has the nonce that the node gave after the funding; the blame folder is the one that
-- the environment names, never a temporary one; and outside mode "graffiti" there are no graffiti.
pub create_configuration-IsConfigured :
    (c : Crypto) (a : Answers) (mode : String) (m m' : Machine) (cfg : Configuration)
    → create_configuration c a mode m ≡ (ok cfg, m')
    → IsConfigured c a mode cfg
create_configuration-IsConfigured c a mode m m' cfg h =
    let d = create_configuration-Configured c a mode m m' cfg h in
    let (pks, read) = prepared_keys c a cfg.pk_file m d.between cfg.accounts d.prepares in
    let p =
      prepare_accounts-Prepared c a cfg.pk_file pks m d.between cfg.accounts read d.prepares in
    record {
      six = length-Prepared c a pks m d.between cfg.accounts p;
      own = Prepared-IsOwn c a pks m d.between cfg.accounts p;
      nonce =
          ap (λ o. o >>= λ n. ok (int64_of_uint64 n)) d.again
          ∙ ap (λ s. ok s.nonce) (sym d.submits);
      folder = read_blame_folder-lem a cfg.blame_folder d.folder;
      graffiti = graffiti_by_mode a mode cfg.graffiti_set d.graffiti;
    }
