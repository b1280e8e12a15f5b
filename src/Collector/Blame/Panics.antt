-- ===== src/Collector/Blame/Panics.antt =====
-- continuous/collector.go: when queryWhoToBlame returns, and what it panics with.
use shutter_tests.Prelude.{
  ℕ, ◌≡◌, refl, ap, ◌↔◌, ◌⊎◌, inl, inr, String, List, [], ◌∷◌, ◌++◌, Option, none, arith, All,
}
use shutter_tests.Prelude.Outcomes.{
  Outcome, Panic, ok, err, panic, nil_dereference, >>=-eq-ok, >>=-eq-panic,
}
use shutter_tests.Collector.Credentials.{Contracts, withdraw_address_for_public_key}
use shutter_tests.Collector.Blame.{
  ValidatorBlame, BlameRow, deref_credentials, blame_row, blame_rows, query_who_to_blame,
}

-- The row has a public key that decodes, for which the contract answers.
abbrev pub IsAnswered : Contracts → BlameRow → Type 0
IsAnswered contracts r = (a : ℕ) × (withdraw_address_for_public_key contracts r.public_key ≡ ok a)

deref-ok : (m : Outcome ℕ) (a : ℕ) → deref_credentials m ≡ ok a → m ≡ ok a
unfolding deref_credentials
deref-ok (ok b) a h = ground (arith, h)
deref-ok (err e) a h = ground (arith, h)
deref-ok (panic p) a h = ground (arith, h)

-- What the first row that is not answered panics with: the nil pointer is read where the key does not
-- decode or the contract answers with an error, and a panic of the call is passed on.
abbrev pub Fails : Contracts → BlameRow → Panic → Type 0
Fails contracts r p =
    ((x : String) × (withdraw_address_for_public_key contracts r.public_key ≡ err x)
      × (p ≡ nil_dereference))
    ⊎ (withdraw_address_for_public_key contracts r.public_key ≡ panic p)

-- The rows up to the first that has no withdrawal address.
pub record IsUnanswered (contracts : Contracts) (rows : List BlameRow) (p : Panic) : Type 0 where
  pub before : List BlameRow
  pub row : BlameRow
  pub after : List BlameRow
  pub split : rows ≡ before ++ row ∷ after
  pub answered : All (IsAnswered contracts) before
  pub fails : Fails contracts row p

deref-panic :
    (m : Outcome ℕ) (p : Panic)
    → (deref_credentials m ≡ panic p)
      ↔ (((x : String) × (m ≡ err x) × (p ≡ nil_dereference)) ⊎ (m ≡ panic p))
unfolding deref_credentials
deref-panic (ok a) p = (λ h. cc, λ h. elim h [ inl (x, e, _) ↦ cc e | inr e ↦ cc e ])
deref-panic (err e) p = (
  λ h. inl (e, refl, ground (arith, h)),
  λ h. elim h [ inl (x, _, k) ↦ ground (arith, k) | inr k ↦ cc k ],
)
deref-panic (panic q) p =
    (λ h. inr (ground (arith, h)), λ h. elim h [ inl (x, k, _) ↦ cc k | inr k ↦ ground (arith, k) ])

blame_row-Fails :
    (contracts : Contracts) (r : BlameRow) (p : Panic) (b : ValidatorBlame)
    → Fails contracts r p
    → blame_row contracts r b ≡ panic p
unfolding blame_row
blame_row-Fails contracts r p b f =
    rw ((deref-panic (withdraw_address_for_public_key contracts r.public_key) p).1 f) refl

blame_row-answered :
    (contracts : Contracts) (r : BlameRow) (b : ValidatorBlame)
    → IsAnswered contracts r
    → (c : ValidatorBlame) × (blame_row contracts r b ≡ ok c)
unfolding blame_row deref_credentials
blame_row-answered contracts r b (a, e) = (
  record b {
    target_block = r.target_block;
    target_slot = r.target_slot;
    target_block_ts = r.target_ts;
    validator_index = r.validator_index;
    proposer_public_key = r.public_key;
    credentials = a;
  },
  rw e refl,
)

blame_rows-panics :
    (contracts : Contracts) (before after : List BlameRow) (r : BlameRow) (p : Panic)
    (b : ValidatorBlame)
    → All (IsAnswered contracts) before
    → Fails contracts r p
    → blame_rows contracts (before ++ r ∷ after) b ≡ panic p
unfolding blame_rows
blame_rows-panics contracts [] after r p b h f = rw (blame_row-Fails contracts r p b f) refl
blame_rows-panics contracts (q ∷ before) after r p b (a, h) f =
    let (c, e) = blame_row-answered contracts q b a in
    rw e (blame_rows-panics contracts before after r p c h f)

blame_row-panic :
    (contracts : Contracts) (r : BlameRow) (p : Panic) (b : ValidatorBlame)
    → blame_row contracts r b ≡ panic p
    → Fails contracts r p
unfolding blame_row
blame_row-panic contracts r p b h =
    elim (>>=-eq-panic (deref_credentials (withdraw_address_for_public_key contracts r.public_key))
      _ h) [
        | inl d ↦ (deref-panic (withdraw_address_for_public_key contracts r.public_key) p).0 d
        | inr (_, _, e) ↦ cc e
      ]

blame_row-ok :
    (contracts : Contracts) (r : BlameRow) (b c : ValidatorBlame)
    → blame_row contracts r b ≡ ok c
    → IsAnswered contracts r
unfolding blame_row
blame_row-ok contracts r b c h =
    let (credentials, d, _) =
      >>=-eq-ok (deref_credentials (withdraw_address_for_public_key contracts r.public_key)) _ h in
    (credentials, deref-ok (withdraw_address_for_public_key contracts r.public_key) credentials d)

-- The loop panics only at a row that is not answered, behind rows that are.
blame_rows-IsUnanswered :
    (contracts : Contracts) (rows : List BlameRow) (b : ValidatorBlame) (p : Panic)
    → blame_rows contracts rows b ≡ panic p
    → IsUnanswered contracts rows p
unfolding blame_rows
blame_rows-IsUnanswered contracts [] b p h = cc h
blame_rows-IsUnanswered contracts (r ∷ rows) b p h =
    elim (>>=-eq-panic (blame_row contracts r b) (blame_rows contracts rows) h) [
      | inl e ↦ record {
        before = [];
        row = r;
        after = rows;
        split = refl;
        answered = tt;
        fails = blame_row-panic contracts r p b e;
      }
      | inr (c, e, k) ↦
          let u = blame_rows-IsUnanswered contracts rows c p k in
          record {
            before = r ∷ u.before;
            row = u.row;
            after = u.after;
            split = ap (◌∷◌ r) u.split;
            answered = (blame_row-ok contracts r b c e, u.answered);
            fails = u.fails;
          }
    ]

-- The loop ends without a panic exactly if there is a withdrawal address for every row.
pub blame_rows-IsAnswered :
    (contracts : Contracts) (rows : List BlameRow) (b b' : ValidatorBlame)
    → blame_rows contracts rows b ≡ ok b'
    → All (IsAnswered contracts) rows
unfolding blame_rows
blame_rows-IsAnswered contracts [] b b' h = tt
blame_rows-IsAnswered contracts (r ∷ rows) b b' h =
    let (c, e, k) = >>=-eq-ok (blame_row contracts r b) (blame_rows contracts rows) h in
    (blame_row-ok contracts r b c e, blame_rows-IsAnswered contracts rows c b' k)

pub blame_rows-total :
    (contracts : Contracts) (rows : List BlameRow) (b : ValidatorBlame)
    → All (IsAnswered contracts) rows
    → (b' : ValidatorBlame) × (blame_rows contracts rows b ≡ ok b')
unfolding blame_rows
blame_rows-total contracts [] b h = (b, refl)
blame_rows-total contracts (r ∷ rows) b (a, h) =
    let (c, e) = blame_row-answered contracts r b a in rw e (blame_rows-total contracts rows c h)

-- Where its query answers with rows, queryWhoToBlame returns, with a nil error, exactly if there is a
-- withdrawal address for every row. It panics exactly if there is a row without one: if the public key
-- of the first such row does not decode, or the contract answers with an error, that error is not
-- returned, and the nil pointer is read; and a panic of the call is its own.
pub query_who_to_blame-panics :
    (contracts : Contracts) (rows : List BlameRow) (error : Option String) (b : ValidatorBlame)
    (p : Panic)
    → (((b' : ValidatorBlame) × (query_who_to_blame contracts (ok (rows, error)) b ≡ ok (b', none)))
        ↔ All (IsAnswered contracts) rows)
      × ((query_who_to_blame contracts (ok (rows, error)) b ≡ panic p)
          ↔ IsUnanswered contracts rows p)
unfolding query_who_to_blame
query_who_to_blame-panics contracts rows error b p = (
  (
    λ (b', h).
        let (c, e, _) = >>=-eq-ok (blame_rows contracts rows b) _ h in
        blame_rows-IsAnswered contracts rows b c e,
    λ h. let (c, e) = blame_rows-total contracts rows b h in (c, rw e refl),
  ),
  (
    λ h. elim (>>=-eq-panic (blame_rows contracts rows b) _ h) [
      | inl e ↦ blame_rows-IsUnanswered contracts rows b p e
      | inr (_, _, e) ↦ cc e
    ],
    λ u.
        rw (u.split)
          (rw (blame_rows-panics contracts u.before u.after u.row p b u.answered u.fails) refl),
  ),
)
