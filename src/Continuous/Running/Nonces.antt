-- ===== src/Continuous/Running/Nonces.antt =====
-- continuous/: the nonces of the transactions that a run sends.
use shutter_tests.Prelude.{
  some_injective, ℕ, suc, ◌%◌, ◌/◌, ◌<◌, ◌≡◌, refl, sym, ap, subst, ◌∙◌, arith, List, some,
  get_elem?, set, length, length-set, get_elem?-set_self, get_elem?-set_other, get_elem?-lt, false,
  nat_beq, nat_beq_iff, Bool-cases, inl, inr,
}
use shutter_tests.Prelude.Int.{ℤ, pos, ◌+ℤ◌}
use shutter_tests.Prelude.Words.{uint64_of_big}
use shutter_tests.Prelude.Outcomes.{ok}
use shutter_tests.Chain.{Crypto}
use shutter_tests.Utils.Account.{Account}
use shutter_tests.Utils.Prefix.{prefix_from_block_number}
use shutter_tests.Continuous.Status.{tx_count}
use shutter_tests.Continuous.System.{
  System, Step, sends, Reach, here, next, launch, initial, next_account,
}
use shutter_tests.Continuous.System.Reachable.{Reach-partition, Reach-round_robin}
use shutter_tests.Continuous.Send.{Sender, SendCalls, send_shutterized_tx}
use shutter_tests.Continuous.Send.Effects.{IsSent, send-IsSent}
use shutter_tests.Continuous.Running.{Run, begins, moves}
use shutter_tests.Utils.Account.Nonces.{counted_up, counted_up_once, not_counted_up}
use shutter_tests.Continuous.Running.Turns.{turns, turns_hit, turns_miss, turns-own}
use shutter_tests.Continuous.Running.Unchanged.{
  Step-inner_tx, Launched, send-Launched, launch-inner_tx,
}

-- What holds of a run: the accounts and their nonces as they were counted up, and what was sent.
record Inv (start cfg : Sender) (s : System) : Type 0 where
  reached : Reach (length start.accounts) s
  same_length : length cfg.accounts ≡ length start.accounts
  counted :
      (i : ℕ) (a : Account)
      → get_elem? start.accounts i ≡ some a
      → get_elem? cfg.accounts i ≡ some (counted_up a (turns (length start.accounts) s.sent i))
  nonces :
      (p : ℕ) (a : Account)
      → p < s.sent
      → get_elem? start.accounts (p % length start.accounts) ≡ some a
      → (s.store p).inner_tx.nonce
        ≡ uint64_of_big
            (counted_up a (turns (length start.accounts) p (p % length start.accounts))).nonce

turn_index :
    (start cfg : Sender) (s : System)
    → Inv start cfg s
    → next_account (length cfg.accounts) s.status ≡ s.sent % length start.accounts
unfolding next_account
turn_index start cfg s v =
    ap (λ k. tx_count s.status % k) v.same_length
    ∙ ap (λ k. k % length start.accounts) (Reach-partition v.reached).1

-- The account whose turn it was has counted one further, the others are as before.
counted_after :
    (n sent i : ℕ) (accounts : List Account) (account a : Account)
    → get_elem? accounts (sent % n) ≡ some account
    → get_elem? accounts i ≡ some (counted_up a (turns n sent i))
    → get_elem? (set accounts (sent % n) (counted_up account 1)) i
      ≡ some (counted_up a (turns n (suc sent) i))
counted_after n sent i accounts account a e f = elim (Bool-cases (nat_beq (sent % n) i)) [
  | inl t ↦
      let same = (nat_beq_iff (sent % n) i).0 t in
      let own = some_injective (sym e ∙ ap (get_elem? accounts) same ∙ f) in
      ap (get_elem? (set accounts (sent % n) (counted_up account 1))) (sym same)
      ∙ get_elem?-set_self accounts (sent % n) _ (get_elem?-lt accounts (sent % n) e)
      ∙ ap (λ b. some (counted_up b 1)) own
      ∙ ap some (counted_up_once a (turns n sent i))
      ∙ ap (λ k. some (counted_up a k)) (sym (turns_hit n sent i t))
  | inr t ↦
      get_elem?-set_other accounts (sent % n) i (counted_up account 1) t
      ∙ f
      ∙ ap (λ k. some (counted_up a k)) (turns_miss n sent i t)
]

begins-Inv : (start : Sender) → Inv start start initial
unfolding initial
begins-Inv start = record {
  reached = here;
  same_length = refl;
  counted = λ i a g. g ∙ ap some (not_counted_up a);
  nonces = λ p a l g. absurd (omega (arith, l));
}

moves-Inv :
    (start cfg : Sender) (s t : System)
    → Inv start cfg s
    → Step (length cfg.accounts) s t
    → t.sent ≡ s.sent
    → Inv start cfg t
moves-Inv start cfg s t v h e = record {
  reached = next v.reached (subst (λ n. Step n s t) v.same_length h);
  same_length = v.same_length;
  counted = λ i a g. rw e (v.counted i a g);
  nonces =
      λ p a l g. ap (λ x. x.nonce) (Step-inner_tx p h e) ∙ v.nonces p a (subst (λ k. p < k) e l) g;
}

module _ (c : Crypto) (calls : SendCalls) (block slot : ℤ) (start cfg cfg' : Sender) (s s' : System)
    (v : Inv start cfg s) (h : send_shutterized_tx c calls block slot cfg s ≡ ok (cfg', s')) where
  step : Launched cfg block slot s s'
  step = send-Launched c calls block slot cfg cfg' s s' h

  sent : IsSent step.account block slot cfg s cfg' s'
  sent = send-IsSent c calls block slot cfg cfg' s s' step.account step.turn h

  turn : get_elem? cfg.accounts (s.sent % length start.accounts) ≡ some step.account
  turn =
      subst (λ i. get_elem? cfg.accounts i ≡ some step.account) (turn_index start cfg s v) step.turn

  -- The account whose turn it was had the nonce that it is counted up to.
  picked_account :
      (a : Account)
      → get_elem? start.accounts (s.sent % length start.accounts) ≡ some a
      → step.account
        ≡ counted_up a (turns (length start.accounts) s.sent (s.sent % length start.accounts))
  picked_account a g = some_injective (sym turn ∙ v.counted (s.sent % length start.accounts) a g)

  counted_now :
      (i : ℕ) (a : Account)
      → get_elem? start.accounts i ≡ some a
      → get_elem? cfg'.accounts i ≡ some (counted_up a (turns (length start.accounts) s'.sent i))
  counted_now i a g =
      ap (λ k. get_elem? k i)
        (sent.nonce_bumped
          ∙ ap (λ k. set cfg.accounts k (counted_up step.account 1)) (turn_index start cfg s v))
      ∙ counted_after (length start.accounts) s.sent i cfg.accounts step.account a turn
          (v.counted i a g)
      ∙ ap (λ k. some (counted_up a (turns (length start.accounts) k i))) (sym sent.one_more)

  reached_now : Reach (length start.accounts) s'
  reached_now = next v.reached (
      subst (Step (length start.accounts) s)
        (sym (
          step.launched
          ∙ ap (λ n. launch n step.inner step.outer (prefix_from_block_number block) block slot s)
              v.same_length))
        (sends step.inner step.outer (prefix_from_block_number block) block slot))

  sent_before : (p : ℕ) → p < s'.sent → nat_beq s.sent p ≡ false → p < s.sent
  sent_before p l t = ground (arith, l, sent.one_more)

  nonces_after :
      (p : ℕ) (a : Account)
      → p < s'.sent
      → get_elem? start.accounts (p % length start.accounts) ≡ some a
      → (s'.store p).inner_tx.nonce
        ≡ uint64_of_big
            (counted_up a (turns (length start.accounts) p (p % length start.accounts))).nonce
  nonces_after p a l g = elim (Bool-cases (nat_beq s.sent p)) [
    | inl t ↦
        let same = (nat_beq_iff s.sent p).0 t in
        ap (λ k. (s'.store k).inner_tx.nonce) (sym same)
        ∙ sent.inner_nonce
        ∙ ap (λ b. uint64_of_big b.nonce)
            (picked_account a
                (ap (λ k. get_elem? start.accounts (k % length start.accounts)) same ∙ g)
              ∙ ap (λ k. counted_up a (turns (length start.accounts) k (k % length start.accounts)))
                  same)
    | inr t ↦
        let before : p < s.sent = sent_before p l t in
        ap (λ k. (k.store p).inner_tx.nonce) step.launched
        ∙ ap (λ x. x.nonce) (launch-inner_tx _ _ _ _ _ _ s p before)
        ∙ v.nonces p a before g
  ]

  sends-Inv : Inv start cfg' s'
  sends-Inv = record {
    reached = reached_now;
    same_length = ap length sent.nonce_bumped ∙ length-set cfg.accounts _ _ ∙ v.same_length;
    counted = counted_now;
    nonces = nonces_after;
  }

Run-Inv : {c : Crypto} {start cfg : Sender} {s : System} → Run c start cfg s → Inv start cfg s
Run-Inv {start = start} begins = begins-Inv start
Run-Inv {c = c} {start = start} {cfg = cfg'} {s = s'}
      (Run.sends calls block slot {cfg = cfg} {s = s} r h) =
    sends-Inv c calls block slot start cfg cfg' s s' (Run-Inv r) h
Run-Inv {start = start} (moves {cfg = cfg} {s = s} {t = t} r h e) =
    moves-Inv start cfg s t (Run-Inv r) h e

-- In a run that did not panic, whatever the clients answered and however its goroutines interleaved,
-- the p-th transaction, counted from 0, is the one of the account with the index p % n, of n accounts,
-- and has as its nonce the low 64 bits of the one that this account started with plus p / n: the turns
-- go round, and every account uses its nonces in order, none twice and none left out.
pub Run-nonces :
    {c : Crypto} {start cfg : Sender} {s : System} (p : ℕ) (account : Account)
    → Run c start cfg s
    → p < s.sent
    → get_elem? start.accounts (p % length start.accounts) ≡ some account
    → ((s.store p).sender ≡ p % length start.accounts)
      × ((s.store p).inner_tx.nonce
          ≡ uint64_of_big (account.nonce +ℤ pos (p / length start.accounts)))
Run-nonces {start = start} p account r h g =
    let v = Run-Inv r in
    (
      Reach-round_robin v.reached p h,
      v.nonces p account h g
          ∙ ap (λ k. uint64_of_big (account.nonce +ℤ pos k))
              (turns-own (length start.accounts) p
                (omega (arith, get_elem?-lt start.accounts (p % length start.accounts) g))),
    )
