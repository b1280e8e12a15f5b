-- ===== src/Plain/SendWait/Rounds.antt =====
-- tests/sendwaittx.go: when SendAndCheckTransaction succeeds, and when it fails and the test goes on.
use shutter_tests.Prelude.{
  ℕ, suc, zero, ◌≡◌, refl, ap, ◌∙◌, ◌⊎◌, ◌↔◌, inl, inr, ◌++◌, replicate, Bool, true, false, List,
  [], ◌∷◌, some,
}
use shutter_tests.Prelude.Outcomes.{Outcome, ok, err, panic}
use shutter_tests.Plain.Config.{Config}
use shutter_tests.Plain.Requests.{
  SignedTx, Lookup, receipt, failed, timed_out, second_passed, send_legacy_tx, poll_receipt,
  wait_for_receipt,
}
use shutter_tests.Plain.SendWait.{
  Answers, after_receipt, after_wait, after_send, send_and_check_transaction,
}
use shutter_tests.Plain.SendWait.Outcomes.{
  IsWaited, IsSettled, IsSent, IsConfirmed, IsLost, IsSettled-after_cancel, after_send-ok,
  after_receipt-ok,
}

abbrev Tells : Bool → List Lookup → Type 0
Tells true ls = (status : ℕ) × IsWaited (receipt (suc status)) ls
Tells false ls = IsWaited (receipt 0) ls ⊎ IsWaited timed_out ls

at_once : (l : Lookup) (rest : List Lookup) → IsWaited l (l ∷ rest)
at_once l rest = record { seconds = 0; rest = rest; split = refl }

a_second_later : (l : Lookup) (ls : List Lookup) → IsWaited l ls → IsWaited l (second_passed ∷ ls)
a_second_later l ls w = record {
  seconds = suc w.seconds;
  rest = w.rest;
  split = ap (◌∷◌ second_passed) w.split;
}

Tells-later : (b : Bool) (ls : List Lookup) → Tells b ls → Tells b (second_passed ∷ ls)
Tells-later true ls (status, w) = (status, a_second_later (receipt (suc status)) ls w)
Tells-later false ls (inl w) = inl (a_second_later (receipt 0) ls w)
Tells-later false ls (inr w) = inr (a_second_later timed_out ls w)

poll_receipt-Tells : (ls : List Lookup) (b : Bool) → poll_receipt ls ≡ some (ok b) → Tells b ls
unfolding poll_receipt
poll_receipt-Tells [] b h = cc h
poll_receipt-Tells (receipt zero ∷ rest) true h = cc h
poll_receipt-Tells (receipt zero ∷ rest) false h = inl (at_once (receipt 0) rest)
poll_receipt-Tells (receipt (suc n) ∷ rest) true h = (n, at_once (receipt (suc n)) rest)
poll_receipt-Tells (receipt (suc n) ∷ rest) false h = cc h
poll_receipt-Tells (failed e ∷ rest) b h = cc h
poll_receipt-Tells (timed_out ∷ rest) true h = cc h
poll_receipt-Tells (timed_out ∷ rest) false h = inr (at_once timed_out rest)
poll_receipt-Tells (second_passed ∷ rest) b h = Tells-later b rest (poll_receipt-Tells rest b h)

poll_receipt-replicate :
    (n : ℕ) (ls : List Lookup) → poll_receipt (replicate n second_passed ++ ls) ≡ poll_receipt ls
unfolding poll_receipt
poll_receipt-replicate zero ls = refl
poll_receipt-replicate (suc n) ls = poll_receipt-replicate n ls

poll_receipt-IsWaited :
    (l : Lookup) (ls : List Lookup) (w : IsWaited l ls)
    → poll_receipt ls ≡ poll_receipt (l ∷ w.rest)
poll_receipt-IsWaited l ls w =
    ap poll_receipt w.split ∙ poll_receipt-replicate w.seconds (l ∷ w.rest)

Tells-poll_receipt : (ls : List Lookup) (b : Bool) → Tells b ls → poll_receipt ls ≡ some (ok b)
unfolding poll_receipt
Tells-poll_receipt ls true (status, w) = poll_receipt-IsWaited (receipt (suc status)) ls w
Tells-poll_receipt ls false (inl w) = poll_receipt-IsWaited (receipt 0) ls w
Tells-poll_receipt ls false (inr w) = poll_receipt-IsWaited timed_out ls w

wait_for_receipt-Tells :
    (dialed : Outcome (Unit {0})) (ls : List Lookup) (b : Bool)
    → wait_for_receipt dialed ls ≡ some (ok b)
    → (dialed ≡ ok tt) × Tells b ls
unfolding wait_for_receipt
wait_for_receipt-Tells (ok u) ls b h = (refl, poll_receipt-Tells ls b h)
wait_for_receipt-Tells (err e) ls b h = cc h
wait_for_receipt-Tells (panic p) ls b h = cc h

Tells-wait_for_receipt :
    (dialed : Outcome (Unit {0})) (ls : List Lookup) (b : Bool)
    → dialed ≡ ok tt
    → Tells b ls
    → wait_for_receipt dialed ls ≡ some (ok b)
unfolding wait_for_receipt
Tells-wait_for_receipt dialed ls b d t = rw d (Tells-poll_receipt ls b t)

-- A round that returns, taken apart.
round-returned :
    (a : Answers) (cfg : Config) (b : Bool)
    → send_and_check_transaction a cfg ≡ some (ok b)
    → (signed : SignedTx) × IsSent a cfg signed
      × (Tells b (a.lookups (a.hash signed))
          × ((b ≡ true) ⊎ ((b ≡ false) × IsSettled a cfg signed.tx.nonce)))
unfolding send_and_check_transaction
round-returned a cfg b h =
    let (signed, s, (r, w, k)) =
      after_send-ok a cfg (send_legacy_tx a.sending cfg.node_url cfg.private_key) b h in
    let (same, settled) = after_receipt-ok a cfg signed.tx.nonce r b k in
    let (d, t) =
      wait_for_receipt-Tells (a.waiting.dial cfg.node_url) (a.lookups (a.hash signed)) b
        (w ∙ ap some same) in
    (signed, record { sent = s; dialed = d }, (t, settled))

-- A round that was sent and whose wait has told something ends with what follows that.
round-told :
    (a : Answers) (cfg : Config) (signed : SignedTx) (b : Bool)
    → IsSent a cfg signed
    → Tells b (a.lookups (a.hash signed))
    → send_and_check_transaction a cfg ≡ some (after_receipt a cfg signed.tx.nonce (ok b))
unfolding send_and_check_transaction after_send after_wait
round-told a cfg signed b s t = rw (s.sent) (
    rw
      (Tells-wait_for_receipt (a.waiting.dial cfg.node_url) (a.lookups (a.hash signed)) b s.dialed
        t)
      refl)

-- SendAndCheckTransaction returns true exactly if its transaction was sent, the node could be reached,
-- and the first lookup of that transaction's hash that ended the wait found a receipt with a status
-- other than 0. It returns false, rather than end the process, exactly if the wait ended with a receipt
-- with status 0 or with the timeout, and then either the cancellation of the nonce was sent, or it
-- could not be sent and the node reported the next nonce as pending.
pub send_and_check_transaction-outcomes :
    (a : Answers) (cfg : Config)
    → ((send_and_check_transaction a cfg ≡ some (ok true)) ↔ IsConfirmed a cfg)
      × ((send_and_check_transaction a cfg ≡ some (ok false)) ↔ IsLost a cfg)
unfolding after_receipt
send_and_check_transaction-outcomes a cfg = (
  (
    λ h.
        let (signed, s, (t, _)) = round-returned a cfg true h in
        record { signed = signed; sent = s; status = t.0; found = t.1 },
    λ c. round-told a cfg c.signed true c.sent (c.status, c.found),
  ),
  (
    λ h.
        let (signed, s, (t, settled)) = round-returned a cfg false h in
        record {
          signed = signed;
          sent = s;
          missed = t;
          settled = elim settled [ inl e ↦ cc e | inr (_, x) ↦ x ];
        },
    λ l.
        round-told a cfg l.signed false l.sent l.missed
        ∙ ap some (IsSettled-after_cancel a cfg l.signed.tx.nonce l.settled),
  ),
)
