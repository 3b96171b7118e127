-- ===== src/Points/Replay.antt =====
-- Calls that are made twice under one key.
use python_server.Base.{
  ℕ, ◌+◌, ◌-◌, ◌≤◌, ◌<◌, ◌≡◌, refl, sym, ◌∙◌, subst, Option, some, List, ◌∷◌, arith, ltb,
  if◌then◌else◌, take, take_all, length, Text, text_eq, text_eq_refl, find, true, if_intro,
  option_intro, ok, err, Ensures, Ensures-bind, Ensures-map, both, insufficient_points,
  returns_anything,
}
use python_server.Base.Int.{ℤ, pos, pos_part, ltb_ℤ, ltb_ℤ-pos}
use python_server.Points.Model.{income, expense, Ledger, Session, Posting, find_ledger}
use python_server.Points.Rows.{ledger_row, post, is_duplicate, add_lot}
use python_server.Points.Credit.{recover, credit, credit_locked}
use python_server.Points.Lots.{remaining_sum}
use python_server.Points.Expire.{expire_due_locked, ensure_lot_coverage}
use python_server.Points.Debit.{consume, usable_lots, spend, debit, debit_locked}
use python_server.Points.Debit.Spent.{consume-frame}
use python_server.Points.Invariant.Methods.{after_flush}
use python_server.Points.Refund.{took_points, give_back, refund_locked}
use python_server.Points.Refund.Restored.{GivenBack, give_back-GivenBack}

-- The session that a call leaves finds its row under the key again.
abbrev pub Remembers : Text → Ledger × Session → Type 0
Remembers key (row, t) = find_ledger t.user.id key t.ledgers ≡ some row

remembers_row :
    (key : Text) (row : Ledger) (user_id : ℕ) (rest : List Ledger)
    → row.user_id ≡ user_id
    → row.idempotency_key ≡ take 160 key
    → length key ≤ 160
    → find_ledger user_id key (row ∷ rest) ≡ some row
remembers_row key row user_id rest u k short =
    let same : text_eq row.idempotency_key key ≡ true =
      subst (λ t. text_eq t key ≡ true) (sym (k ∙ take_all 160 key short)) (text_eq_refl key) in
    ground (arith, same)

credit_locked-Remembers :
    (saved : Session) (amount : ℤ) (p : Posting) (e : Option ℕ) (s : Session)
    → length p.idempotency_key ≤ 160
    → saved.user.id ≡ s.user.id
    → Ensures (Remembers p.idempotency_key) (credit_locked saved amount p e s)
unfolding credit_locked credit ledger_row add_lot recover
credit_locked-Remembers saved amount p e s short same =
    let n = pos_part amount in
    if_intro (Ensures (Remembers p.idempotency_key)) (ltb_ℤ (pos 0) amount)
      (option_intro (Ensures (Remembers p.idempotency_key))
        (find_ledger s.user.id p.idempotency_key s.ledgers)
        (if_intro (Ensures (Remembers p.idempotency_key))
          (is_duplicate s (ledger_row s income n s.user.points (s.user.points + n) p))
          (option_intro (Ensures (Remembers p.idempotency_key))
            (find_ledger s.user.id p.idempotency_key saved.ledgers) tt
            λ row found.
              subst (λ i. find_ledger i p.idempotency_key saved.ledgers ≡ some row) (sym same)
                found)
          (remembers_row p.idempotency_key
            (ledger_row s income n s.user.points (s.user.points + n) p) s.user.id s.ledgers refl
            refl short))
        λ row found. found)
      tt

spend-Remembers :
    (now amount : ℕ) (p : Posting) (s : Session)
    → length p.idempotency_key ≤ 160
    → Ensures (Remembers p.idempotency_key) (spend now amount p s)
unfolding spend ledger_row
spend-Remembers now amount p s short =
    let row = ledger_row s expense amount s.user.points (s.user.points - amount) p in
    let lots = usable_lots now s in
    let frame = consume-frame lots amount s.next_ledger (post s row) in
    if_intro (Ensures (Remembers p.idempotency_key)) (ltb (remaining_sum lots) amount) tt (
      after_flush (Remembers p.idempotency_key) s row
        (λ t. ok (row, consume lots amount s.next_ledger t))
        (rw (frame.0, frame.1)
          (remembers_row p.idempotency_key row s.user.id s.ledgers refl refl short)))

debit-Remembers :
    (now now' now'' amount : ℕ) (p : Posting) (s : Session)
    → length p.idempotency_key ≤ 160
    → Ensures (Remembers p.idempotency_key) (debit now now' now'' amount p s)
unfolding debit
debit-Remembers now now' now'' amount p s short =
    Ensures-bind (λ _. Unit {0}) (Remembers p.idempotency_key) (expire_due_locked now s) _
      (returns_anything (expire_due_locked now s))
      λ r _.
        Ensures-bind (λ _. Unit {0}) (Remembers p.idempotency_key)
          (if ltb r.1.user.points amount
            then err insufficient_points
            else ensure_lot_coverage now' r.1)
          _
          (returns_anything (
            if ltb r.1.user.points amount
            then err insufficient_points
            else ensure_lot_coverage now' r.1))
          λ t _. spend-Remembers now'' amount p t short

debit_locked-Remembers :
    (now now' now'' : ℕ) (amount : ℤ) (p : Posting) (s : Session)
    → length p.idempotency_key ≤ 160
    → Ensures (Remembers p.idempotency_key) (debit_locked now now' now'' amount p s)
unfolding debit_locked
debit_locked-Remembers now now' now'' amount p s short =
    if_intro (Ensures (Remembers p.idempotency_key)) (ltb_ℤ (pos 0) amount)
      (option_intro (Ensures (Remembers p.idempotency_key))
        (find_ledger s.user.id p.idempotency_key s.ledgers)
        (debit-Remembers now now' now'' (pos_part amount) p s short) λ row found. found)
      tt

give_back-row :
    (now : ℕ) (e : Option ℕ) (original : Ledger) (p : Posting) (s : Session)
    → Ensures
        (λ (r : Ledger × Session).
          (r.0.user_id ≡ s.user.id) × (r.0.idempotency_key ≡ take 160 p.idempotency_key))
        (give_back now e original p s)
unfolding give_back ledger_row
give_back-row now e original p s =
    after_flush
      (λ (r : Ledger × Session).
        (r.0.user_id ≡ s.user.id) × (r.0.idempotency_key ≡ take 160 p.idempotency_key))
      s (ledger_row s income original.amount s.user.points (s.user.points + original.amount) p) _
      (refl, refl)

refund_locked-Remembers :
    (now : ℕ) (biz_type : Text) (e : Option ℕ) (p : Posting) (s : Session)
    → length p.idempotency_key ≤ 160
    → Ensures (Remembers p.idempotency_key) (refund_locked now biz_type e p s)
unfolding refund_locked
refund_locked-Remembers now biz_type e p s short =
    option_intro (Ensures (Remembers p.idempotency_key))
      (find_ledger s.user.id p.idempotency_key s.ledgers)
      (option_intro (Ensures (Remembers p.idempotency_key))
        (find (took_points s.user.id biz_type p.biz_no) s.ledgers) tt
        λ original e'.
          Ensures-map
            (λ (r : Ledger × Session).
              GivenBack original s r.0 r.1
              × ((r.0.user_id ≡ s.user.id) × (r.0.idempotency_key ≡ take 160 p.idempotency_key)))
            (Remembers p.idempotency_key) (give_back now e original p s)
            (λ r k.
              rw (k.0.same_user, k.0.recorded)
                (remembers_row p.idempotency_key r.0 s.user.id s.ledgers k.1.0 k.1.1 short))
            (both (λ r. GivenBack original s r.0 r.1) _ (give_back now e original p s)
              (give_back-GivenBack now e original p s) (give_back-row now e original p s)))
      λ row found. found

credit_again :
    (saved' : Session) (amount' : ℕ) (p' : Posting) (e' : Option ℕ) (t : Session) (row : Ledger)
    → 0 < amount'
    → find_ledger t.user.id p'.idempotency_key t.ledgers ≡ some row
    → credit_locked saved' (pos amount') p' e' t ≡ ok (row, t)
unfolding credit_locked credit
credit_again saved' amount' p' e' t row positive found =
    rw (ltb_ℤ-pos amount' positive, found, credit_locked, credit)

debit_again :
    (now now' now'' amount' : ℕ) (p' : Posting) (t : Session) (row : Ledger)
    → 0 < amount'
    → find_ledger t.user.id p'.idempotency_key t.ledgers ≡ some row
    → debit_locked now now' now'' (pos amount') p' t ≡ ok (row, t)
unfolding debit_locked
debit_again now now' now'' amount' p' t row positive found =
    rw (ltb_ℤ-pos amount' positive, found, debit_locked)

-- A credit that has gone through is not booked again: the same key gives its row back, and the
-- session stays as it is, whatever amount, purpose and expiry the second call names. The key fits
-- its column, the second amount is positive, and what was saved is a session of the same user.
pub credit_locked_twice :
    (saved : Session) (amount : ℤ) (p : Posting) (e : Option ℕ) (s : Session) (row : Ledger)
    (t saved' : Session) (amount' : ℕ) (p' : Posting) (e' : Option ℕ)
    → length p.idempotency_key ≤ 160
    → saved.user.id ≡ s.user.id
    → credit_locked saved amount p e s ≡ ok (row, t)
    → 0 < amount'
    → p'.idempotency_key ≡ p.idempotency_key
    → credit_locked saved' (pos amount') p' e' t ≡ ok (row, t)
credit_locked_twice saved amount p e s row t saved' amount' p' e' short same h positive k =
    credit_again saved' amount' p' e' t row positive (
      subst (λ key. find_ledger t.user.id key t.ledgers ≡ some row) (sym k)
        (subst (Ensures (Remembers p.idempotency_key)) h
          (credit_locked-Remembers saved amount p e s short same)))

-- Nor is a debit: the same key gives its row back and takes nothing more. The key fits its column
-- and the second amount is positive.
pub debit_locked_twice :
    (now now' now'' : ℕ) (amount : ℤ) (p : Posting) (s : Session) (row : Ledger) (t : Session)
    (later later' later'' amount' : ℕ) (p' : Posting)
    → length p.idempotency_key ≤ 160
    → debit_locked now now' now'' amount p s ≡ ok (row, t)
    → 0 < amount'
    → p'.idempotency_key ≡ p.idempotency_key
    → debit_locked later later' later'' (pos amount') p' t ≡ ok (row, t)
debit_locked_twice now now' now'' amount p s row t later later' later'' amount' p' short h positive
      k =
    debit_again later later' later'' amount' p' t row positive (
      subst (λ key. find_ledger t.user.id key t.ledgers ≡ some row) (sym k)
        (subst (Ensures (Remembers p.idempotency_key)) h
          (debit_locked-Remembers now now' now'' amount p s short)))

-- Points are refunded once: a second refund under the same key, whatever it is for, gives the first
-- one's row back and changes nothing. The key fits its column.
pub refund_locked_twice :
    (now : ℕ) (biz_type : Text) (e : Option ℕ) (p : Posting) (s : Session) (row : Ledger)
    (t : Session) (later : ℕ) (biz_type' : Text) (e' : Option ℕ) (p' : Posting)
    → length p.idempotency_key ≤ 160
    → refund_locked now biz_type e p s ≡ ok (row, t)
    → p'.idempotency_key ≡ p.idempotency_key
    → refund_locked later biz_type' e' p' t ≡ ok (row, t)
unfolding refund_locked
refund_locked_twice now biz_type e p s row t later biz_type' e' p' short h k =
    let found =
      subst (λ key. find_ledger t.user.id key t.ledgers ≡ some row) (sym k)
        (subst (Ensures (Remembers p.idempotency_key)) h
          (refund_locked-Remembers now biz_type e p s short)) in
    rw (found, refund_locked)
