-- ===== src/Points/Expire/Laws.antt =====
-- What `expire_due_locked` leaves: no lot that is due, the usable lots untouched, and a balance that
-- has lost what was due.
use python_server.Base.{
  ℕ, ◌+◌, ◌-◌, min, ◌≡◌, refl, sym, ap, ◌∙◌, subst, Option, none, some, List, [], ◌∷◌, arith, ◌==◌,
  if◌then◌else◌, select, sum_by, true, false, if_intro,
}
use python_server.Points.Model.{Lot, Session}
use python_server.Points.Lots.{due, usable, unexpired, overdue, remaining_sum, find_lot}
use python_server.Points.Lots.Table.{Listed, Apart, sum_by-set_lot, Listed-set_lot}
use python_server.Points.Rows.{allocate, write_lot}
use python_server.Points.Expire.{expired_lot, close_lots, expire_lots}

-- A measure of lots that no expired lot has.
abbrev pub Spares : (Lot → ℕ) → Type 0
Spares weight = (l : Lot) → weight (expired_lot l) ≡ 0

module _ (weight : Lot → ℕ) (spares : Spares weight) where
  write_expired :
      (l : Lot) (s : Session)
      → find_lot l.id s.lots ≡ some l
      → sum_by weight (write_lot (expired_lot l) s).lots + weight l ≡ sum_by weight s.lots
  write_expired l s h = omega (arith, sum_by-set_lot weight (expired_lot l) l s.lots h, spares l)

  pub close_lots-sum :
      (ls : List Lot) (s : Session)
      → Listed s.lots ls
      → Apart ls
      → sum_by weight (close_lots ls s).lots + sum_by weight ls ≡ sum_by weight s.lots
  unfolding close_lots
  close_lots-sum [] s h a = omega arith
  close_lots-sum (l ∷ ls) s h a = omega (
    arith,
    write_expired l s h.0,
    close_lots-sum ls (write_lot (expired_lot l) s)
        (Listed-set_lot (expired_lot l) ls s.lots a.0 h.1) a.1,
  )

  pub expire_lots-sum :
      (ls : List Lot) (remaining ledger_id : ℕ) (s : Session)
      → Listed s.lots ls
      → Apart ls
      → sum_by weight (expire_lots ls remaining ledger_id s).lots + sum_by weight ls
        ≡ sum_by weight s.lots
  unfolding expire_lots
  expire_lots-sum [] remaining ledger_id s h a = omega arith
  expire_lots-sum (l ∷ ls) remaining ledger_id s h a =
      let amount = min l.remaining_amount remaining in
      let s' = write_lot (expired_lot l) s in
      let next : Session = if remaining == 0 then s' else allocate ledger_id l.id amount s' in
      let same : next.lots ≡ s'.lots =
        if_intro (λ (t : Session). t.lots ≡ s'.lots) (remaining == 0) refl refl in
      omega (
        arith,
        write_expired l s h.0,
        expire_lots-sum ls (remaining - amount) ledger_id next
            (subst (λ t. Listed t ls) (sym same) (Listed-set_lot (expired_lot l) ls s.lots a.0 h.1))
            a.1,
        ap (sum_by weight) same,
      )

pub close_lots-user : (ls : List Lot) (s : Session) → (close_lots ls s).user ≡ s.user
unfolding close_lots
close_lots-user [] s = refl
close_lots-user (l ∷ ls) s = close_lots-user ls (write_lot (expired_lot l) s)

pub expire_lots-user :
    (ls : List Lot) (remaining ledger_id : ℕ) (s : Session)
    → (expire_lots ls remaining ledger_id s).user ≡ s.user
unfolding expire_lots
expire_lots-user [] remaining ledger_id s = refl
expire_lots-user (l ∷ ls) remaining ledger_id s =
    expire_lots-user ls _ ledger_id _
    ∙ if_intro (λ (t : Session). t.user ≡ s.user) (remaining == 0) refl refl

abbrev pub due_weight : ℕ → ℕ → Lot → ℕ
due_weight user_id now l = if due user_id now l then 1 else 0

abbrev pub due_count : ℕ → Session → ℕ
due_count now s = sum_by (due_weight s.user.id now) s.lots

abbrev pub usable_weight : ℕ → ℕ → Lot → ℕ
usable_weight user_id now l = if usable user_id now l then l.remaining_amount else 0

pub remaining_sum-usable :
    (user_id now : ℕ) (ls : List Lot)
    → remaining_sum (select (usable user_id now) ls) ≡ sum_by (usable_weight user_id now) ls
remaining_sum-usable user_id now [] = refl
remaining_sum-usable user_id now (l ∷ ls) = ground (arith, remaining_sum-usable user_id now ls)

pub sum_by-due :
    (user_id now : ℕ) (ls : List Lot)
    → sum_by (due_weight user_id now) (select (due user_id now) ls)
      ≡ sum_by (due_weight user_id now) ls
sum_by-due user_id now [] = refl
sum_by-due user_id now (l ∷ ls) = ground (arith, sum_by-due user_id now ls)

not_usable : (now : ℕ) (e : Option ℕ) → overdue now e ≡ true → unexpired now e ≡ false
not_usable now none h = ground arith
not_usable now (some t) h = ground arith

pub usable-due :
    (user_id now : ℕ) (ls : List Lot)
    → sum_by (usable_weight user_id now) (select (due user_id now) ls) ≡ 0
usable-due user_id now [] = refl
usable-due user_id now (l ∷ ls) =
    ground (arith, not_usable now l.expires_at, usable-due user_id now ls)
