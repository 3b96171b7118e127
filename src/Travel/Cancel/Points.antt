-- ===== src/Travel/Cancel/Points.antt =====
-- The points that the cancellation of an exchange gives back.
use python_server.Base.{
  ℕ, ◌+◌, ◌*◌, ◌≤◌, ◌≡◌, refl, sym, ap, subst, ◌∙◌, true, false, Option, none, some, List, [], ◌∷◌,
  ◌++◌, Text, arith, codes, ◌==◌, if◌then◌else◌, find, if_true, option_intro, length, Bool-cases,
  inl, inr, Option-cases, ok, Ensures, Ensures-bind, Ensures-map,
}
use python_server.Base.Int.{ℤ, pos, pos_part, ltb_ℤ}
use python_server.Points.Model.{User, Ledger, Session, Posting, find_ledger, income}
use python_server.Points.Rows.{post, ledger_row, add_lot}
use python_server.Points.Credit.{credit, credit_locked, recover}
use python_server.Points.Returns.{is_duplicate_new}
use python_server.Points.Refund.{took_points, refund_locked}
use python_server.Points.Refund.Restored.{GivenBack, refund_locked-GivenBack}
use python_server.Orders.Model.{Db, day, find_user, set_user, points_session, end_session}
use python_server.Travel.Model.{TravelOrder}
use python_server.Travel.Cancel.{
  owes_points, fallback_days, refund_posting, refund_points, return_points,
}

abbrev pub points_of : ℕ → List User → Option ℕ
points_of id [] = none
points_of id (u ∷ us) = if u.id == id then some u.points else points_of id us

-- The points of a session's user have grown by `n`.
abbrev Adds : ℕ → Session → Ledger × Session → Type 0
Adds n s r = (r.1.user.id ≡ s.user.id) × (r.1.user.points ≡ s.user.points + n)

credit_locked-Adds :
    (saved : Session) (amount : ℤ) (p : Posting) (e : Option ℕ) (s : Session)
    → ltb_ℤ (pos 0) amount ≡ true
    → length p.idempotency_key ≤ 160
    → find_ledger s.user.id p.idempotency_key s.ledgers ≡ none
    → Ensures (Adds (pos_part amount) s) (credit_locked saved amount p e s)
unfolding credit_locked credit ledger_row add_lot
credit_locked-Adds saved amount p e s positive short new =
    let n = pos_part amount in
    let row = ledger_row s income n s.user.points (s.user.points + n) p in
    rw (positive, new, credit_locked, credit)
      (subst
        (λ b.
          Ensures (Adds n s)
            (if b then recover saved s p else ok (row, add_lot row.id n e (post s row))))
        (sym (is_duplicate_new s row p.idempotency_key refl refl short new)) (refl, refl))

-- What `refund_points` adds, by the rows that it finds.
abbrev pub owed_by : Option Ledger → Option Ledger → TravelOrder → ℕ
owed_by (some row) original o = 0
owed_by none (some original) o = original.amount
owed_by none none o = pos_part o.points_cost

abbrev pub refund_key : TravelOrder → Text
refund_key o = codes "travel-exchange-refund:" ++ o.order_no

-- The points that the cancellation owes to the user: none where the refund's key is used, else what the
-- exchange took, or the order's cost where no row shows it.
abbrev pub owed : TravelOrder → User → Db → ℕ
owed o u db =
    if owes_points o
    then owed_by (find_ledger u.id (refund_key o) db.ledgers)
        (find (took_points u.id (codes "travel_exchange") o.order_no) db.ledgers) o
    else 0

key_used :
    (now : ℕ) (o : TravelOrder) (u : User) (saved db : Db) (row : Ledger)
    → find_ledger u.id (refund_key o) db.ledgers ≡ some row
    → ltb_ℤ (pos 0) o.points_cost ≡ true
    → Ensures (Adds 0 (points_session u db)) (refund_points now o u saved db)
unfolding refund_points refund_locked credit_locked credit
key_used now o u saved db row used positive =
    option_intro (Ensures (Adds 0 (points_session u db)))
      (find (took_points u.id (codes "travel_exchange") o.order_no) db.ledgers)
      (rw (positive, used, credit_locked, credit) (refl, ground arith))
      (λ original took. rw (used, refund_locked) (refl, ground arith))

key_new :
    (now : ℕ) (o : TravelOrder) (u : User) (saved db : Db)
    → find_ledger u.id (refund_key o) db.ledgers ≡ none
    → length (refund_key o) ≤ 160
    → ltb_ℤ (pos 0) o.points_cost ≡ true
    → Ensures
        (Adds
          (owed_by none (find (took_points u.id (codes "travel_exchange") o.order_no) db.ledgers) o)
          (points_session u db))
        (refund_points now o u saved db)
unfolding refund_points
key_new now o u saved db new short positive =
    let s = points_session u db in
    let fallback = some (now + fallback_days db.rule * day) in
    elim (Option-cases (find (took_points u.id (codes "travel_exchange") o.order_no) db.ledgers)) [
      | inl none_took ↦
          rw (none_took, refund_points)
            (credit_locked-Adds (points_session u saved) o.points_cost (refund_posting true o)
              fallback s positive short new)
      | inr (original, took) ↦
          rw (took, refund_points)
            (Ensures-map (λ r. GivenBack original s r.0 r.1) (Adds original.amount s)
              (refund_locked now (codes "travel_exchange") fallback (refund_posting false o) s)
              (λ r h. (h.same_user, h.credited))
              (refund_locked-GivenBack now (codes "travel_exchange") fallback
                (refund_posting false o) s original new took))
    ]

refund_points-Adds :
    (now : ℕ) (o : TravelOrder) (u : User) (saved db : Db)
    → length (refund_key o) ≤ 160
    → ltb_ℤ (pos 0) o.points_cost ≡ true
    → Ensures
        (Adds
          (owed_by
            (find_ledger u.id (refund_key o) db.ledgers)
            (find (took_points u.id (codes "travel_exchange") o.order_no) db.ledgers)
            o)
          (points_session u db))
        (refund_points now o u saved db)
refund_points-Adds now o u saved db short positive =
    elim (Option-cases (find_ledger u.id (refund_key o) db.ledgers)) [
      | inl new ↦ rw new (key_new now o u saved db new short positive)
      | inr (row, used) ↦ rw used (key_used now o u saved db row used positive)
    ]

pub found_points :
    (id : ℕ) (us : List User) (u : User)
    → find_user id us ≡ some u
    → (u.id ≡ id) × (points_of id us ≡ some u.points)
found_points id [] u h = grind arith
found_points id (x ∷ us) u h = ground (arith, found_points id us u)

pub set_user-points :
    (new : User) (us : List User) (n : ℕ)
    → points_of new.id us ≡ some n
    → points_of new.id (set_user new us) ≡ some new.points
set_user-points new [] n h = grind arith
set_user-points new (u ∷ us) n h = ground (arith, set_user-points new us n)

-- The points of the order's user after `return_points`.
abbrev pub Pays : TravelOrder → User → Db → TravelOrder × Db → Type 0
Pays o u db r = points_of o.user_id r.1.users ≡ some (u.points + owed o u db)

pub positive_cost : (o : TravelOrder) → owes_points o ≡ true → ltb_ℤ (pos 0) o.points_cost ≡ true
positive_cost o h = ground arith

pub return_points-Pays :
    (now : ℕ) (o : TravelOrder) (u : User) (saved db : Db)
    → length (refund_key o) ≤ 160
    → find_user o.user_id db.users ≡ some u
    → Ensures (Pays o u db) (return_points now o saved db)
unfolding return_points
return_points-Pays now o u saved db short found =
    let row = found_points o.user_id db.users u found in
    let n =
      owed_by (find_ledger u.id (refund_key o) db.ledgers)
        (find (took_points u.id (codes "travel_exchange") o.order_no) db.ledgers) o in
    elim (Bool-cases (owes_points o)) [
      | inl owes ↦
          rw (found, owes, return_points)
            (Ensures-bind (Adds n (points_session u db)) (Pays o u db)
              (refund_points now o u saved db)
              (λ r. ok (record o { points_refunded = true }, end_session r.1 db))
              (refund_points-Adds now o u saved db short (positive_cost o owes))
              (λ r added.
                let e = added.0 ∙ row.0 in
                let sum : owed o u db ≡ n = if_true (owes_points o) 0 owes in
                subst (λ m. points_of m (set_user r.1.user db.users) ≡ some r.1.user.points) e
                  (set_user-points r.1.user db.users u.points
                    (ap (λ m. points_of m db.users) e ∙ row.1))
                ∙ ap some (added.1 ∙ ap (λ k. u.points + k) (sym sum))))
      | inr settled ↦ rw (settled, return_points) (row.1 ∙ ap some (ground arith))
    ]
