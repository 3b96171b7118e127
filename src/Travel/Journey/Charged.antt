-- ===== src/Travel/Journey/Charged.antt =====
-- What an exchange costs: the points of the route and one of its places.
use python_server.Base.{
  ℕ, ◌+◌, min, ◌≡◌, refl, sym, ap, ◌∙◌, subst, true, not, ◌&&◌, ◌⊎◌, inl, inr, none, some, arith,
  List, [], ◌∷◌, Text, ◌==◌, ltb, if◌then◌else◌, Bool-cases, if_true, if_intro, if_cases,
  option_cases, find, passes_of_find, strip, Result, ok, err, Ensures, Ensures-bind, text_eq,
  text_eq_refl,
}
use python_server.Base.Int.{ℤ, pos, ◌-ℤ◌, ltb_ℤ}
use python_server.Points.Model.{User, Ledger, Session, find_ledger}
use python_server.Points.Lots.{remaining_sum}
use python_server.Points.Expire.{due_lots}
use python_server.Points.Debit.{debit_locked}
use python_server.Points.Debit.Locked.{Debited, debit_locked-Debited}
use python_server.Points.Invariant.{IsSound}
use python_server.Orders.Model.{Db, find_user, set_user, points_session, end_session}
use python_server.Travel.Model.{TravelOrder, Route, Actor, TravelDb, find_travel}
use python_server.Travel.Cancel.Points.{points_of, found_points, set_user-points}
use python_server.Travel.Cancel.Returned.{places_of, set_route-places}
use python_server.Travel.Journey.Exchange.{
  exchanged_by, open_route, required_points, exchange_order, exchange_posting, numbered, pay_points,
  place_order, exchange_open, is_conflict, after_conflict, exchange_new, exchange_travel_route,
}

pub exchanged_by_self : (key : Text) (a b : ℕ) → b ≡ a → ((a == b) && text_eq key key) ≡ true
exchanged_by_self key a b same = ground (arith, text_eq_refl key)

-- The points that lapse as the debit expires what is due.
abbrev pub lapsed : ℕ → User → Route → Db → ℕ
lapsed now u r db =
    if ltb 0 (required_points r)
    then min (remaining_sum (due_lots now (points_session u db))) u.points
    else 0

-- The balance after the payment, against the one before.
abbrev pub Paid : ℕ → User → Route → Db → Db → Type 0
Paid now u r db db' =
    (n : ℕ) × (points_of u.id db'.users ≡ some n)
    × (n + required_points r + lapsed now u r db ≡ u.points)

module _ (now now' now'' : ℕ) (u : User) (r : Route) (o : TravelOrder) (db : Db) where
  pay_points-Paid :
      find_user u.id db.users ≡ some u
      → IsSound (points_session u db)
      → find_ledger u.id (exchange_posting r o).idempotency_key db.ledgers ≡ none
      → Ensures (Paid now u r db) (pay_points now now' now'' u r o db)
  unfolding pay_points
  pay_points-Paid has_user sound new =
      let s = points_session u db in
      let row = found_points u.id db.users u has_user in
      elim (Bool-cases (ltb 0 (required_points r))) [
        | inl costs ↦
            rw (costs, pay_points)
              (Ensures-bind (λ (q : Ledger × Session). Debited now (required_points r) s q.0 q.1)
                (Paid now u r db)
                (debit_locked now now' now'' (pos (required_points r)) (exchange_posting r o) s)
                (λ q. ok (end_session q.1 db))
                (debit_locked-Debited now now' now'' (required_points r) (exchange_posting r o) s
                  sound new)
                (λ q d. (
                  q.1.user.points,
                  subst (λ m. points_of m (set_user q.1.user db.users) ≡ some q.1.user.points)
                      d.same_user
                      (set_user-points q.1.user db.users u.points
                        (ap (λ m. points_of m db.users) d.same_user ∙ row.1)),
                  omega (arith, d.paid, if_true {A = ℕ} (ltb 0 (required_points r)) 0 costs),
                )))
        | inr free ↦ rw (free, pay_points) (u.points, row.1, ground arith)
      ]

places_below :
    (id : ℕ) (x : Route) (rs : List Route) (n : ℤ)
    → places_of id rs ≡ some n
    → (m : ℤ) × (places_of id (x ∷ rs) ≡ some m)
places_below id x rs n at = elim (Bool-cases (x.id == id)) [
  | inl e ↦ (x.stock, rw e refl)
  | inr e ↦ (n, rw e at)
]

places_on_top : (x : Route) (rs : List Route) → places_of x.id (x ∷ rs) ≡ some x.stock
places_on_top x rs = ground arith

open_route-places :
    (route_id : ℕ) (rs : List Route) (r : Route)
    → find (open_route route_id) rs ≡ some r
    → (n : ℤ) × (places_of r.id rs ≡ some n)
open_route-places route_id [] r found = absurd (ground arith)
open_route-places route_id (x ∷ rs) r found = elim (Bool-cases (open_route route_id x)) [
  | inl e ↦
      let same : x ≡ r = ground arith in
      subst (λ (q : Route). (n : ℤ) × (places_of q.id (x ∷ rs) ≡ some n)) same
        (x.stock, places_on_top x rs)
  | inr e ↦
      let (n, at) = open_route-places route_id rs r (ground arith) in places_below r.id x rs n at
]

-- What an exchange has done when it returns its new order.
pub record Charged (now : ℕ) (key : Text) (u : User) (r : Route) (db : TravelDb)
    (x : TravelOrder × TravelDb) : Type 0 where
  pub placed : ltb_ℤ (pos 0) r.stock ≡ true
  pub paid : Paid now u r (numbered db.shared) x.1.shared
  pub place : places_of r.id x.1.routes ≡ some (r.stock -ℤ pos 1)
  pub cost : x.0.points_cost ≡ pos (required_points r)
  pub owner : exchanged_by u.id key x.0 ≡ true
  pub listed : find_travel x.0.id x.1.orders ≡ some x.0

-- A new order, or the one that a conflict found in the tables of then.
abbrev pub Answers :
    ℕ → Text → User → Route → (saved db : TravelDb) → TravelOrder × TravelDb → Type 0
Answers now key u r saved db x =
    Charged now key u r db x ⊎ ((x.1 ≡ saved) × (exchanged_by u.id key x.0 ≡ true))

module _ (now now' now'' : ℕ) (travel_date key : Text) (actor : Actor) (u : User) (r : Route)
    (db : TravelDb) where
  placed-Charged :
      (shared : Db) (n : ℤ)
      → ltb_ℤ (pos 0) r.stock ≡ true
      → u.id ≡ actor.id
      → places_of r.id db.routes ≡ some n
      → Paid now u r (numbered db.shared) shared
      → Charged now key u r db
          (place_order actor r (exchange_order actor travel_date key r db) db shared)
  placed-Charged shared n stocked same at paid = record {
    placed = stocked;
    paid = paid;
    place = set_route-places (record r { stock = r.stock -ℤ pos 1 }) db.routes n at;
    cost = refl;
    owner = exchanged_by_self key actor.id u.id same;
    listed = ground arith;
  }

  exchange_open-Charged :
      find_user u.id db.shared.users ≡ some u
      → u.id ≡ actor.id
      → IsSound (points_session u (numbered db.shared))
      → find_ledger u.id
          (exchange_posting r (exchange_order actor travel_date key r db)).idempotency_key
          db.shared.ledgers
        ≡ none
      → (n : ℤ) → places_of r.id db.routes ≡ some n
      → Ensures (Charged now key u r db) (exchange_open now now' now'' travel_date key actor u db r)
  unfolding exchange_open
  exchange_open-Charged has_user same sound new n at =
      let o = exchange_order actor travel_date key r db in
      let P = Charged now key u r db in
      if_cases (Ensures P) (not (ltb_ℤ (pos 0) r.stock)) (λ e. tt)
        (λ stocked.
          Ensures-bind (Paid now u r (numbered db.shared)) P
            (pay_points now now' now'' u r o (numbered db.shared))
            (λ shared. ok (place_order actor r o db shared))
            (pay_points-Paid now now' now'' u r o (numbered db.shared) has_user sound new)
            (λ shared paid. placed-Charged shared n (ground arith) same at paid))

after_conflict-Answers :
    (now : ℕ) (key : Text) (actor : Actor) (u : User) (r : Route) (saved db : TravelDb)
    (m : Result (TravelOrder × TravelDb))
    → u.id ≡ actor.id
    → Ensures (Charged now key u r db) m
    → Ensures (Answers now key u r saved db) (after_conflict actor key saved m)
after_conflict-Answers now key actor u r saved db (ok x) same h = inl h
after_conflict-Answers now key actor u r saved db (err e) same h =
    let P = Ensures (Answers now key u r saved db) in
    if_intro P (is_conflict e)
      (option_cases P (find (exchanged_by actor.id key) saved.orders) (λ missing. tt)
        (λ existing found. inr (
          refl,
          subst (λ i. exchanged_by i key existing ≡ true) (sym same)
              (passes_of_find (exchanged_by actor.id key) saved.orders existing found),
        )))
      tt

-- A call of exchange_travel_route for a route that is open, under a key that the user has not used, either
-- raises, or takes the points of the route (beside those that lapse) and one place of a route that has one,
-- and returns the new order, listed under the key with its cost; or, after a conflict, it returns an order
-- of the same user and key from the tables of then.
pub exchange_travel_route-Charges :
    (now now' now'' route_id : ℕ) (travel_date key : Text) (actor : Actor) (u : User) (r : Route)
    (saved db : TravelDb)
    → find (exchanged_by actor.id (strip key)) db.orders ≡ none
    → find_user actor.id db.shared.users ≡ some u
    → find (open_route route_id) db.routes ≡ some r
    → IsSound (points_session u (numbered db.shared))
    → find_ledger u.id
        (exchange_posting r (exchange_order actor travel_date (strip key) r db)).idempotency_key
        db.shared.ledgers
      ≡ none
    → Ensures
        (Answers now (strip key) u r saved db)
        (exchange_travel_route now now' now'' route_id travel_date key actor saved db)
unfolding exchange_travel_route exchange_new
exchange_travel_route-Charges now now' now'' route_id travel_date key actor u r saved db unused
      has_user has_route sound new =
    let same = (found_points actor.id db.shared.users u has_user).0 in
    let (n, at) = open_route-places route_id db.routes r has_route in
    rw (unused, has_user, has_route, exchange_travel_route, exchange_new)
      (after_conflict-Answers now (strip key) actor u r saved db
        (exchange_open now now' now'' travel_date (strip key) actor u db r) same
        (exchange_open-Charged now now' now'' travel_date (strip key) actor u r db
          (ap (λ i. find_user i db.shared.users) same ∙ has_user) same sound new n at))
