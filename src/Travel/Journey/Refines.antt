-- ===== src/Travel/Journey/Refines.antt =====
-- The calls against the diagram: every call changes the table of orders by a move along it, or opens an order.
use python_server.Base.{
  ℕ, ◌≡◌, refl, ap, ◌∙◌, Bool, true, false, not, ◌&&◌, ◌||◌, some, arith, is_empty, List, Text,
  text_eq, ◌==◌, if_intro, if_cases, option_intro, find, Result, ok, err, Ensures, Ensures-bind,
  strip, returns_anything,
}
use python_server.Base.Int.{pos, ltb_ℤ}
use python_server.Points.Model.{User}
use python_server.Orders.Model.{Db, find_user, end_session}
use python_server.Travel.Model.{Fulfillment, TravelOrder, Route, Actor, TravelDb, find_travel}
use python_server.Travel.Cancel.{
  user_cancellable, non_cancellable, is_cancelled, owes_points, owes_place, refund_points,
  return_points, return_place, close_order, cancel_found, cancel_travel_order, cancelled_order,
}
use python_server.Travel.Journey.{Desk}
use python_server.Travel.Journey.Traveller.{
  sign_travel_contract, submit_travel_pickup_info, confirm_travel_pickup, sign_order, submit_order,
  confirm_order,
}
use python_server.Travel.Journey.Office.{
  may_check_in, expired_by, review_order_contract, schedule_order_pickup, issue_order_qr,
  review_order, schedule_order, issue_code,
}
use python_server.Travel.Journey.Trip.{
  Scan, check_in_found, check_in_order, start_order_trip, complete_order, mark_order_exception,
  start_found, complete_found, exception_found,
}
use python_server.Travel.Journey.Exchange.{
  exchanged_by, open_route, exchange_order, numbered, pay_points, place_order, exchange_open,
  is_conflict, after_conflict, exchange_new, exchange_travel_route,
}
use python_server.Travel.Journey.Calls.{Call, committed, run_call}
use python_server.Travel.Journey.Stages.{Kind, Evolves}
use python_server.Travel.Journey.Moves.{
  Moves-after, checked_in-Moves, withdrawn-Moves, cancelled-Moves,
}
use python_server.Travel.Journey.Evolution.{
  Writes, Alike, found_again, written-Evolves, mine-Evolves, any-Evolves, sign_order-Writes,
  submit_order-Writes, confirm_order-Writes, review_order-Writes, schedule_order-Writes,
  issue_code-Writes, start_found-Writes, complete_found-Writes, exception_found-Writes,
}

module _ (o : TravelOrder) where
  return_points-Alike :
      (now : ℕ) (saved shared : Db) → Ensures (λ r. Alike o r.0) (return_points now o saved shared)
  unfolding return_points
  return_points-Alike now saved shared =
      let P = Ensures (λ (r : TravelOrder × Db). Alike o r.0) in
      if_intro P (owes_points o)
        (option_intro P (find_user o.user_id shared.users) tt (λ u found.
          Ensures-bind (λ _. Unit {0}) (λ r. Alike o r.0) (refund_points now o u saved shared)
            (λ r. ok (record o { points_refunded = true }, end_session r.1 shared))
            (returns_anything (refund_points now o u saved shared))
            (λ r t. (refl, (refl, λ h. h)))))
        (refl, (refl, λ h. h))

  return_place-Alike : (routes : List Route) → Alike o (return_place o routes).0
  unfolding return_place
  return_place-Alike routes =
      if_intro (λ (r : TravelOrder × List Route). Alike o r.0) (owes_place o) (refl, (refl, λ h. h))
        (refl, (refl, λ h. h))

module _ (db : TravelDb) (o : TravelOrder) where
  check_in_found-Evolves :
      (desk : Desk) (scan : Scan) (actor : Actor)
      → find_travel o.id db.orders ≡ some o
      → Evolves Kind.checking_in db.orders (check_in_found desk scan actor db o).0.orders
  check_in_found-Evolves desk scan actor found =
      let P =
        λ (r : TravelDb × Result TravelOrder). Evolves Kind.checking_in db.orders r.0.orders in
      if_cases P (not (may_check_in o.fulfillment_status)) (λ e. Evolves.same)
        (λ may.
          if_intro P (expired_by desk.now false o.qr_expires_at)
            (Evolves.moved found (withdrawn-Moves o))
            (if_intro P (is_empty o.qr_token || not (text_eq scan.token o.qr_token)) Evolves.same
              (Evolves.moved found (checked_in-Moves o desk (ground arith)))))

  close_order-Writes :
      (now : ℕ) (actor : Actor) (reason : Text) (previous : Fulfillment) (r : TravelOrder × Db)
      → non_cancellable o.fulfillment_status ≡ false
      → Alike o r.0
      → Writes Kind.cancelling db o (close_order now actor reason previous db r)
  unfolding close_order
  close_order-Writes now actor reason previous r may (statuses, (row, move)) =
      let p = (return_place r.0 db.routes).0 in
      let (statuses', (row', move')) = return_place-Alike r.0 db.routes in
      let may' : non_cancellable p.fulfillment_status ≡ false =
        ap (λ s. non_cancellable s.1) (statuses' ∙ statuses) ∙ may in
      record {
        table = refl;
        row = row' ∙ row;
        step = Moves-after o r.0 (cancelled_order now reason p) statuses move (
            Moves-after r.0 p (cancelled_order now reason p) statuses' move'
              (cancelled-Moves p now reason may'));
      }

  cancel_found-Evolves :
      (now : ℕ) (actor : Actor) (reason : Text) (admin_override : Bool) (saved : TravelDb) (id : ℕ)
      → find_travel id db.orders ≡ some o
      → Evolves Kind.cancelling db.orders
          (committed db (cancel_found now actor reason admin_override o saved db)).orders
  unfolding cancel_found
  cancel_found-Evolves now actor reason admin_override saved id found =
      let P = λ (m : Result (TravelOrder × TravelDb)).
        Evolves Kind.cancelling db.orders (committed db m).orders in
      if_intro P (not admin_override && not (o.user_id == actor.id)) Evolves.same (
        if_intro P (is_cancelled o.fulfillment_status) Evolves.same (
          if_cases P (non_cancellable o.fulfillment_status) (λ e. Evolves.same)
            (λ may.
              if_intro P (not admin_override && not (user_cancellable o.fulfillment_status))
                Evolves.same
                (written-Evolves db id o _ found (
                  Ensures-bind (λ r. Alike o r.0) (Writes Kind.cancelling db o)
                    (return_points now o saved.shared db.shared)
                    (λ r. ok (close_order now actor reason o.fulfillment_status db r))
                    (return_points-Alike o now saved.shared db.shared)
                    (λ r alike.
                      close_order-Writes now actor reason o.fulfillment_status r may alike))))))

module _ (key : Text) (actor : Actor) (db : TravelDb) where
  after_conflict-Evolves :
      (m : Result (TravelOrder × TravelDb))
      → Ensures (λ r. Evolves Kind.exchanging db.orders r.1.orders) m
      → Evolves Kind.exchanging db.orders (committed db (after_conflict actor key db m)).orders
  after_conflict-Evolves (ok r) h = h
  after_conflict-Evolves (err e) h =
      let P = λ (m : Result (TravelOrder × TravelDb)).
        Evolves Kind.exchanging db.orders (committed db m).orders in
      if_intro P (is_conflict e)
        (option_intro P (find (exchanged_by actor.id key) db.orders) Evolves.same
          (λ existing found. Evolves.same))
        Evolves.same

  exchange_open-Evolves :
      (now now' now'' : ℕ) (travel_date : Text) (u : User) (r : Route)
      → Ensures
          (λ x. Evolves Kind.exchanging db.orders x.1.orders)
          (exchange_open now now' now'' travel_date key actor u db r)
  unfolding exchange_open
  exchange_open-Evolves now now' now'' travel_date u r =
      let P = λ (x : TravelOrder × TravelDb). Evolves Kind.exchanging db.orders x.1.orders in
      let o = exchange_order actor travel_date key r db in
      if_intro (Ensures P) (not (ltb_ℤ (pos 0) r.stock)) tt (
        Ensures-bind (λ _. Unit {0}) P (pay_points now now' now'' u r o (numbered db.shared))
          (λ shared. ok (place_order actor r o db shared))
          (returns_anything (pay_points now now' now'' u r o (numbered db.shared)))
          (λ shared t. Evolves.opened refl refl (ground arith)))

exchange-Evolves :
    (now now' now'' route_id : ℕ) (travel_date key : Text) (actor : Actor) (db : TravelDb)
    → Evolves Kind.exchanging db.orders
        (committed db
          (exchange_travel_route now now' now'' route_id travel_date key actor db db)).orders
unfolding exchange_travel_route exchange_new
exchange-Evolves now now' now'' route_id travel_date key actor db =
    let P = λ (m : Result (TravelOrder × TravelDb)).
      Evolves Kind.exchanging db.orders (committed db m).orders in
    option_intro P (find (exchanged_by actor.id (strip key)) db.orders)
      (option_intro P (find_user actor.id db.shared.users) Evolves.same (λ u has_user.
        option_intro P (find (open_route route_id) db.routes) Evolves.same (λ r has_route.
          after_conflict-Evolves (strip key) actor db
            (exchange_open now now' now'' travel_date (strip key) actor u db r)
            (exchange_open-Evolves (strip key) actor db now now' now'' travel_date u r))))
      (λ existing found. Evolves.same)

check_in-Evolves :
    (desk : Desk) (id : ℕ) (scan : Scan) (actor : Actor) (db : TravelDb)
    → Evolves Kind.checking_in db.orders (check_in_order desk id scan actor db).0.orders
unfolding check_in_order
check_in-Evolves desk id scan actor db =
    option_intro
      (λ (r : TravelDb × Result TravelOrder). Evolves Kind.checking_in db.orders r.0.orders)
      (find_travel id db.orders) Evolves.same
      (λ o found. check_in_found-Evolves db o desk scan actor (found_again id db.orders o found))

cancel-Evolves :
    (now id : ℕ) (actor : Actor) (reason : Text) (admin_override : Bool) (saved db : TravelDb)
    → Evolves Kind.cancelling db.orders
        (committed db (cancel_travel_order now id actor reason admin_override saved db)).orders
unfolding cancel_travel_order
cancel-Evolves now id actor reason admin_override saved db =
    option_intro
      (λ (m : Result (TravelOrder × TravelDb)).
        Evolves Kind.cancelling db.orders (committed db m).orders)
      (find_travel id db.orders) Evolves.same
      (λ o found. cancel_found-Evolves db o now actor reason admin_override saved id found)

abbrev pub kind : Call → Kind
kind (Call.exchange now now' now'' route_id travel_date key actor) = Kind.exchanging
kind (Call.sign desk id p actor) = Kind.signing
kind (Call.submit id p actor) = Kind.submitting
kind (Call.confirm desk id actor) = Kind.confirming
kind (Call.cancel now id actor reason admin_override) = Kind.cancelling
kind (Call.review desk id approved reason actor) = Kind.reviewing
kind (Call.schedule id p actor) = Kind.scheduling
kind (Call.issue desk id actor) = Kind.issuing
kind (Call.check_in desk id scan actor) = Kind.checking_in
kind (Call.start id actor) = Kind.starting
kind (Call.complete desk id actor) = Kind.completing
kind (Call.mark_exception id reason actor) = Kind.failing

-- Every call on a travel order, by the traveller or an administrator, leaves the table of orders as it was, changes one
-- order, or, where it is an exchange, opens one at the start. An order that is changed keeps its statuses, or takes one
-- edge of that call in the diagram of its contract's and its own status, after at most the edge by which an approved
-- contract carries over.
pub run_call-Evolves :
    (c : Call) (db : TravelDb) → Evolves (kind c) db.orders (run_call c db).orders
unfolding run_call sign_travel_contract submit_travel_pickup_info confirm_travel_pickup
    review_order_contract schedule_order_pickup issue_order_qr start_order_trip complete_order
    mark_order_exception
run_call-Evolves (Call.exchange now now' now'' route_id travel_date key actor) db =
    exchange-Evolves now now' now'' route_id travel_date key actor db
run_call-Evolves (Call.sign desk id p actor) db =
    mine-Evolves db (sign_order desk p actor db) id actor (λ o. sign_order-Writes db o desk p actor)
run_call-Evolves (Call.submit id p actor) db =
    mine-Evolves db (submit_order p actor db) id actor (λ o. submit_order-Writes db o p actor)
run_call-Evolves (Call.confirm desk id actor) db =
    mine-Evolves db (confirm_order desk actor db) id actor
      (λ o. confirm_order-Writes db o desk actor)
run_call-Evolves (Call.cancel now id actor reason admin_override) db =
    cancel-Evolves now id actor reason admin_override db db
run_call-Evolves (Call.review desk id approved reason actor) db =
    any-Evolves db (review_order desk approved reason actor db) id
      (λ o. review_order-Writes db o desk approved reason actor)
run_call-Evolves (Call.schedule id p actor) db =
    any-Evolves db (schedule_order p actor db) id (λ o. schedule_order-Writes db o p actor)
run_call-Evolves (Call.issue desk id actor) db =
    any-Evolves db (issue_code desk actor db) id (λ o. issue_code-Writes db o desk actor)
run_call-Evolves (Call.check_in desk id scan actor) db = check_in-Evolves desk id scan actor db
run_call-Evolves (Call.start id actor) db =
    any-Evolves db (start_found actor db) id (λ o. start_found-Writes db o actor)
run_call-Evolves (Call.complete desk id actor) db =
    any-Evolves db (complete_found desk actor db) id (λ o. complete_found-Writes db o desk actor)
run_call-Evolves (Call.mark_exception id reason actor) db =
    any-Evolves db (exception_found reason actor db) id
      (λ o. exception_found-Writes db o reason actor)
