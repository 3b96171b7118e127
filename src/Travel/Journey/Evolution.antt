-- ===== src/Travel/Journey/Evolution.antt =====
-- Each call of app/api/travel_orders.py and app/api/admin.py on an order, as a change of the table of orders.
use python_server.Base.{
  ℕ, ◌≡◌, refl, sym, ap, subst, ◌∙◌, Bool, true, false, not, ◌||◌, some, arith, is_empty, List,
  Text, ltb, ◌==◌, if_intro, if_cases, option_intro, option_cases, Result, ok, err, Ensures, ◌>>=◌,
  Ensures-bind, Ensures-map, strip, returns_anything,
}
use python_server.Travel.Model.{
  Fulfillment, TravelOrder, Actor, TravelDb, set_travel, find_travel, find_route,
}
use python_server.Travel.Cancel.Once.{found_travel}
use python_server.Travel.Journey.{
  Desk, is_approved, normalize_fulfillment_status, owned_by, my_travel_order, issue_token,
}
use python_server.Travel.Journey.Traveller.{
  SignPayload, PickupPayload, may_sign, may_submit, is_pickup_confirmed, on_route, dashed, max_date,
  signed_order, sign_order, submit_order, confirmed_order, confirm_order, commit_signed,
  commit_confirmed,
}
use python_server.Travel.Journey.Office.{
  SchedulePayload, in_review, past_schedule, may_check_in, expired_by, travel_order, review_order,
  schedule_order, issue_code, commit_issued,
}
use python_server.Travel.Journey.Trip.{
  may_start, is_completed, start_found, complete_found, exception_found,
}
use python_server.Travel.Journey.Calls.{committed}
use python_server.Travel.Journey.Stages.{Kind, stage, InOrder, Moves, Evolves}
use python_server.Travel.Journey.Moves.{
  Moves-after, Moves-before, normalize-Moves, signed-Moves, submitted-Moves, approved-Moves,
  rejected-Moves, scheduled-Moves, started-Moves, exception-Moves, confirmed-Moves, issued-Moves,
  qr_issued-Moves, completed-Moves,
}

-- A call that commits one order.
pub record Writes (k : Kind) (db : TravelDb) (o : TravelOrder) (r : TravelOrder × TravelDb)
    : Type 0 where
  pub table : r.1.orders ≡ set_travel r.0 db.orders
  pub row : r.0.id ≡ o.id
  pub step : Moves k o r.0

pub found_again :
    (id : ℕ) (os : List TravelOrder) (o : TravelOrder)
    → find_travel id os ≡ some o
    → find_travel o.id os ≡ some o
found_again id os o found = ap (λ n. find_travel n os) (found_travel id os o found) ∙ found

pub written-Evolves :
    {k : Kind} (db : TravelDb) (id : ℕ) (o : TravelOrder) (m : Result (TravelOrder × TravelDb))
    → find_travel id db.orders ≡ some o
    → Ensures (Writes k db o) m
    → Evolves k db.orders (committed db m).orders
written-Evolves db id o (err e) found w = Evolves.same
written-Evolves {k} db id o (ok r) found w =
    let at : find_travel r.0.id db.orders ≡ some o =
      ap (λ n. find_travel n db.orders) w.row ∙ found_again id db.orders o found in
    subst (Evolves k db.orders) (sym w.table) (Evolves.moved at w.step)

normalized-Writes :
    {k : Kind} (db : TravelDb) (o : TravelOrder) (r : TravelOrder × TravelDb)
    → Writes k db (normalize_fulfillment_status o) r
    → Writes k db o r
normalized-Writes db o r w = record {
  table = w.table;
  row = w.row ∙ same_id;
  step = normalize-Moves o r.0 w.step;
}
  where
    same_id : (normalize_fulfillment_status o).id ≡ o.id
    same_id = ground arith

module _ (db : TravelDb) (f : TravelOrder → Result (TravelOrder × TravelDb)) where
  -- A call of the traveller, and one of an administrator, on the order that it finds.
  pub mine-Evolves :
      {k : Kind} (id : ℕ) (actor : Actor)
      → ((o : TravelOrder) → Ensures (Writes k db o) (f o))
      → Evolves k db.orders (committed db (my_travel_order id actor db >>= f)).orders
  mine-Evolves {k} id actor w =
      let P = λ (m : Result TravelOrder). Evolves k db.orders (committed db (m >>= f)).orders in
      option_cases P (find_travel id db.orders) (λ missing. Evolves.same)
        (λ o found.
          if_intro P (owned_by o actor)
            (written-Evolves db id o (f (normalize_fulfillment_status o)) found (
              Ensures-map (Writes k db (normalize_fulfillment_status o)) (Writes k db o)
                (f (normalize_fulfillment_status o)) (normalized-Writes db o)
                (w (normalize_fulfillment_status o))))
            Evolves.same)

  pub any-Evolves :
      {k : Kind} (id : ℕ)
      → ((o : TravelOrder) → Ensures (Writes k db o) (f o))
      → Evolves k db.orders (committed db (travel_order id db >>= f)).orders
  any-Evolves {k} id w =
      option_cases (λ (m : Result TravelOrder). Evolves k db.orders (committed db (m >>= f)).orders)
        (find_travel id db.orders) (λ missing. Evolves.same)
        (λ o found. written-Evolves db id o (f o) found (w o))

-- The same order, but for columns that no status depends on.
abbrev pub Alike : TravelOrder → TravelOrder → Type 0
Alike o p = (stage p ≡ stage o) × ((p.id ≡ o.id) × (InOrder o → InOrder p))

module _ (db : TravelDb) (o : TravelOrder) where
  -- The route's name changes neither the order's statuses nor its key.
  on_route_same : Alike o (on_route db o)
  on_route_same =
      let P = Alike o in
      let unchanged : Alike o o = (refl, (refl, λ h. h)) in
      if_intro P (o.route_id == 0) unchanged (
        option_intro P (find_route o.route_id db.routes) unchanged
          (λ r found. (refl, (refl, λ h. h))))

  commit_signed-Writes :
      (desk : Desk) (p : SignPayload) (actor : Actor) (url : Text)
      → is_approved o.contract.status ≡ false
      → may_sign o.fulfillment_status ≡ true
      → Writes Kind.signing db o (commit_signed desk p actor o db url)
  commit_signed-Writes desk p actor url fresh may =
      let (statuses, (row, move)) = on_route_same in
      let o' = on_route db o in
      record {
        table = refl;
        row = row;
        step = Moves-after o o' (signed_order desk p actor url o') statuses move (
            signed-Moves o' desk p actor url (ap (λ s. is_approved s.0) statuses ∙ fresh)
              (ap (λ s. may_sign s.1) statuses ∙ may));
      }

  pub sign_order-Writes :
      (desk : Desk) (p : SignPayload) (actor : Actor)
      → Ensures (Writes Kind.signing db o) (sign_order desk p actor db o)
  sign_order-Writes desk p actor =
      let P = Ensures (Writes Kind.signing db o) in
      if_cases P (is_approved o.contract.status) (λ e. tt)
        (λ fresh.
          if_cases P (not (may_sign o.fulfillment_status)) (λ e. tt)
            (λ may. option_intro P (desk.iso_date (dashed (strip p.travel_date))) tt (λ selected e.
              if_intro P (ltb selected desk.today || ltb (max_date desk) selected) tt (
                Ensures-bind (λ _. Unit {0}) (Writes Kind.signing db o)
                  (desk.save_signature p.signature_data o.order_no actor.id)
                  (λ url. ok (commit_signed desk p actor o db url))
                  (returns_anything (desk.save_signature p.signature_data o.order_no actor.id))
                  (λ url t. commit_signed-Writes desk p actor url fresh (ground arith))))))

  pub submit_order-Writes :
      (p : PickupPayload) (actor : Actor)
      → Ensures (Writes Kind.submitting db o) (submit_order p actor db o)
  submit_order-Writes p actor =
      let P = Ensures (Writes Kind.submitting db o) in
      if_cases P (not (is_approved o.contract.status)) (λ e. tt)
        (λ a.
          if_cases P (not (may_submit o.fulfillment_status)) (λ e. tt)
            (λ b. record {
              table = refl;
              row = refl;
              step = submitted-Moves o p (ground arith) (ground arith);
            }))

  pub confirm_order-Writes :
      (desk : Desk) (actor : Actor)
      → Ensures (Writes Kind.confirming db o) (confirm_order desk actor db o)
  confirm_order-Writes desk actor =
      let P = Ensures (Writes Kind.confirming db o) in
      if_cases P (not (is_approved o.contract.status)) (λ e. tt)
        (λ a.
          if_cases P (not (is_pickup_confirmed o.fulfillment_status)) (λ e. tt)
            (λ b.
              let o' = confirmed_order desk o in
              let moved = confirmed-Moves o desk (ground arith) (ground arith) in
              if_intro
                (λ x. Writes Kind.confirming db o (commit_confirmed o.fulfillment_status actor x))
                (is_empty o'.qr_token)
                (record {
                  table = refl;
                  row = refl;
                  step =
                      Moves-before o o' (issue_token desk actor o' db).0 moved refl
                        (issued-Moves o' desk actor db refl);
                })
                (record { table = refl; row = refl; step = moved })))

  pub review_order-Writes :
      (desk : Desk) (approved : Bool) (reason : Text) (actor : Actor)
      → Ensures (Writes Kind.reviewing db o) (review_order desk approved reason actor db o)
  review_order-Writes desk approved reason actor =
      let P = Ensures (Writes Kind.reviewing db o) in
      if_cases P (not (in_review o.contract.status)) (λ e. tt)
        (λ a.
          if_intro P approved
            (record { table = refl; row = refl; step = approved-Moves o desk (ground arith) })
            (if_intro P (is_empty (strip reason)) tt (record {
              table = refl;
              row = refl;
              step = rejected-Moves o desk (strip reason) (ground arith);
            })))

  pub schedule_order-Writes :
      (p : SchedulePayload) (actor : Actor)
      → Ensures (Writes Kind.scheduling db o) (schedule_order p actor db o)
  schedule_order-Writes p actor =
      let P = Ensures (Writes Kind.scheduling db o) in
      if_cases P (not (is_approved o.contract.status)) (λ e. tt)
        (λ a. if_intro P (is_empty o.pickup.address) tt (
          if_cases P (past_schedule o.fulfillment_status) (λ e. tt)
            (λ b. record {
              table = refl;
              row = refl;
              step = scheduled-Moves o p (ground arith) b;
            })))

  pub start_found-Writes :
      (actor : Actor) → Ensures (Writes Kind.starting db o) (start_found actor db o)
  start_found-Writes actor =
      if_cases (Ensures (Writes Kind.starting db o)) (not (may_start o.fulfillment_status))
        (λ e. tt) (λ a. record { table = refl; row = refl; step = started-Moves o (ground arith) })

  pub complete_found-Writes :
      (desk : Desk) (actor : Actor)
      → Ensures (Writes Kind.completing db o) (complete_found desk actor db o)
  complete_found-Writes desk actor =
      if_cases (Ensures (Writes Kind.completing db o))
        (not (may_start o.fulfillment_status || is_completed o.fulfillment_status)) (λ e. tt)
        (λ a. record { table = refl; row = refl; step = completed-Moves o desk (ground arith) })

  pub exception_found-Writes :
      (reason : Text) (actor : Actor)
      → Ensures (Writes Kind.failing db o) (exception_found reason actor db o)
  exception_found-Writes reason actor =
      if_cases (Ensures (Writes Kind.failing db o)) (is_completed o.fulfillment_status) (λ e. tt)
        (λ a. record { table = refl; row = refl; step = exception-Moves o reason a })

  pub issue_code-Writes :
      (desk : Desk) (actor : Actor)
      → Ensures (Writes Kind.issuing db o) (issue_code desk actor db o)
  issue_code-Writes desk actor =
      if_cases (Ensures (Writes Kind.issuing db o)) (not (may_check_in o.fulfillment_status))
        (λ e. tt)
        (λ a.
          let may : may_check_in o.fulfillment_status ≡ true = ground arith in
          let o' = (issue_token desk actor o db).0 in
          if_intro (λ x. Writes Kind.issuing db o (commit_issued actor x))
            (is_empty o.qr_token || expired_by desk.now true o.qr_expires_at)
            (record {
              table = refl;
              row = refl;
              step =
                  Moves-after o o' (record o' { fulfillment_status = Fulfillment.qr_issued }) refl
                    (issued-Moves o desk actor db may) (qr_issued-Moves o' may);
            })
            (record { table = refl; row = refl; step = qr_issued-Moves o may }))
