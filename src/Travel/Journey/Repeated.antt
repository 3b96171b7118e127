-- ===== src/Travel/Journey/Repeated.antt =====
-- An exchange under a key that was used: the same order, and nothing else.
use python_server.Base.{
  ℕ, ◌≡◌, refl, not, Option, some, Text, if_intro, option_intro, option_cases, find, strip, Result,
  ok, err, Ensures, Ensures-bind, Ensures-map, returns_anything, if_true,
}
use python_server.Base.Int.{pos, ltb_ℤ}
use python_server.Points.Model.{User}
use python_server.Orders.Model.{find_user}
use python_server.Travel.Model.{TravelOrder, Route, Actor, TravelDb}
use python_server.Travel.Journey.Exchange.{
  exchanged_by, open_route, exchange_order, numbered, pay_points, place_order, exchange_open,
  is_conflict, after_conflict, exchange_new, exchange_travel_route,
}
use python_server.Travel.Journey.Charged.{exchanged_by_self}

-- The order returned is the one that its key finds.
abbrev Keyed : Actor → Text → TravelOrder × TravelDb → Type 0
Keyed actor key x = find (exchanged_by actor.id key) x.1.orders ≡ some x.0

exchange_open-Keyed :
    (now now' now'' : ℕ) (travel_date key : Text) (actor : Actor) (u : User) (r : Route)
    (db : TravelDb)
    → Ensures (Keyed actor key) (exchange_open now now' now'' travel_date key actor u db r)
unfolding exchange_open
exchange_open-Keyed now now' now'' travel_date key actor u r db =
    let o = exchange_order actor travel_date key r db in
    if_intro (Ensures (Keyed actor key)) (not (ltb_ℤ (pos 0) r.stock)) tt (
      Ensures-bind (λ _. Unit {0}) (Keyed actor key)
        (pay_points now now' now'' u r o (numbered db.shared))
        (λ shared. ok (place_order actor r o db shared))
        (returns_anything (pay_points now now' now'' u r o (numbered db.shared)))
        (λ shared t.
          if_true {A = Option TravelOrder} (exchanged_by actor.id key o)
            (find (exchanged_by actor.id key) db.orders)
            (exchanged_by_self key actor.id actor.id refl)))

after_conflict-Keyed :
    (key : Text) (actor : Actor) (saved : TravelDb) (m : Result (TravelOrder × TravelDb))
    → Ensures (Keyed actor key) m
    → Ensures (Keyed actor key) (after_conflict actor key saved m)
after_conflict-Keyed key actor saved (ok x) h = h
after_conflict-Keyed key actor saved (err e) h =
    let P = Ensures (Keyed actor key) in
    if_intro P (is_conflict e)
      (option_cases P (find (exchanged_by actor.id key) saved.orders) (λ missing. tt)
        (λ existing found. found))
      tt

exchange_travel_route-Keyed :
    (now now' now'' route_id : ℕ) (travel_date key : Text) (actor : Actor) (saved db : TravelDb)
    → Ensures
        (Keyed actor (strip key))
        (exchange_travel_route now now' now'' route_id travel_date key actor saved db)
unfolding exchange_travel_route exchange_new
exchange_travel_route-Keyed now now' now'' route_id travel_date key actor saved db =
    let P = Ensures (Keyed actor (strip key)) in
    option_intro P (find (exchanged_by actor.id (strip key)) db.orders)
      (option_intro P (find_user actor.id db.shared.users) tt (λ u has_user.
        option_intro P (find (open_route route_id) db.routes) tt (λ r has_route.
          after_conflict-Keyed (strip key) actor saved
            (exchange_open now now' now'' travel_date (strip key) actor u db r)
            (exchange_open-Keyed now now' now'' travel_date (strip key) actor u r db))))
      (λ existing found. found)

repeated :
    (now now' now'' route_id : ℕ) (travel_date key : Text) (actor : Actor) (saved : TravelDb)
    (x : TravelOrder × TravelDb)
    → Keyed actor (strip key) x
    → exchange_travel_route now now' now'' route_id travel_date key actor saved x.1 ≡ ok x
unfolding exchange_travel_route
repeated now now' now'' route_id travel_date key actor saved x keyed =
    rw (keyed, exchange_travel_route) refl

-- Once an exchange has returned an order, a call of the same user under the same key returns that order and
-- changes nothing, whatever route and date it names.
pub exchange_travel_route-Repeats :
    (now now' now'' later later' later'' route_id route_id' : ℕ)
    (travel_date travel_date' key : Text) (actor : Actor) (saved saved' db : TravelDb)
    → Ensures
        (λ x.
          exchange_travel_route later later' later'' route_id' travel_date' key actor saved' x.1
          ≡ ok x)
        (exchange_travel_route now now' now'' route_id travel_date key actor saved db)
exchange_travel_route-Repeats now now' now'' later later' later'' route_id route_id' travel_date
      travel_date' key actor saved saved' db =
    Ensures-map (Keyed actor (strip key)) _
      (exchange_travel_route now now' now'' route_id travel_date key actor saved db)
      (repeated later later' later'' route_id' travel_date' key actor saved')
      (exchange_travel_route-Keyed now now' now'' route_id travel_date key actor saved db)
