-- ===== src/Travel/Cancel/Returned.antt =====
-- What a cancellation gives back: the points of the order, and its place.
use python_server.Base.{
  ℕ, ◌+◌, ◌≤◌, ◌≡◌, refl, sym, ap, subst, ◌∙◌, Bool, true, false, not, ◌&&◌, Option, none, some,
  List, [], ◌∷◌, Text, arith, ◌==◌, if◌then◌else◌, if_intro, if_cases, option_intro, length,
  Bool-cases, inl, inr, ok, Ensures, Ensures-bind, both, returns_anything,
}
use python_server.Base.Int.{ℤ, pos, ◌+ℤ◌}
use python_server.Points.Model.{User}
use python_server.Orders.Model.{Db, find_user, end_session}
use python_server.Travel.Model.{
  Fulfillment, TravelStatus, TravelOrder, Route, Actor, TravelDb, find_travel, find_route,
  set_route,
}
use python_server.Travel.Cancel.{
  user_cancellable, non_cancellable, is_cancelled, owes_points, owes_place, refund_points,
  return_points, return_place, cancelled_order, close_order, cancel_found, cancel_travel_order,
}
use python_server.Travel.Cancel.Once.{found_travel, set_travel-found}
use python_server.Travel.Cancel.Points.{points_of, refund_key, owed, Pays, return_points-Pays}

abbrev pub places_of : ℕ → List Route → Option ℤ
places_of id [] = none
places_of id (r ∷ rs) = if r.id == id then some r.stock else places_of id rs

found_places :
    (id : ℕ) (rs : List Route) (r : Route)
    → find_route id rs ≡ some r
    → (r.id ≡ id) × (places_of id rs ≡ some r.stock)
found_places id [] r h = grind arith
found_places id (x ∷ rs) r h = ground (arith, found_places id rs r)

pub set_route-places :
    (new : Route) (rs : List Route) (n : ℤ)
    → places_of new.id rs ≡ some n
    → places_of new.id (set_route new rs) ≡ some new.stock
set_route-places new [] n h = grind arith
set_route-places new (r ∷ rs) n h = ground (arith, set_route-places new rs n)

-- The order's place is back on its route, if it was still out.
abbrev pub place_back : TravelOrder → ℤ → ℤ
place_back o v = if owes_place o then v +ℤ pos 1 else v

return_place-places :
    (o : TravelOrder) (routes : List Route) (r : Route)
    → find_route o.route_id routes ≡ some r
    → places_of o.route_id (return_place o routes).1 ≡ some (place_back o r.stock)
unfolding return_place
return_place-places o routes r found =
    let row = found_places o.route_id routes r found in
    let new = record r { stock = r.stock +ℤ pos 1 } in
    elim (Bool-cases (owes_place o)) [
      | inl owes ↦
          rw (owes, found, return_place)
            (subst (λ m. places_of m (set_route new routes) ≡ some new.stock) row.0
              (set_route-places new routes r.stock (ap (λ m. places_of m routes) row.0 ∙ row.1)))
      | inr settled ↦ rw (settled, return_place) row.1
    ]

abbrev SamePlace : TravelOrder → TravelOrder × Db → Type 0
SamePlace o r =
    (r.0.route_id ≡ o.route_id) × (r.0.stock_restored ≡ o.stock_restored) × (r.0.id ≡ o.id)

return_points-SamePlace :
    (now : ℕ) (o : TravelOrder) (saved db : Db)
    → Ensures (SamePlace o) (return_points now o saved db)
unfolding return_points
return_points-SamePlace now o saved db =
    let P = SamePlace o in
    if_intro (Ensures P) (owes_points o)
      (option_intro (Ensures P) (find_user o.user_id db.users) tt (λ u found.
        Ensures-bind (λ _. Unit {0}) P (refund_points now o u saved db)
          (λ r. ok (record o { points_refunded = true }, end_session r.1 db))
          (returns_anything (refund_points now o u saved db)) (λ r _. (refl, refl, refl))))
      (refl, refl, refl)

return_place_id : (o : TravelOrder) (routes : List Route) → (return_place o routes).0.id ≡ o.id
unfolding return_place
return_place_id o routes =
    if_intro (λ (x : TravelOrder × List Route). x.0.id ≡ o.id) (owes_place o) refl refl

-- What a cancellation has done for the order, its user and its route, as they were before.
abbrev pub GivesBack : TravelOrder → User → Route → TravelDb → TravelOrder × TravelDb → Type 0
GivesBack o u route db x =
    (points_of o.user_id x.1.shared.users ≡ some (u.points + owed o u db.shared))
    × (places_of o.route_id x.1.routes ≡ some (place_back o route.stock))
    × (find_travel o.id x.1.orders ≡ some x.0)
    × (x.0.fulfillment_status ≡ Fulfillment.cancelled)
    × (x.0.status ≡ TravelStatus.cancelled)

place_back_same :
    (o o' : TravelOrder) (v : ℤ)
    → o.route_id ≡ o'.route_id
    → o.stock_restored ≡ o'.stock_restored
    → place_back o v ≡ place_back o' v
place_back_same o o' v e f =
    ap (λ n. if not (n == 0) && not o.stock_restored then v +ℤ pos 1 else v) e
    ∙ ap (λ b. if not (o'.route_id == 0) && not b then v +ℤ pos 1 else v) f

close_order-GivesBack :
    (now : ℕ) (actor : Actor) (reason : Text) (previous : Fulfillment) (o : TravelOrder) (u : User)
    (route : Route) (db : TravelDb) (r : TravelOrder × Db)
    → find_travel o.id db.orders ≡ some o
    → find_route o.route_id db.routes ≡ some route
    → Pays o u db.shared r
    → SamePlace o r
    → GivesBack o u route db (close_order now actor reason previous db r)
unfolding close_order
close_order-GivesBack now actor reason previous o u route db r row found paid same = (
  paid,
  ap (λ n. places_of n (return_place r.0 db.routes).1) (sym same.0)
      ∙ return_place-places r.0 db.routes route (ap (λ n. find_route n db.routes) same.0 ∙ found)
      ∙ ap some (place_back_same r.0 o route.stock same.0 same.1),
  set_travel-found o.id (cancelled_order now reason (return_place r.0 db.routes).0) db.orders o
      (return_place_id r.0 db.routes ∙ same.2) row,
  refl,
  refl,
)

cancel_found-GivesBack :
    (now : ℕ) (actor : Actor) (reason : Text) (admin_override : Bool) (o : TravelOrder) (u : User)
    (route : Route) (saved db : TravelDb)
    → find_travel o.id db.orders ≡ some o
    → is_cancelled o.fulfillment_status ≡ false
    → find_user o.user_id db.shared.users ≡ some u
    → find_route o.route_id db.routes ≡ some route
    → length (refund_key o) ≤ 160
    → Ensures (GivesBack o u route db) (cancel_found now actor reason admin_override o saved db)
unfolding cancel_found
cancel_found-GivesBack now actor reason admin_override o u route saved db row fresh has_user
      has_route short =
    let P = Ensures (GivesBack o u route db) in
    if_intro P (not admin_override && not (o.user_id == actor.id)) tt (
      if_cases P (is_cancelled o.fulfillment_status) (λ e. absurd (ground arith))
        (λ e. if_intro P (non_cancellable o.fulfillment_status) tt (
          if_intro P (not admin_override && not (user_cancellable o.fulfillment_status)) tt (
            Ensures-bind (λ r. Pays o u db.shared r × SamePlace o r) (GivesBack o u route db)
              (return_points now o saved.shared db.shared)
              (λ r. ok (close_order now actor reason o.fulfillment_status db r))
              (both (Pays o u db.shared) (SamePlace o) (return_points now o saved.shared db.shared)
                (return_points-Pays now o u saved.shared db.shared short has_user)
                (return_points-SamePlace now o saved.shared db.shared))
              (λ r h.
                close_order-GivesBack now actor reason o.fulfillment_status o u route db r row
                  has_route h.0 h.1)))))

-- A call of cancel_travel_order that returns, for an order that was not cancelled, credits the user with
-- the points that the order still owes (what the exchange took; the cost where no row shows it; nothing
-- where they are back), gives the place back to the route unless that is done, and leaves the order
-- cancelled, in the table as in the answer.
pub cancel_travel_order-GivesBack :
    (now order_id : ℕ) (actor : Actor) (reason : Text) (admin_override : Bool) (o : TravelOrder)
    (u : User) (route : Route) (saved db : TravelDb)
    → find_travel order_id db.orders ≡ some o
    → is_cancelled o.fulfillment_status ≡ false
    → find_user o.user_id db.shared.users ≡ some u
    → find_route o.route_id db.routes ≡ some route
    → length (refund_key o) ≤ 160
    → Ensures
        (GivesBack o u route db)
        (cancel_travel_order now order_id actor reason admin_override saved db)
unfolding cancel_travel_order
cancel_travel_order-GivesBack now order_id actor reason admin_override o u route saved db found
      fresh has_user has_route short =
    rw (found, cancel_travel_order)
      (cancel_found-GivesBack now actor reason admin_override o u route saved db
        (ap (λ n. find_travel n db.orders) (found_travel order_id db.orders o found) ∙ found) fresh
        has_user has_route short)
