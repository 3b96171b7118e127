-- ===== src/Travel/Cancel/Once.antt =====
-- Cancellations that are made again.
use python_server.Base.{
  ℕ, ◌≡◌, refl, ap, subst, ◌∙◌, Bool, true, false, not, ◌&&◌, some, List, [], ◌∷◌, Text, arith,
  ◌==◌, ==_iff, if_intro, if_cases, option_intro, passes_of_find, ok, Ensures, Ensures-bind,
  Ensures-map, returns_anything,
}
use python_server.Orders.Model.{Db, find_user, end_session}
use python_server.Travel.Model.{
  Fulfillment, TravelOrder, Route, Actor, TravelDb, find_travel, set_travel,
}
use python_server.Travel.Cancel.{
  user_cancellable, non_cancellable, is_cancelled, owes_points, owes_place, refund_points,
  return_points, return_place, cancelled_order, close_order, cancel_found, cancel_travel_order,
}

set_travel-find :
    (new : TravelOrder) (os : List TravelOrder) (o : TravelOrder)
    → find_travel new.id os ≡ some o
    → find_travel new.id (set_travel new os) ≡ some new
set_travel-find new [] o h = grind arith
set_travel-find new (x ∷ os) o h = ground (arith, set_travel-find new os o)

pub found_travel :
    (id : ℕ) (os : List TravelOrder) (o : TravelOrder) → find_travel id os ≡ some o → o.id ≡ id
found_travel id os o h = (==_iff o.id id).0 (passes_of_find (λ x. x.id == id) os o h)

pub set_travel-found :
    (id : ℕ) (new : TravelOrder) (os : List TravelOrder) (o : TravelOrder)
    → new.id ≡ o.id
    → find_travel id os ≡ some o
    → find_travel id (set_travel new os) ≡ some new
set_travel-found id new os o same found =
    let e : new.id ≡ id = same ∙ found_travel id os o found in
    subst (λ n. find_travel n (set_travel new os) ≡ some new) e
      (set_travel-find new os o (ap (λ n. find_travel n os) e ∙ found))

-- The same order of the same user.
abbrev pub SameOrder : TravelOrder → TravelOrder × Db → Type 0
SameOrder o r = (r.0.id ≡ o.id) × (r.0.user_id ≡ o.user_id)

pub return_points-SameOrder :
    (now : ℕ) (o : TravelOrder) (saved db : Db)
    → Ensures (SameOrder o) (return_points now o saved db)
unfolding return_points
return_points-SameOrder now o saved db =
    if_intro (Ensures (SameOrder o)) (owes_points o)
      (option_intro (Ensures (SameOrder o)) (find_user o.user_id db.users) tt (λ u found.
        Ensures-bind (λ _. Unit {0}) (SameOrder o) (refund_points now o u saved db)
          (λ r. ok (record o { points_refunded = true }, end_session r.1 db))
          (returns_anything (refund_points now o u saved db)) (λ r _. (refl, refl))))
      (refl, refl)

return_place-SameOrder :
    (o : TravelOrder) (routes : List Route)
    → ((return_place o routes).0.id ≡ o.id) × ((return_place o routes).0.user_id ≡ o.user_id)
unfolding return_place
return_place-SameOrder o routes =
    if_intro (λ (x : TravelOrder × List Route). (x.0.id ≡ o.id) × (x.0.user_id ≡ o.user_id))
      (owes_place o) (refl, refl) (refl, refl)

-- The order stands cancelled as it is returned, and the actor may see it.
abbrev Closed : ℕ → Actor → Bool → TravelOrder × TravelDb → Type 0
Closed order_id actor admin_override r =
    (find_travel order_id r.1.orders ≡ some r.0)
    × ((is_cancelled r.0.fulfillment_status ≡ true)
        × (not admin_override && not (r.0.user_id == actor.id) ≡ false))

close_order-Closed :
    (now order_id : ℕ) (actor : Actor) (reason : Text) (admin_override : Bool)
    (previous : Fulfillment) (o : TravelOrder) (db : TravelDb) (r : TravelOrder × Db)
    → find_travel order_id db.orders ≡ some o
    → not admin_override && not (o.user_id == actor.id) ≡ false
    → SameOrder o r
    → Closed order_id actor admin_override (close_order now actor reason previous db r)
unfolding close_order
close_order-Closed now order_id actor reason admin_override previous o db r found may same =
    let place = return_place-SameOrder r.0 db.routes in
    (
      set_travel-found order_id (cancelled_order now reason (return_place r.0 db.routes).0)
          db.orders o (place.0 ∙ same.0) found,
      (refl, ap (λ n. not admin_override && not (n == actor.id)) (place.1 ∙ same.1) ∙ may),
    )

cancel_found-Closed :
    (now order_id : ℕ) (actor : Actor) (reason : Text) (admin_override : Bool) (o : TravelOrder)
    (saved db : TravelDb)
    → find_travel order_id db.orders ≡ some o
    → Ensures
        (Closed order_id actor admin_override)
        (cancel_found now actor reason admin_override o saved db)
unfolding cancel_found
cancel_found-Closed now order_id actor reason admin_override o saved db found =
    let P = Ensures (Closed order_id actor admin_override) in
    if_cases P (not admin_override && not (o.user_id == actor.id)) (λ foreign. tt)
      (λ may.
        if_cases P (is_cancelled o.fulfillment_status) (λ e. (found, (e, may)))
          (λ e. if_intro P (non_cancellable o.fulfillment_status) tt (
            if_intro P (not admin_override && not (user_cancellable o.fulfillment_status)) tt (
              Ensures-bind (SameOrder o) (Closed order_id actor admin_override)
                (return_points now o saved.shared db.shared)
                (λ r. ok (close_order now actor reason o.fulfillment_status db r))
                (return_points-SameOrder now o saved.shared db.shared)
                (λ r same.
                  close_order-Closed now order_id actor reason admin_override o.fulfillment_status o
                    db r found may same)))))

Closed-again :
    (now order_id : ℕ) (actor : Actor) (reason : Text) (admin_override : Bool) (saved : TravelDb)
    (r : TravelOrder × TravelDb)
    → Closed order_id actor admin_override r
    → cancel_travel_order now order_id actor reason admin_override saved r.1 ≡ ok r
unfolding cancel_travel_order cancel_found
Closed-again now order_id actor reason admin_override saved r (found, (closed, may)) =
    rw (found, may, closed, cancel_travel_order, cancel_found)

cancel_travel_order-Closed :
    (now order_id : ℕ) (actor : Actor) (reason : Text) (admin_override : Bool) (saved db : TravelDb)
    → Ensures
        (Closed order_id actor admin_override)
        (cancel_travel_order now order_id actor reason admin_override saved db)
unfolding cancel_travel_order
cancel_travel_order-Closed now order_id actor reason admin_override saved db =
    option_intro (Ensures (Closed order_id actor admin_override)) (find_travel order_id db.orders)
      tt (λ o found. cancel_found-Closed now order_id actor reason admin_override o saved db found)

-- Once cancel_travel_order has returned, a later call of the same actor for the same order returns the
-- same order and changes nothing: no points and no place go back twice.
pub cancel_travel_order-Once :
    (now later order_id : ℕ) (actor : Actor) (reason reason' : Text) (admin_override : Bool)
    (saved saved' db : TravelDb)
    → Ensures
        (λ r. cancel_travel_order later order_id actor reason' admin_override saved' r.1 ≡ ok r)
        (cancel_travel_order now order_id actor reason admin_override saved db)
cancel_travel_order-Once now later order_id actor reason reason' admin_override saved saved' db =
    Ensures-map (Closed order_id actor admin_override)
      (λ r. cancel_travel_order later order_id actor reason' admin_override saved' r.1 ≡ ok r)
      (cancel_travel_order now order_id actor reason admin_override saved db)
      (Closed-again later order_id actor reason' admin_override saved')
      (cancel_travel_order-Closed now order_id actor reason admin_override saved db)
