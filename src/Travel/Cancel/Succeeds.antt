-- ===== src/Travel/Cancel/Succeeds.antt =====
-- When a cancellation returns.
use python_server.Base.{
  ℕ, ◌+◌, ◌*◌, ◌≤◌, ◌≡◌, Bool, true, false, not, ◌&&◌, ◌||◌, some, Text, arith, codes, ◌==◌,
  if◌then◌else◌, find, if_cases, inl, inr, Option-cases, length, ok, Returns, Returns-bind,
}
use python_server.Base.Int.{pos, ltb_ℤ}
use python_server.Points.Model.{User}
use python_server.Points.Refund.{took_points, refund_locked}
use python_server.Orders.Model.{Db, day, find_user, points_session, end_session}
use python_server.Travel.Model.{Fulfillment, TravelOrder, Actor, TravelDb, find_travel}
use python_server.Travel.Cancel.{
  user_cancellable, non_cancellable, is_cancelled, owes_points, fallback_days, refund_posting,
  refund_points, return_points, close_order, cancel_found, cancel_travel_order,
}
use python_server.Travel.Cancel.Points.{refund_key, positive_cost}
use python_server.Points.Returns.{credit_locked-Returns, refund_locked-Returns}

refund_points-Returns :
    (now : ℕ) (o : TravelOrder) (u : User) (saved db : Db)
    → length (refund_key o) ≤ 160
    → ltb_ℤ (pos 0) o.points_cost ≡ true
    → Returns (refund_points now o u saved db)
unfolding refund_points refund_locked
refund_points-Returns now o u saved db short positive =
    let fallback = some (now + fallback_days db.rule * day) in
    elim (Option-cases (find (took_points u.id (codes "travel_exchange") o.order_no) db.ledgers)) [
      | inl missing ↦
          rw (missing, refund_points)
            (credit_locked-Returns (points_session u saved) o.points_cost (refund_posting true o)
              fallback (points_session u db) positive short)
      | inr (original, took) ↦
          rw (took, refund_points)
            (refund_locked-Returns now (codes "travel_exchange") fallback (refund_posting false o)
              (points_session u db) original short took)
    ]

return_points-Returns :
    (now : ℕ) (o : TravelOrder) (u : User) (saved db : Db)
    → length (refund_key o) ≤ 160
    → find_user o.user_id db.users ≡ some u
    → Returns (return_points now o saved db)
unfolding return_points
return_points-Returns now o u saved db short found =
    if_cases Returns (owes_points o)
      (λ owes. rw found (
        Returns-bind (refund_points now o u saved db)
          (λ r. ok (record o { points_refunded = true }, end_session r.1 db))
          (refund_points-Returns now o u saved db short (positive_cost o owes)) (λ r. tt)))
      (λ settled. tt)

-- The statuses allow the actor to cancel the order.
abbrev pub allowed : Actor → Bool → TravelOrder → Bool
allowed actor admin_override o =
    if admin_override
    then not (non_cancellable o.fulfillment_status)
    else (o.user_id == actor.id)
      && (user_cancellable o.fulfillment_status || is_cancelled o.fulfillment_status)

contradicts : {b : Bool} → b ≡ true → b ≡ false → ⊥
contradicts h k = ground arith

not_started : (f : Fulfillment) → user_cancellable f ≡ true → non_cancellable f ≡ false
not_started f h = ground arith

-- The three refusals, against what is allowed.
own_order :
    (admin own started cancellable : Bool)
    → (if admin then not started else (own && cancellable)) ≡ true
    → not admin && not own ≡ false
own_order admin own started cancellable may = ground arith

before_start :
    (admin own started cancellable closed : Bool)
    → (if admin then not started else (own && (cancellable || closed))) ≡ true
    → (cancellable ≡ true → started ≡ false)
    → closed ≡ false
    → started ≡ false
before_start admin own started cancellable closed may k fresh = ground arith

cancellable_by :
    (admin own started cancellable closed : Bool)
    → (if admin then not started else (own && (cancellable || closed))) ≡ true
    → closed ≡ false
    → not admin && not cancellable ≡ false
cancellable_by admin own started cancellable closed may fresh = ground arith

cancel_found-Returns :
    (now : ℕ) (actor : Actor) (reason : Text) (admin_override : Bool) (o : TravelOrder) (u : User)
    (saved db : TravelDb)
    → find_user o.user_id db.shared.users ≡ some u
    → length (refund_key o) ≤ 160
    → allowed actor admin_override o ≡ true
    → Returns (cancel_found now actor reason admin_override o saved db)
unfolding cancel_found
cancel_found-Returns now actor reason admin_override o u saved db has_user short may =
    let mine = o.user_id == actor.id in
    let started = non_cancellable o.fulfillment_status in
    let cancellable = user_cancellable o.fulfillment_status in
    let closed = is_cancelled o.fulfillment_status in
    if_cases Returns (not admin_override && not mine)
      (λ e.
        absurd (contradicts e (own_order admin_override mine started (cancellable || closed) may)))
      (λ own.
        if_cases Returns closed (λ e. tt)
          (λ fresh.
            if_cases Returns started
              (λ e. absurd (
                contradicts e (
                  before_start admin_override mine started cancellable closed may
                    (not_started o.fulfillment_status) fresh)))
              (λ e.
                if_cases Returns (not admin_override && not cancellable)
                  (λ e. absurd (
                    contradicts e
                      (cancellable_by admin_override mine started cancellable closed may fresh)))
                  (λ e.
                    Returns-bind (return_points now o saved.shared db.shared)
                      (λ r. ok (close_order now actor reason o.fulfillment_status db r))
                      (return_points-Returns now o u saved.shared db.shared short has_user)
                      (λ r. tt)))))

-- A call of cancel_travel_order returns for its own user while the status is one of the cancellable ones, and for
-- an administrator while the trip has not started, if the user's row exists and the order number fits a key.
pub cancel_travel_order-Returns :
    (now order_id : ℕ) (actor : Actor) (reason : Text) (admin_override : Bool) (o : TravelOrder)
    (u : User) (saved db : TravelDb)
    → find_travel order_id db.orders ≡ some o
    → find_user o.user_id db.shared.users ≡ some u
    → length (refund_key o) ≤ 160
    → allowed actor admin_override o ≡ true
    → Returns (cancel_travel_order now order_id actor reason admin_override saved db)
unfolding cancel_travel_order
cancel_travel_order-Returns now order_id actor reason admin_override o u saved db found has_user
      short may =
    rw (found, cancel_travel_order)
      (cancel_found-Returns now actor reason admin_override o u saved db has_user short may)
