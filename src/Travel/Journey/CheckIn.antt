-- ===== src/Travel/Journey/CheckIn.antt =====
-- What a scan does: the code in hand is taken once, and a refused scan is recorded and changes no status.
use python_server.Base.{
  ℕ, suc, ◌<◌, Option, none, ◌⊎◌, inl, inr, ◌≡◌, refl, ap, ◌∙◌, subst, true, false, not, ◌||◌, some,
  arith, is_empty, [], text_eq, text_eq→eq, if_cases, length, Result, ok, err, bad_request,
}
use python_server.Travel.Model.{Fulfillment, TravelOrder, Actor, TravelDb, find_travel}
use python_server.Travel.Cancel.Once.{found_travel, set_travel-found}
use python_server.Travel.Journey.{Desk}
use python_server.Travel.Journey.Office.{may_check_in, expired_by}
use python_server.Travel.Journey.Trip.{Scan, checked_in_order, check_in_found, check_in_order}

-- A code without an expiry does not expire.
abbrev pub Unexpired : ℕ → Option ℕ → Type 0
Unexpired now none = Unit {0}
Unexpired now (some expires) = now < expires

expired_by-Unexpired :
    (now : ℕ) (expires : Option ℕ) → expired_by now false expires ≡ false → Unexpired now expires
expired_by-Unexpired now none h = tt
expired_by-Unexpired now (some t) h = ground arith

-- The order as a scan leaves it: checked in, at that time and with no code, and otherwise the trip that it was.
pub record CheckedIn (desk : Desk) (o o' : TravelOrder) : Type 0 where
  pub status : o'.fulfillment_status ≡ Fulfillment.checked_in
  pub time : o'.checked_in_at ≡ some desk.now
  pub code : o'.qr_token ≡ []
  pub same : (o'.id ≡ o.id) × (o'.user_id ≡ o.user_id) × (o'.contract ≡ o.contract)
  pub open_still : o'.status ≡ o.status

-- How a scan of an order ends: the order is checked in by its code, which is gone then; or the call raises
-- and the order's status is what it was. Either way there is one more record.
pub data Ends (desk : Desk) (scan : Scan) (o : TravelOrder) (db : TravelDb)
    : TravelDb × Result TravelOrder → Type 0 where
  accepted :
      {t : TravelDb} {o' : TravelOrder}
      → (o.fulfillment_status ≡ Fulfillment.user_confirmed)
        ⊎ (o.fulfillment_status ≡ Fulfillment.qr_issued)
      → Unexpired desk.now o.qr_expires_at
      → (scan.token ≡ o.qr_token) × (is_empty o.qr_token ≡ false)
      → find_travel o.id t.orders ≡ some o'
      → CheckedIn desk o o'
      → length t.verifications ≡ suc (length db.verifications)
      → Ends desk scan o db (t, ok o')
  refused :
      {t : TravelDb} {o' : TravelOrder}
      → find_travel o.id t.orders ≡ some o'
      → o'.fulfillment_status ≡ o.fulfillment_status
      → length t.verifications ≡ suc (length db.verifications)
      → Ends desk scan o db (t, err bad_request)

may_check_in-confirmed :
    (f : Fulfillment)
    → may_check_in f ≡ true
    → (f ≡ Fulfillment.user_confirmed) ⊎ (f ≡ Fulfillment.qr_issued)
may_check_in-confirmed Fulfillment.user_confirmed h = inl refl
may_check_in-confirmed Fulfillment.qr_issued h = inr refl
may_check_in-confirmed f h = absurd (ground arith)

module _ (desk : Desk) (scan : Scan) (actor : Actor) (db : TravelDb) where
  check_in_found-Ends :
      (o : TravelOrder)
      → find_travel o.id db.orders ≡ some o
      → Ends desk scan o db (check_in_found desk scan actor db o)
  check_in_found-Ends o found =
      let P = Ends desk scan o db in
      if_cases P (not (may_check_in o.fulfillment_status)) (λ e. Ends.refused found refl refl)
        (λ may.
          if_cases P (expired_by desk.now false o.qr_expires_at)
            (λ e.
              Ends.refused
                (set_travel-found o.id (record o { qr_token = [] }) db.orders o refl found) refl
                refl)
            (λ fresh.
              if_cases P (is_empty o.qr_token || not (text_eq scan.token o.qr_token))
                (λ e. Ends.refused found refl refl)
                (λ right.
                  Ends.accepted (may_check_in-confirmed o.fulfillment_status (ground arith))
                    (expired_by-Unexpired desk.now o.qr_expires_at fresh)
                    (text_eq→eq scan.token o.qr_token (ground arith), ground arith)
                    (set_travel-found o.id (checked_in_order desk o) db.orders o refl found)
                    (record {
                      status = refl;
                      time = refl;
                      code = refl;
                      same = (refl, refl, refl);
                      open_still = refl;
                    })
                    refl)))

  -- A scan of an order that exists either checks it in, for a trip that the user has confirmed, by the very code of the
  -- order before its expiry, and stores it with that status, the time and no code; or it raises and the order's status
  -- stays. Each leaves one more record.
  pub check_in_order-Ends :
      (id : ℕ) (o : TravelOrder)
      → find_travel id db.orders ≡ some o
      → Ends desk scan o db (check_in_order desk id scan actor db)
  unfolding check_in_order
  check_in_order-Ends id o found =
      rw (found, check_in_order)
        (check_in_found-Ends o
          (ap (λ n. find_travel n db.orders) (found_travel id db.orders o found) ∙ found))

left_behind :
    (desk : Desk) (scan : Scan) (o o' : TravelOrder) (db : TravelDb)
    (r : TravelDb × Result TravelOrder)
    → Ends desk scan o db r
    → r.1 ≡ ok o'
    → (p : TravelOrder) × (find_travel o.id r.0.orders ≡ some p) × CheckedIn desk o p
left_behind desk scan o o' db (t, x) (Ends.accepted {o' = p} may fresh right row after more) e =
    (p, row, after)
left_behind desk scan o o' db (t, x) (Ends.refused row same more) e = absurd (ground arith)

scan_of_checked_in :
    (desk : Desk) (id : ℕ) (scan : Scan) (actor : Actor) (o : TravelOrder) (t : TravelDb)
    → find_travel id t.orders ≡ some o
    → o.fulfillment_status ≡ Fulfillment.checked_in
    → (check_in_order desk id scan actor t).1 ≡ err bad_request
unfolding check_in_order
scan_of_checked_in desk id scan actor o t found done =
    rw (found, check_in_order)
      (if_cases (λ (r : TravelDb × Result TravelOrder). r.1 ≡ err bad_request)
        (not (may_check_in o.fulfillment_status)) (λ e. refl) (λ may. absurd (ground arith)))

-- After a scan that checked the order in, every scan of that order is refused, whatever its code and
-- whoever makes it.
pub check_in_order-Once :
    (desk desk' : Desk) (id : ℕ) (scan scan' : Scan) (actor actor' : Actor) (o o' : TravelOrder)
    (db : TravelDb)
    → find_travel id db.orders ≡ some o
    → (check_in_order desk id scan actor db).1 ≡ ok o'
    → (check_in_order desk' id scan' actor' (check_in_order desk id scan actor db).0).1
      ≡ err bad_request
check_in_order-Once desk desk' id scan scan' actor actor' o o' db found success =
    let r = check_in_order desk id scan actor db in
    let (p, row, after) =
      left_behind desk scan o o' db r (check_in_order-Ends desk scan actor db id o found) success in
    scan_of_checked_in desk' id scan' actor' p r.0
      (subst (λ n. find_travel n r.0.orders ≡ some p) (found_travel id db.orders o found) row)
      after.status
