-- ===== src/Orders/Pay/Grant.antt =====
-- What the grants of a payment leave alone: orders, the wallet's rows and every balance.
use python_server.Base.{
  ℕ, ◌≡◌, refl, sym, ap, ◌∙◌, Bool, not, ◌&&◌, Option, none, some, List, [], ◌∷◌, arith, ◌==◌,
  if◌then◌else◌, is_empty, option_intro, if_intro, ◌+◌, ◌*◌, ok, Ensures, Ensures-bind, Ensures-map,
}
use python_server.Base.Int.{ℤ, pos, pos_part, ltb_ℤ}
use python_server.Points.Model.{income, User, Ledger, Session, Posting, find_ledger}
use python_server.Points.Rows.{add_lot, ledger_row, is_duplicate}
use python_server.Points.Credit.{credit, credit_locked, recover}
use python_server.Orders.Model.{
  Order, Item, Db, day, find_user, set_user, points_session, end_session, set_item, find_product,
}
use python_server.Orders.Pay.{
  vip_items, study_items, granted, magnitude, find_plan, extended_user, item_paid, grant_vips,
  deliver, deliver_all, reward_points, reward_posting, valid_days, credit_reward, grant,
}

abbrev pub balance_of : ℕ → List User → Option ℕ
balance_of id [] = none
balance_of id (u ∷ us) = if u.id == id then some u.balance else balance_of id us

pub found_balance :
    (id : ℕ) (us : List User) (u : User)
    → find_user id us ≡ some u
    → (u.id ≡ id) × (balance_of id us ≡ some u.balance)
found_balance id [] u h = grind arith
found_balance id (x ∷ us) u h = ground (arith, found_balance id us u)

-- A row written with the balance it had.
pub set_user-balance :
    (id : ℕ) (new : User) (us : List User)
    → balance_of new.id us ≡ some new.balance
    → balance_of id (set_user new us) ≡ balance_of id us
set_user-balance id new [] h = refl
set_user-balance id new (u ∷ us) h = ground (arith, set_user-balance id new us)

-- A row written with a new balance.
pub set_user-own :
    (new : User) (us : List User) (b : ℕ)
    → balance_of new.id us ≡ some b
    → balance_of new.id (set_user new us) ≡ some new.balance
set_user-own new [] b h = grind arith
set_user-own new (u ∷ us) b h = ground (arith, set_user-own new us b)

-- `later` has the orders, the wallet rows and the balances of `db`.
abbrev pub Kept : Db → Db → Type 0
Kept db later =
    (later.orders ≡ db.orders)
    × ((later.wallet ≡ db.wallet) × ((id : ℕ) → balance_of id later.users ≡ balance_of id db.users))

Kept-trans : (a b c : Db) → Kept a b → Kept b c → Kept a c
Kept-trans a b c (p, (q, r)) (p', (q', r')) = (p' ∙ p, (q' ∙ q, λ id. r' id ∙ r id))

grant_vips-Kept :
    (now : ℕ) (is : List Item) (u : User) (db : Db)
    → balance_of u.id db.users ≡ some u.balance
    → Kept db (grant_vips now is u db)
unfolding grant_vips
grant_vips-Kept now [] u db h = (refl, (refl, λ id. refl))
grant_vips-Kept now (i ∷ is) u db h =
    option_intro (Kept db) (find_plan (magnitude i.product_id) db.plans)
      (grant_vips-Kept now is u db h)
      (λ plan found.
        let u' = extended_user now plan u in
        let db' : Db = record db {
          users = set_user u' db.users;
          items = set_item (item_paid i) db.items;
        } in
        Kept-trans db db' (grant_vips now is u' db')
          (refl, (refl, λ id. set_user-balance id u' db.users h))
          (grant_vips-Kept now is u' db' (set_user-balance u.id u' db.users h ∙ h)))

deliver_all-Kept :
    (now : ℕ) (o : Order) (is : List Item) (db : Db) → Kept db (deliver_all now o is db)
unfolding deliver_all deliver
deliver_all-Kept now o [] db = (refl, (refl, λ id. refl))
deliver_all-Kept now o (i ∷ is) db =
    Kept-trans db (deliver now o i db) (deliver_all now o is (deliver now o i db))
      (option_intro (Kept db) (find_product i.product_id db.products) (refl, (refl, λ id. refl))
        (λ p found. (refl, (refl, λ id. refl))))
      (deliver_all-Kept now o is (deliver now o i db))

-- A credit changes no more of the user's row than the points.
abbrev SameOwner : User → Ledger × Session → Type 0
SameOwner u r = (r.1.user.id ≡ u.id) × (r.1.user.balance ≡ u.balance)

credit_locked-SameOwner :
    (saved : Session) (amount : ℤ) (p : Posting) (e : Option ℕ) (s : Session)
    → saved.user ≡ s.user
    → Ensures (SameOwner s.user) (credit_locked saved amount p e s)
unfolding credit_locked credit recover ledger_row add_lot
credit_locked-SameOwner saved amount p e s same =
    if_intro (Ensures (SameOwner s.user)) (ltb_ℤ (pos 0) amount)
      (option_intro (Ensures (SameOwner s.user)) (find_ledger s.user.id p.idempotency_key s.ledgers)
        (if_intro (Ensures (SameOwner s.user))
          (is_duplicate s (
            ledger_row s income (pos_part amount) s.user.points (s.user.points + pos_part amount)
              p))
          (option_intro (Ensures (SameOwner s.user))
            (find_ledger s.user.id p.idempotency_key saved.ledgers) tt
            (λ row found. (ap (λ (u : User). u.id) same, ap (λ (u : User). u.balance) same)))
          (refl, refl))
        (λ row found. (refl, refl)))
      tt

credit_reward-Kept :
    (now points : ℕ) (vip : Bool) (o : Order) (saved db : Db)
    → Ensures (Kept db) (credit_reward now points vip o saved db)
unfolding credit_reward
credit_reward-Kept now points vip o saved db =
    if_intro (Ensures (Kept db)) (points == 0) (refl, (refl, λ id. refl))
      (option_intro (Ensures (Kept db)) (find_user o.user_id db.users) tt (λ u found.
        Ensures-bind (SameOwner u) (Kept db) _ (λ r. ok (end_session r.1 db))
          (credit_locked-SameOwner (points_session u saved) (pos points) (reward_posting vip o)
            (some (now + valid_days db.rule * day)) (points_session u db) refl)
          (λ r s. (
            refl,
            (
              refl,
              λ id. set_user-balance id r.1.user db.users (
                  ap (λ n. balance_of n db.users)
                    (s.0 ∙ (found_balance o.user_id db.users u found).0)
                  ∙ (found_balance o.user_id db.users u found).1
                  ∙ ap some (sym s.1)),
            ),
          ))))

pub granted-Kept : (now : ℕ) (o : Order) (db : Db) → Kept db (granted now o db)
unfolding granted
granted-Kept now o db =
    let db' : Db = elim (find_user o.user_id db.users) [
      | none ↦ db
      | some u ↦ grant_vips now (vip_items o db) u db
    ] in
    let vips_kept : Kept db db' =
      option_intro (Kept db) (find_user o.user_id db.users) (refl, (refl, λ id. refl))
        (λ u found. grant_vips-Kept now (vip_items o db) u db (
          ap (λ n. balance_of n db.users) (found_balance o.user_id db.users u found).0
          ∙ (found_balance o.user_id db.users u found).1)) in
    Kept-trans db db' (deliver_all now o (study_items o db) db') vips_kept
      (deliver_all-Kept now o (study_items o db) db')

-- Whatever a payment grants, orders, wallet rows and balances stay.
pub grant-Kept : (now : ℕ) (o : Order) (saved db : Db) → Ensures (Kept db) (grant now o saved db)
unfolding grant
grant-Kept now o saved db =
    let has_study = not (is_empty (study_items o db)) in
    let has_vip = not (is_empty (vip_items o db)) in
    let points = reward_points has_vip has_study db.rule in
    Ensures-map (Kept (granted now o db)) (Kept db)
      (credit_reward now points (has_vip && not has_study) o saved (granted now o db))
      (λ later k. Kept-trans db (granted now o db) later (granted-Kept now o db) k)
      (credit_reward-Kept now points (has_vip && not has_study) o saved (granted now o db))
