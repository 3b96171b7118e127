-- ===== src/Invites/Bound.antt =====
-- What a binding writes down.
use python_server.Base.{
  ℕ, Bool, not, ◌&&◌, ◌||◌, Bool-cases, inl, inr, text_eq→eq, ◌+◌, ◌*◌, ◌≡◌, refl, sym, ap, ◌∙◌,
  true, false, Option, none, some, List, [], ◌∷◌, ◌++◌, ◌==◌, arith, Text, codes, decimal, text_eq,
  strip, if◌then◌else◌, if_cases, if_intro, option_cases, option_intro, find, ok, Ensures,
  Ensures-bind, Ensures-map,
}
use python_server.Base.Int.{ℤ, pos, pos_part, ltb_ℤ}
use python_server.Points.Credit.{credit_locked, credit, recover}
use python_server.Points.Rows.{ledger_row, add_lot, is_duplicate}
use python_server.Points.Model.{income, User, Ledger, Session, Posting, find_ledger}
use python_server.Orders.Model.{Db, day, find_user, set_user, points_session, end_session}
use python_server.Accounts.{Account}
use python_server.Invites.{
  InviteRelation, InviteRule, InviteDb, InvitePayload, InviteBindResponse, can_invite, device_of,
  invite_score, invite_days, is_reused, unknown_device, invite_enabled, new_relation,
  invite_posting, add_relation, earns, reward_inviter, bind_new, bind_to, bind_invite,
}

abbrev pub points_of : ℕ → List User → Option ℕ
points_of id [] = none
points_of id (u ∷ us) = if u.id == id then some u.points else points_of id us

-- Whether a device that has a name was in a relation before.
abbrev pub seen : Text → List InviteRelation → Bool
seen device [] = false
seen device (r ∷ rs) = text_eq r.device_id device || seen device rs

abbrev pub known_again : Text → List InviteRelation → Bool
known_again device rs = not (text_eq device (codes "unknown")) && seen device rs

-- What the rule gives for a binding: a point where there is no rule, and nothing where it is off.
abbrev pub worth : Option InviteRule → ℤ
worth none = pos 1
worth (some r) = if r.enabled && r.invite_enabled then r.invite_score else pos 0

-- The relation that is added for `user`.
pub record Relates (user inviter : Account) (device : Text) (s : InviteDb) (granted : Bool)
    (r : InviteRelation) : Type 0 where
  pub key : r.id ≡ s.next_relation
  pub invited_by : r.inviter_id ≡ inviter.user_no
  pub phone : r.invitee_phone ≡ user.phone
  pub place : r.device_id ≡ device
  pub again : r.abnormal ≡ known_again device s.relations
  pub score : r.score_granted ≡ granted

-- What a binding leaves of `s`: nothing new where the phone is bound to that inviter; else one new relation of the
-- phone. With the reward it says so and the inviter has the rule's score more; without it nobody's points change.
pub data Binds (user inviter : Account) (device : Text) (s : InviteDb)
    : InviteBindResponse × InviteDb → Type 0 where
  bound_before :
      {r : InviteRelation}
      → find (λ r. text_eq r.invitee_phone user.phone) s.relations ≡ some r
      → r.inviter_id ≡ inviter.user_no
      → Binds user inviter device s (record { rewarded = r.score_granted; was_bound = true }, s)
  unrewarded :
      {r : InviteRelation}
      → find (λ r. text_eq r.invitee_phone user.phone) s.relations ≡ none
      → (known_again device s.relations || not (ltb_ℤ (pos 0) (worth s.rule))) ≡ true
      → Relates user inviter device s false r
      → Binds user inviter device s (
        record { rewarded = false; was_bound = false },
        record s { relations = r ∷ s.relations; next_relation = s.next_relation + 1 },
      )
  rewarded :
      {n : ℕ} {shop : Db} {r : InviteRelation}
      → find (λ r. text_eq r.invitee_phone user.phone) s.relations ≡ none
      → known_again device s.relations ≡ false
      → ltb_ℤ (pos 0) (worth s.rule) ≡ true
      → Relates user inviter device s true r
      → points_of inviter.id s.shop.users ≡ some n
      → points_of inviter.id shop.users ≡ some (n + pos_part (worth s.rule))
      → Binds user inviter device s (
        record { rewarded = true; was_bound = false },
        record s { shop = shop; relations = r ∷ s.relations; next_relation = s.next_relation + 1 },
      )

is_reused-known_again :
    (device : Text) (rs : List InviteRelation) → is_reused device rs ≡ known_again device rs
is_reused-known_again device rs = ap (λ b. not (text_eq device unknown_device) && b) (found rs)
  where
    found :
        (rs : List InviteRelation)
        → (elim (find (λ r. text_eq r.device_id device) rs) as (λ _. Bool) [
          | none ↦ false
          | some r ↦ true
        ])
          ≡ seen device rs
    found [] = refl
    found (r ∷ rs) = elim (Bool-cases (text_eq r.device_id device)) [
      | inl e ↦ rw e refl
      | inr e ↦ rw e (found rs)
    ]

-- The reward's conditions, and its score.
earned_worth :
    (again : Bool) (rule : Option InviteRule)
    → not again && (invite_enabled rule && ltb_ℤ (pos 0) (invite_score rule)) ≡ true
    → (again ≡ false) × (ltb_ℤ (pos 0) (worth rule) ≡ true) × (invite_score rule ≡ worth rule)
earned_worth again none h = (ground arith, refl, refl)
earned_worth again (some r) h = (ground arith, ground arith, ground arith)

idle_worth :
    (again : Bool) (rule : Option InviteRule)
    → not again && (invite_enabled rule && ltb_ℤ (pos 0) (invite_score rule)) ≡ false
    → (again || not (ltb_ℤ (pos 0) (worth rule))) ≡ true
idle_worth again none h = ground arith
idle_worth again (some r) h = ground arith

abbrev pub reward_key : InviteDb → Text
reward_key s = codes "invite-reward:" ++ decimal s.next_relation

found_points :
    (id : ℕ) (us : List User) (u : User)
    → find_user id us ≡ some u
    → (u.id ≡ id) × (points_of id us ≡ some u.points)
found_points id [] u h = grind arith
found_points id (x ∷ us) u h = ground (arith, found_points id us u)

set_user-points :
    (new : User) (us : List User) (b : ℕ)
    → points_of new.id us ≡ some b
    → points_of new.id (set_user new us) ≡ some new.points
set_user-points new [] b h = grind arith
set_user-points new (u ∷ us) b h = ground (arith, set_user-points new us b)

-- A credit whose key is unused adds its amount.
credit_locked-Adds :
    (s : Session) (amount : ℤ) (p : Posting) (e : Option ℕ)
    → find_ledger s.user.id p.idempotency_key s.ledgers ≡ none
    → Ensures
        (λ r. (r.1.user.id ≡ s.user.id) × (r.1.user.points ≡ s.user.points + pos_part amount))
        (credit_locked s amount p e s)
unfolding credit_locked credit ledger_row add_lot recover
credit_locked-Adds s amount p e fresh =
    let P =
      Ensures {A = Ledger × Session}
        (λ r. (r.1.user.id ≡ s.user.id) × (r.1.user.points ≡ s.user.points + pos_part amount)) in
    if_cases P (ltb_ℤ (pos 0) amount)
      (λ positive.
        option_cases P (find_ledger s.user.id p.idempotency_key s.ledgers)
          (λ none_booked.
            if_cases P
              (is_duplicate s (
                ledger_row s income (pos_part amount) s.user.points
                  (s.user.points + pos_part amount) p))
              (λ taken.
                option_cases P (find_ledger s.user.id p.idempotency_key s.ledgers) (λ e. tt)
                  (λ row booked. absurd (ground arith)))
              (λ free. (refl, refl)))
          (λ row booked. absurd (ground arith)))
      (λ e. tt)

reward_inviter-Adds :
    (now : ℕ) (user inviter : Account) (r : InviteRelation) (s : InviteDb)
    → find_ledger inviter.id (invite_posting user r).idempotency_key s.shop.ledgers ≡ none
    → Ensures
        (λ shop.
          (n : ℕ) × ((points_of inviter.id s.shop.users ≡ some n)
            × (points_of inviter.id shop.users ≡ some (n + pos_part (invite_score s.rule)))))
        (reward_inviter now user inviter r s)
reward_inviter-Adds now user inviter r s fresh =
    let Q : Db → Type 0 = λ shop.
      (n : ℕ) × ((points_of inviter.id s.shop.users ≡ some n)
        × (points_of inviter.id shop.users ≡ some (n + pos_part (invite_score s.rule)))) in
    option_cases (Ensures Q) (find_user inviter.id s.shop.users) (λ missing. tt)
      (λ u found.
        let (same, points) = found_points inviter.id s.shop.users u found in
        let start = points_session u s.shop in
        Ensures-bind
          (λ (x : Ledger × Session).
            (x.1.user.id ≡ u.id) × (x.1.user.points ≡ u.points + pos_part (invite_score s.rule)))
          Q
          (credit_locked start (invite_score s.rule) (invite_posting user r)
            (some (now + invite_days s.rule * day)) start)
          (λ x. ok (end_session x.1 s.shop))
          (credit_locked-Adds start (invite_score s.rule) (invite_posting user r)
            (some (now + invite_days s.rule * day))
            (ap (λ id. find_ledger id (invite_posting user r).idempotency_key s.shop.ledgers) same
              ∙ fresh))
          (λ x (own, more). (
            u.points,
            (
              points,
              sym (ap (λ id. points_of id (set_user x.1.user s.shop.users)) (own ∙ same))
                  ∙ set_user-points x.1.user s.shop.users u.points
                      (ap (λ id. points_of id s.shop.users) (own ∙ same) ∙ points)
                  ∙ ap (λ n. some n) more,
            ),
          )))

bind_new-Binds :
    (now : ℕ) (user inviter : Account) (device : Text) (s : InviteDb)
    → find_ledger inviter.id (reward_key s) s.shop.ledgers ≡ none
    → find (λ r. text_eq r.invitee_phone user.phone) s.relations ≡ none
    → Ensures (Binds user inviter device s) (bind_new now user inviter device s)
unfolding bind_new
bind_new-Binds now user inviter device s fresh unbound =
    let r = new_relation user inviter device s in
    let same = is_reused-known_again device s.relations in
    let related : (granted : Bool)
        → Relates user inviter device s granted (record r { score_granted = granted }) =
      λ granted. record {
        key = refl;
        invited_by = refl;
        phone = refl;
        place = refl;
        again = same;
        score = refl;
      } in
    if_cases (Ensures (Binds user inviter device s)) (earns r s.rule)
      (λ earned.
        Ensures-bind
          (λ shop.
            (n : ℕ) × ((points_of inviter.id s.shop.users ≡ some n)
              × (points_of inviter.id shop.users ≡ some (n + pos_part (invite_score s.rule)))))
          (Binds user inviter device s) (reward_inviter now user inviter r s)
          (λ shop. ok (
            record { rewarded = true; was_bound = false },
            add_relation (record r { score_granted = true }) shop s,
          ))
          (reward_inviter-Adds now user inviter r s fresh)
          (λ shop (n, (had, has)).
            let (fresh_device, positive, score) = earned_worth r.abnormal s.rule earned in
            Binds.rewarded unbound (sym same ∙ fresh_device) positive (related true) had
              (has ∙ ap (λ z. some (n + pos_part z)) score)))
      (λ idle.
        Binds.unrewarded unbound
          (ap (λ b. b || not (ltb_ℤ (pos 0) (worth s.rule))) (sym same)
            ∙ idle_worth r.abnormal s.rule idle)
          (related false))

-- A binding that returns has left the database as it was where the phone is bound to that inviter, and else has added
-- the one relation of the phone, with the reward or without; where the key of the reward is unused.
pub bind_to-Binds :
    (now : ℕ) (user inviter : Account) (device : Text) (s : InviteDb)
    → find_ledger inviter.id (reward_key s) s.shop.ledgers ≡ none
    → Ensures (Binds user inviter device s) (bind_to now user inviter device s)
unfolding bind_to
bind_to-Binds now user inviter device s fresh =
    let P = Ensures (Binds user inviter device s) in
    option_intro P (find_user user.id s.shop.users) tt (λ u mine.
      option_intro P (find_user inviter.id s.shop.users) tt (λ v theirs.
        option_cases P (find (λ r. text_eq r.invitee_phone user.phone) s.relations)
          (λ unbound. bind_new-Binds now user inviter device s fresh unbound)
          (λ r bound.
            if_cases P (text_eq r.inviter_id inviter.user_no)
              (λ same. Binds.bound_before bound (text_eq→eq r.inviter_id inviter.user_no same))
              (λ e. tt))))

-- A binding that returns has found an active inviter of that code with another phone. It leaves the database as it was
-- where the phone is bound to that inviter, and else adds the one relation of the phone, to that inviter and with the
-- device: with the reward exactly where the rule gives one and no relation has the device, if it has a name, and then
-- the inviter has the rule's score more. The key of the
-- next relation's reward is unused.
pub bind_invite-Binds :
    (now : ℕ) (p : InvitePayload) (user : Account) (s : InviteDb)
    → ((id : ℕ) → find_ledger id (reward_key s) s.shop.ledgers ≡ none)
    → Ensures
        (λ x.
          (inviter : Account) × (find (can_invite (strip p.invite_code)) s.accounts ≡ some inviter)
          × (text_eq inviter.phone user.phone ≡ false)
          × Binds user inviter (device_of p) s x)
        (bind_invite now p user s)
unfolding bind_invite
bind_invite-Binds now p user s fresh =
    let Q : InviteBindResponse × InviteDb → Type 0 = λ x.
      (inviter : Account) × (find (can_invite (strip p.invite_code)) s.accounts ≡ some inviter)
      × (text_eq inviter.phone user.phone ≡ false)
      × Binds user inviter (device_of p) s x in
    if_intro (Ensures Q) (text_eq (strip p.invite_code) user.user_no) tt (
      option_cases (Ensures Q) (find (can_invite (strip p.invite_code)) s.accounts) (λ missing. tt)
        (λ inviter found.
          if_cases (Ensures Q) (text_eq inviter.phone user.phone) (λ own. tt)
            (λ other.
              Ensures-map (Binds user inviter (device_of p) s) Q
                (bind_to now user inviter (device_of p) s)
                (λ x binds. (inviter, found, other, binds))
                (bind_to-Binds now user inviter (device_of p) s (fresh inviter.id)))))
