-- ===== src/Invites/Tests.antt =====
-- Bob names Ann, who invited him.
use python_server.Base.{
  ℕ, ◌≡◌, refl, ◌∷◌, [], none, some, false, codes, text_eq, decimal, err, Ensures, value_or,
  bad_request, find, strip,
}
use python_server.Base.Int.{◌+ℤ◌}
use python_server.Points.Model.{User}
use python_server.Points.Rows.{ledger_row, add_lot}
use python_server.Points.Credit.{credit_locked, credit, recover}
use python_server.Orders.Tests.{shop}
use python_server.Accounts.{Account}
use python_server.Accounts.Tests.{ann, bob}
use python_server.Invites.{
  InviteDb, InvitePayload, InviteBindResponse, can_invite, device_of, bind_new, bind_to,
  bind_invite,
}
use python_server.Invites.Bound.{Binds, points_of, bind_invite-Binds}
use python_server.Invites.Once.{bind_invite-Once}

abbrev user : ℕ → User
user n = record {
  id = n;
  user_no = codes "U1";
  points = 5;
  balance = 0;
  vip_enabled = false;
  vip_type = [];
  vip_started_at = none;
  vip_expires_at = none;
}

abbrev start : InviteDb
start = record {
  accounts = bob ∷ ann ∷ [];
  shop = record shop { users = user 1 ∷ user 2 ∷ [] };
  relations = [];
  next_relation = 1;
  rule = none;
}

abbrev payload : InvitePayload
payload = record { invite_code = codes " U1"; device_id = codes "phone" }

-- Opens the call for a run.
binding : Unit {0}
unfolding bind_invite bind_to bind_new credit_locked credit recover ledger_row add_lot text_eq
    decimal ◌+ℤ◌
binding = tt

abbrev bound : InviteBindResponse × InviteDb
unfolding binding
bound =
    value_or (record { rewarded = false; was_bound = false }, start)
      (bind_invite 50 payload bob start)

anns_points : points_of 1 bound.1.shop.users ≡ some 6
unfolding binding
anns_points = refl

-- A third user with Bob's device brings no points.
abbrev eve : Account
eve = record bob { phone = codes "300"; user_no = codes "U3" }

reused : points_of 1 (value_or bound (bind_invite 60 payload eve bound.1)).1.shop.users ≡ some 6
unfolding binding
reused = refl

own_code : bind_invite 50 payload ann start ≡ err bad_request
unfolding binding
own_code = refl

bind_invite-Binds_example :
    Ensures
      (λ x.
        (inviter : Account) × (find (can_invite (strip payload.invite_code)) start.accounts
          ≡ some inviter)
        × (text_eq inviter.phone bob.phone ≡ false)
        × Binds bob inviter (device_of payload) start x)
      (bind_invite 50 payload bob start)
bind_invite-Binds_example = bind_invite-Binds 50 payload bob start (λ id. refl)

bind_invite-Once_example : Ensures (λ y. y.1 ≡ bound.1) (bind_invite 60 payload bob bound.1)
unfolding binding
bind_invite-Once_example =
    bind_invite-Once 50 60 payload payload bob bob start bound.1 bound.0 (λ id. refl) refl refl
