-- ===== src/Invites.antt =====
-- bind_invite of app/api/auth.py: a user names who invited them, and the inviter gets points once.
use python_server.Base.{
  ℕ, ◌+◌, ◌*◌, max, Bool, true, false, not, ◌&&◌, Option, none, some, List, ◌∷◌, ◌++◌, Text, codes,
  text_eq, decimal, ◌==◌, if◌then◌else◌, is_empty, strip, find, Result, ok, err, ◌>>=◌, bad_request,
  user_not_found,
}
use python_server.Base.Int.{ℤ, pos, ltb_ℤ}
use python_server.Points.Model.{Posting}
use python_server.Points.Credit.{credit_locked}
use python_server.Orders.Model.{Db, day, find_user, points_session, end_session}
use python_server.Accounts.{Account, is_active}
pub mod Bound
pub mod Once
pub mod Tests

pub record InviteRelation : Type 0 where
  pub id : ℕ
  pub inviter_id : Text
  pub invitee_phone : Text
  pub device_id : Text
  pub score_granted : Bool
  pub abnormal : Bool
  pub frozen : Bool

-- The columns of PointRule that a binding reads.
pub record InviteRule : Type 0 where
  pub enabled : Bool
  pub invite_enabled : Bool
  pub invite_score : ℤ
  pub valid_days : ℕ

-- The user rows are two tables with the same ids: `accounts` has the columns of signing in, `shop.users` those of
-- points.
pub record InviteDb : Type 0 where
  pub accounts : List Account
  pub shop : Db
  pub relations : List InviteRelation
  pub next_relation : ℕ
  pub rule : Option InviteRule

pub record InvitePayload : Type 0 where
  pub invite_code : Text
  pub device_id : Text

-- `rewarded` of the answer, and whether its message says that the user was bound before.
pub record InviteBindResponse : Type 0 where
  pub rewarded : Bool
  pub was_bound : Bool

abbrev pub can_invite : Text → Account → Bool
can_invite code a =
    text_eq a.user_no code && (text_eq a.role (codes "user") && (is_active a && a.is_registered))

abbrev pub unknown_device : Text
unknown_device = codes "unknown"

abbrev pub device_of : InvitePayload → Text
device_of p = if is_empty (strip p.device_id) then unknown_device else strip p.device_id

abbrev pub is_reused : Text → List InviteRelation → Bool
is_reused device rs =
    not (text_eq device unknown_device)
    && (elim (find (λ r. text_eq r.device_id device) rs) [ none ↦ false | some r ↦ true ])

abbrev pub invite_enabled : Option InviteRule → Bool
invite_enabled none = true
invite_enabled (some r) = r.enabled && r.invite_enabled

abbrev pub invite_score : Option InviteRule → ℤ
invite_score none = pos 1
invite_score (some r) = r.invite_score

abbrev pub invite_days : Option InviteRule → ℕ
invite_days none = 365
invite_days (some r) = max 1 r.valid_days

abbrev pub new_relation : Account → Account → Text → InviteDb → InviteRelation
new_relation user inviter device s = record {
  id = s.next_relation;
  inviter_id = inviter.user_no;
  invitee_phone = user.phone;
  device_id = device;
  score_granted = false;
  abnormal = is_reused device s.relations;
  frozen = false;
}

abbrev pub invite_posting : Account → InviteRelation → Posting
invite_posting user r = record {
  biz_type = codes "invite_reward";
  biz_id = r.id;
  biz_no = decimal r.id;
  idempotency_key = codes "invite-reward:" ++ decimal r.id;
  remark = codes "已登录用户 " ++ user.user_no ++ codes " 绑定邀请关系";
}

abbrev pub add_relation : InviteRelation → Db → InviteDb → InviteDb
add_relation r shop s = record s {
  shop = shop;
  relations = r ∷ s.relations;
  next_relation = s.next_relation + 1;
}

abbrev pub earns : InviteRelation → Option InviteRule → Bool
earns r rule = not r.abnormal && (invite_enabled rule && ltb_ℤ (pos 0) (invite_score rule))

-- The key of the reward is shorter than its column, so the rollback inside `credit_locked` is not taken.
abbrev pub reward_inviter : ℕ → Account → Account → InviteRelation → InviteDb → Result Db
reward_inviter now user inviter r s = elim (find_user inviter.id s.shop.users) [
  | none ↦ err user_not_found
  | some u ↦
      (credit_locked (points_session u s.shop) (invite_score s.rule) (invite_posting user r)
          (some (now + invite_days s.rule * day)) (points_session u s.shop)
        >>= λ x. ok (end_session x.1 s.shop))
]

-- The relation of a phone that has none yet.
unfoldable pub bind_new :
    ℕ → Account → Account → Text → InviteDb → Result (InviteBindResponse × InviteDb)
bind_new now user inviter device s =
    let r = new_relation user inviter device s in
    if earns r s.rule
    then (reward_inviter now user inviter r s >>= λ shop. ok (
      record { rewarded = true; was_bound = false },
      add_relation (record r { score_granted = true }) shop s,
    ))
    else ok (record { rewarded = false; was_bound = false }, add_relation r s.shop s)

-- Both rows are locked before the relations are read.
unfoldable pub bind_to :
    ℕ → Account → Account → Text → InviteDb → Result (InviteBindResponse × InviteDb)
bind_to now user inviter device s = elim (find_user user.id s.shop.users) [
  | none ↦ err user_not_found
  | some u ↦ elim (find_user inviter.id s.shop.users) [
    | none ↦ err user_not_found
    | some v ↦ elim (find (λ r. text_eq r.invitee_phone user.phone) s.relations) [
      | none ↦ bind_new now user inviter device s
      | some r ↦
          if text_eq r.inviter_id inviter.user_no
          then ok (record { rewarded = r.score_granted; was_bound = true }, s)
          else err bad_request
    ]
  ]
]

unfoldable pub bind_invite :
    ℕ → InvitePayload → Account → InviteDb → Result (InviteBindResponse × InviteDb)
bind_invite now p user s =
    if text_eq (strip p.invite_code) user.user_no
    then err bad_request
    else elim (find (can_invite (strip p.invite_code)) s.accounts) [
      | none ↦ err bad_request
      | some inviter ↦
          if text_eq inviter.phone user.phone
          then err bad_request
          else bind_to now user inviter (device_of p) s
    ]
