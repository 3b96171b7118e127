-- ===== src/Invites/Once.antt =====
-- A phone that is bound stays bound.
use python_server.Base.{
  ℕ, ◌≡◌, refl, ap, ◌∙◌, subst, false, none, some, arith, Text, text_eq, text_eq_refl, strip,
  if_intro, option_cases, option_intro, find, ok, Ensures,
}
use python_server.Points.Model.{find_ledger}
use python_server.Orders.Model.{find_user}
use python_server.Accounts.{Account}
use python_server.Invites.{
  InviteRelation, InviteDb, InvitePayload, InviteBindResponse, can_invite, device_of, bind_to,
  bind_invite,
}
use python_server.Invites.Bound.{Binds, reward_key, bind_invite-Binds}

Binds-has_relation :
    (user inviter : Account) (device : Text) (s : InviteDb) (x : InviteBindResponse × InviteDb)
    → Binds user inviter device s x
    → (r : InviteRelation) × (find (λ r. text_eq r.invitee_phone user.phone) x.1.relations ≡ some r)
Binds-has_relation user inviter device s x (Binds.bound_before {r = r} found same) = (r, found)
Binds-has_relation user inviter device s x (Binds.unrewarded {r = r} unbound idle made) =
    (r, rw (made.phone, text_eq_refl user.phone) refl)
Binds-has_relation user inviter device s x
      (Binds.rewarded {r = r} unbound fresh positive made had has) =
    (r, rw (made.phone, text_eq_refl user.phone) refl)

bind_invite-bound :
    (now : ℕ) (p : InvitePayload) (user : Account) (r : InviteRelation) (t : InviteDb)
    → find (λ r. text_eq r.invitee_phone user.phone) t.relations ≡ some r
    → Ensures (λ y. y.1 ≡ t) (bind_invite now p user t)
unfolding bind_invite bind_to
bind_invite-bound now p user r t bound =
    let P = Ensures {A = InviteBindResponse × InviteDb} (λ y. y.1 ≡ t) in
    if_intro P (text_eq (strip p.invite_code) user.user_no) tt (
      option_intro P (find (can_invite (strip p.invite_code)) t.accounts) tt (λ inviter found.
        if_intro P (text_eq inviter.phone user.phone) tt (
          option_intro P (find_user user.id t.shop.users) tt (λ u mine.
            option_intro P (find_user inviter.id t.shop.users) tt (λ v theirs.
              option_cases P (find (λ r. text_eq r.invitee_phone user.phone) t.relations)
                (λ none_found. absurd (ground arith))
                (λ r' again. if_intro P (text_eq r'.inviter_id inviter.user_no) refl tt))))))

-- After a binding that returned, no later one of the same phone changes anything, whatever its code, device and account.
-- The key of the first reward was unused.
pub bind_invite-Once :
    (now now' : ℕ) (p p' : InvitePayload) (user user' : Account) (s t : InviteDb)
    (x : InviteBindResponse)
    → ((id : ℕ) → find_ledger id (reward_key s) s.shop.ledgers ≡ none)
    → bind_invite now p user s ≡ ok (x, t)
    → user'.phone ≡ user.phone
    → Ensures (λ y. y.1 ≡ t) (bind_invite now' p' user' t)
bind_invite-Once now now' p p' user user' s t x fresh h phone =
    let (inviter, found, other, binds) =
      subst
        (Ensures (λ x.
          (inviter : Account) × (find (can_invite (strip p.invite_code)) s.accounts ≡ some inviter)
          × (text_eq inviter.phone user.phone ≡ false)
          × Binds user inviter (device_of p) s x))
        h (bind_invite-Binds now p user s fresh) in
    let (r, has) = Binds-has_relation user inviter (device_of p) s (x, t) binds in
    bind_invite-bound now' p' user' r t
      (ap (λ n. find (λ r. text_eq r.invitee_phone n) t.relations) phone ∙ has)
