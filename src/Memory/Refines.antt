-- ===== src/Memory/Refines.antt =====
-- The store against a map of live entries: the commands, what the map answers, and time.
use python_server.Base.{
  ℕ, zero, suc, ◌+◌, ◌≤◌, ◌≡◌, refl, sym, ap, ◌∙◌, subst, Bool, true, false, ◌&&◌, Option, none,
  some, List, [], ◌∷◌, arith, Text, text_eq, if◌then◌else◌, Bool-cases, ◌⊎◌, inl, inr, if_cases,
  if_intro, option_cases, Error, Result, ok, err, ◌>>=◌,
}
use python_server.Base.Int.{ℤ, pos, ◌+ℤ◌}
use python_server.Memory.{
  Value, number, Entry, Store, lookup, pop, put, is_over, live, purge, value_of, get, is_present,
  expiry, set_unless, set, delete, ttl_of, ttl, expire_entry, expire, int_of, incrby,
}
use python_server.Memory.Maps.{
  View, upd, upd_eq, lookup-pop_same, lookup-pop, lookup-put, Represents, live-upd,
}

pub data Command : Type 0 where
  get_it : Text → Command
  set_it : Text → Value → (ex : Option ℕ) → (nx : Bool) → Command
  delete_it : Text → Command
  ttl_it : Text → Command
  expire_it : Text → (seconds : ℕ) → Command
  incr_it : Text → (amount : ℤ) → Command

pub data Reply : Type 0 where
  value : Option Value → Reply
  bool : Bool → Reply
  int : ℤ → Reply
  raised : Error → Reply

abbrev incr_reply : Result (ℤ × Store) → Store → Reply × Store
incr_reply (ok r) s = (int r.0, r.1)
incr_reply (err e) s = (raised e, s)

unfoldable pub run_command : ℕ → Command → Store → Reply × Store
run_command now (get_it k) s = (value (get now k s).0, (get now k s).1)
run_command now (set_it k v ex nx) s = (bool (set now k v ex nx s).0, (set now k v ex nx s).1)
run_command now (delete_it k) s = (int (pos (delete (k ∷ []) s).0), (delete (k ∷ []) s).1)
run_command now (ttl_it k) s = (int (ttl now k s).0, (ttl now k s).1)
run_command now (expire_it k seconds) s =
    (bool (expire now k seconds s).0, (expire now k seconds s).1)
run_command now (incr_it k amount) s = incr_reply (incrby now k amount s) (purge now k s)

abbrev pub spec_set : Bool → Text → Entry → View → Reply × View
spec_set kept k e v = if kept then (bool false, v) else (bool true, upd k (some e) v)

abbrev pub spec_expire : ℕ → ℕ → Text → Option Entry → View → Reply × View
spec_expire now until k none v = (bool false, v)
spec_expire now until k (some e) v =
    (bool true, upd k (live now (some (record { value = e.value; expires_at = some until }))) v)

abbrev pub spec_incr : Text → ℤ → Result ℤ → View → Reply × View
spec_incr k amount (err e) v = (raised e, v)
spec_incr k amount (ok n) v =
    (int (n +ℤ amount), upd k (some (record { value = number (n +ℤ amount); expires_at = none })) v)

-- What the map answers, and the map after it.
abbrev pub spec : ℕ → Command → View → Reply × View
spec now (get_it k) v = (value (value_of (v k)), v)
spec now (set_it k x ex nx) v =
    spec_set (nx && is_present (v k)) k (record { value = x; expires_at = expiry now ex }) v
spec now (delete_it k) v = (int (pos (if is_present (v k) then 1 else 0)), upd k none v)
spec now (ttl_it k) v = (int (ttl_of now (v k)), v)
spec now (expire_it k seconds) v = spec_expire now (now + seconds) k (v k) v
spec now (incr_it k amount) v = spec_incr k amount (int_of (value_of (v k))) v

upd_cong :
    (k : Text) (e : Option Entry) (v w : View)
    → ((j : Text) → v j ≡ w j)
    → (j : Text) → upd k e v j ≡ upd k e w j
upd_cong k e v w h j = elim (Bool-cases (text_eq k j)) [ inl t ↦ rw t refl | inr f ↦ rw f (h j) ]

put-Represents :
    (now : ℕ) (k : Text) (e : Entry) (s : Store) (v : View)
    → Represents now s v
    → Represents now (put k e s) (upd k (live now (some e)) v)
put-Represents now k e s v h j =
    ap (live now) (lookup-put k j e s)
    ∙ live-upd now k j (some e) (λ i. lookup i s)
    ∙ upd_cong k (live now (some e)) (λ i. live now (lookup i s)) v h j

pop-Represents :
    (now : ℕ) (k : Text) (s : Store) (v : View)
    → Represents now s v
    → Represents now (pop k s) (upd k none v)
pop-Represents now k s v h j =
    ap (live now) (lookup-pop k j s)
    ∙ live-upd now k j none (λ i. lookup i s)
    ∙ upd_cong k none (λ i. live now (lookup i s)) v h j

-- A purged key holds what is live.
pub purge-live : (now : ℕ) (k : Text) (s : Store) → lookup k (purge now k s) ≡ live now (lookup k s)
purge-live now k s =
    let P = λ (t : Store). lookup k t ≡ live now (lookup k s) in
    option_cases P (lookup k s) (λ missing. missing ∙ sym (ap (live now) missing))
      (λ e found.
        if_cases P (is_over now e.expires_at)
          (λ over. lookup-pop_same k s ∙ sym (ap (live now) found ∙ rw over refl))
          (λ fresh. found ∙ sym (ap (live now) found ∙ rw fresh refl)))

upd_same : (k : Text) (v : View) → v k ≡ none → (j : Text) → upd k none v j ≡ v j
upd_same k v h j = sym (upd_eq k j none (v j) v (λ e. subst (λ i. v i ≡ none) e h) (λ f. refl))

purge-Represents :
    (now : ℕ) (k : Text) (s : Store) (v : View)
    → Represents now s v
    → Represents now (purge now k s) v
purge-Represents now k s v h =
    let P = λ (t : Store). Represents now t v in
    option_cases P (lookup k s) (λ missing. h)
      (λ e found.
        if_cases P (is_over now e.expires_at)
          (λ over j.
            let gone : v k ≡ none = sym (h k) ∙ ap (live now) found ∙ rw over refl in
            pop-Represents now k s v h j ∙ upd_same k v gone j)
          (λ fresh. h))

-- A reply against the map's: the same, but that a delete may count a key whose entry has expired.
abbrev pub Accords : Command → Reply → Reply → Type 0
Accords (delete_it k) r w = (r ≡ w) ⊎ ((r ≡ int (pos 1)) × (w ≡ int (pos 0)))
Accords c r w = r ≡ w

-- The reply and the new store agree with the map's.
abbrev Agrees : ℕ → Reply × Store → Reply × View → Type 0
Agrees now r w = (r.0 ≡ w.0) × Represents now r.1 w.1

abbrev AgreesOn : ℕ → Command → Reply × Store → Reply × View → Type 0
AgreesOn now c r w = Accords c r.0 w.0 × Represents now r.1 w.1

deletes_one :
    (now : ℕ) (k : Text) (e v : Option Entry)
    → live now e ≡ v
    → Accords
        (delete_it k)
        (int (pos (if is_present e then 1 else 0)))
        (int (pos (if is_present v then 1 else 0)))
deletes_one now k none v h =
    subst
      (λ (w : Option Entry).
        Accords (delete_it k) (int (pos 0)) (int (pos (if is_present w then 1 else 0))))
      h (inl refl)
deletes_one now k (some e) v h =
    let Q : Option Entry → Type 0 =
      λ w. Accords (delete_it k) (int (pos 1)) (int (pos (if is_present w then 1 else 0))) in
    subst Q h (if_intro Q (is_over now e.expires_at) (inr (refl, refl)) (inl refl))

module _ (now : ℕ) (s : Store) (v : View) (h : Represents now s v) where
  purged : (k : Text) → lookup k (purge now k s) ≡ v k
  purged k = purge-live now k s ∙ h k

  fresh_entry :
      (ex : Option ℕ) (x : Value)
      → live now (some (record { value = x; expires_at = expiry now ex }))
        ≡ some (record { value = x; expires_at = expiry now ex })
  fresh_entry none x = refl
  fresh_entry (some zero) x = refl
  fresh_entry (some (suc n)) x = ground arith

  set_unless-Agrees :
      (k : Text) (e : Entry) (kept : Bool)
      → live now (some e) ≡ some e
      → let r = set_unless kept k e (purge now k s) in
        Agrees now (bool r.0, r.1) (spec_set kept k e v)
  set_unless-Agrees k e true f = (refl, purge-Represents now k s v h)
  set_unless-Agrees k e false f = (
    refl,
    subst (λ x. Represents now (put k e (purge now k s)) (upd k x v)) f
        (put-Represents now k e (purge now k s) v (purge-Represents now k s v h)),
  )

  expire_entry-Agrees :
      (k : Text) (until : ℕ) (w : Option Entry)
      → let r = expire_entry until k w (purge now k s) in
        Agrees now (bool r.0, r.1) (spec_expire now until k w v)
  expire_entry-Agrees k until none = (refl, purge-Represents now k s v h)
  expire_entry-Agrees k until (some e) = (
    refl,
    put-Represents now k (record { value = e.value; expires_at = some until }) (purge now k s) v
        (purge-Represents now k s v h),
  )

  incr-Agrees :
      (k : Text) (amount : ℤ) (m : Result ℤ)
      → Agrees now
          (incr_reply
            (m >>= λ n.
              ok (n +ℤ amount, (set now k (number (n +ℤ amount)) none false (purge now k s)).1))
            (purge now k s))
          (spec_incr k amount m v)
  incr-Agrees k amount (err e) = (refl, purge-Represents now k s v h)
  incr-Agrees k amount (ok n) = (
    refl,
    put-Represents now k (record { value = number (n +ℤ amount); expires_at = none })
        (purge now k (purge now k s)) v
        (purge-Represents now k (purge now k s) v (purge-Represents now k s v h)),
  )

  run_command-AgreesOn : (c : Command) → AgreesOn now c (run_command now c s) (spec now c v)
  unfolding run_command
  run_command-AgreesOn (get_it k) =
      (ap (λ e. value (value_of e)) (purged k), purge-Represents now k s v h)
  run_command-AgreesOn (set_it k x ex nx) =
      let e : Entry = record { value = x; expires_at = expiry now ex } in
      subst
        (λ (w : Option Entry).
          let r = set_unless (nx && is_present w) k e (purge now k s) in
          Agrees now (bool r.0, r.1) (spec now (set_it k x ex nx) v))
        (sym (purged k)) (set_unless-Agrees k e (nx && is_present (v k)) (fresh_entry ex x))
  run_command-AgreesOn (delete_it k) =
      (deletes_one now k (lookup k s) (v k) (h k), pop-Represents now k s v h)
  run_command-AgreesOn (ttl_it k) =
      (ap (λ e. int (ttl_of now e)) (purged k), purge-Represents now k s v h)
  run_command-AgreesOn (expire_it k seconds) =
      subst
        (λ (w : Option Entry).
          let r = expire_entry (now + seconds) k w (purge now k s) in
          Agrees now (bool r.0, r.1) (spec now (expire_it k seconds) v))
        (sym (purged k)) (expire_entry-Agrees k (now + seconds) (v k))
  run_command-AgreesOn (incr_it k amount) =
      subst
        (λ (w : Option Entry).
          Agrees now
            (incr_reply
              (int_of (value_of w) >>= λ n.
                ok (n +ℤ amount, (set now k (number (n +ℤ amount)) none false (purge now k s)).1))
              (purge now k s))
            (spec now (incr_it k amount) v))
        (sym (purged k)) (incr-Agrees k amount (int_of (value_of (v k))))

abbrev pub after : ℕ → View → View
after now v k = live now (v k)

live_later :
    (now later : ℕ) (e : Option Entry) → now ≤ later → live later (live now e) ≡ live later e
live_later now later e h = ground arith

after-Represents :
    (now later : ℕ) (s : Store) (v : View)
    → now ≤ later
    → Represents now s v
    → Represents later s (after later v)
after-Represents now later s v le h k =
    sym (live_later now later (lookup k s) le) ∙ ap (live later) (h k)

-- The answers to commands at their times, by the store and by the map, where time itself takes entries away.
unfoldable pub replies : List (ℕ × Command) → Store → List Reply
replies [] s = []
replies ((t, c) ∷ cs) s = (run_command t c s).0 ∷ replies cs (run_command t c s).1

abbrev pub spec_replies : List (ℕ × Command) → View → List Reply
spec_replies [] v = []
spec_replies ((t, c) ∷ cs) v = (spec t c (after t v)).0 ∷ spec_replies cs (spec t c (after t v)).1

abbrev pub InOrderFrom : ℕ → List (ℕ × Command) → Type 0
InOrderFrom now [] = Unit
InOrderFrom now ((t, c) ∷ cs) = (now ≤ t) × InOrderFrom t cs

abbrev pub AllAccord : List (ℕ × Command) → List Reply → List Reply → Type 0
AllAccord ((t, c) ∷ cs) (r ∷ rs) (w ∷ ws) = Accords c r w × AllAccord cs rs ws
AllAccord [] [] [] = Unit
AllAccord cs rs ws = ⊥

-- Over any commands in the order of time, the store answers what the map of live entries answers, and purging
-- lazily makes no difference, but to the number of keys that a delete answers: it may count a key whose entry has
-- expired.
pub replies-Refine :
    (cs : List (ℕ × Command)) (now : ℕ) (s : Store) (v : View)
    → Represents now s v
    → InOrderFrom now cs
    → AllAccord cs (replies cs s) (spec_replies cs v)
unfolding replies
replies-Refine [] now s v h o = tt
replies-Refine ((t, c) ∷ cs) now s v h o =
    let (same, next) = run_command-AgreesOn t s (after t v) (after-Represents now t s v o.0 h) c in
    (same, replies-Refine cs t (run_command t c s).1 (spec t c (after t v)).1 next o.1)
