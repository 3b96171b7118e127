-- ===== src/Memory/Maps.antt =====
-- Look-ups after the changes of a store, by key.
use python_server.Base.{
  ℕ, ◌≡◌, refl, sym, subst, true, false, Option, none, some, [], ◌∷◌, arith, Text, text_eq,
  text_eq_refl, text_eq→eq, if◌then◌else◌, Bool-cases, inl, inr,
}
use python_server.Memory.{Entry, Store, lookup, pop, put, live}

-- The entries that are live, by key.
abbrev pub View : Type 0
View = Text → Option Entry

abbrev pub upd : Text → Option Entry → View → View
upd k e v j = if text_eq k j then e else v j

pub upd_eq :
    (k j : Text) (e x : Option Entry) (v : View)
    → (k ≡ j → x ≡ e)
    → (text_eq k j ≡ false → x ≡ v j)
    → x ≡ upd k e v j
upd_eq k j e x v p q = elim (Bool-cases (text_eq k j)) [
  | inl t ↦ rw t (p (text_eq→eq k j t))
  | inr f ↦ rw f (q f)
]

pub lookup-pop_same : (k : Text) (s : Store) → lookup k (pop k s) ≡ none
lookup-pop_same k [] = refl
lookup-pop_same k ((j, e) ∷ s) = ground (arith, lookup-pop_same k s)

other_key : (i k j : Text) → text_eq i k ≡ true → text_eq k j ≡ false → text_eq i j ≡ false
other_key i k j same other = subst (λ t. text_eq t j ≡ false) (sym (text_eq→eq i k same)) other

lookup-pop_other : (k j : Text) (s : Store) → text_eq k j ≡ false → lookup j (pop k s) ≡ lookup j s
lookup-pop_other k j [] other = refl
lookup-pop_other k j ((i, e) ∷ s) other = elim (Bool-cases (text_eq i k)) [
  | inl same ↦ rw (same, other_key i k j same other) (lookup-pop_other k j s other)
  | inr apart ↦ rw apart (ground (arith, lookup-pop_other k j s other))
]

pub lookup-put_same : (k : Text) (e : Entry) (s : Store) → lookup k (put k e s) ≡ some e
lookup-put_same k e [] = rw (text_eq_refl k) refl
lookup-put_same k e ((j, d) ∷ s) = ground (arith, lookup-put_same k e s)

lookup-put_other :
    (k j : Text) (e : Entry) (s : Store) → text_eq k j ≡ false → lookup j (put k e s) ≡ lookup j s
lookup-put_other k j e [] other = rw other refl
lookup-put_other k j e ((i, d) ∷ s) other = elim (Bool-cases (text_eq i k)) [
  | inl same ↦ rw (same, other_key i k j same other) (lookup-pop_other k j s other)
  | inr apart ↦ rw apart (ground (arith, lookup-put_other k j e s other))
]

pub lookup-pop : (k j : Text) (s : Store) → lookup j (pop k s) ≡ upd k none (λ i. lookup i s) j
lookup-pop k j s =
    upd_eq k j none (lookup j (pop k s)) (λ i. lookup i s)
      (λ e. subst (λ i. lookup i (pop k s) ≡ none) e (lookup-pop_same k s)) (lookup-pop_other k j s)

pub lookup-put :
    (k j : Text) (e : Entry) (s : Store) → lookup j (put k e s) ≡ upd k (some e) (λ i. lookup i s) j
lookup-put k j e s =
    upd_eq k j (some e) (lookup j (put k e s)) (λ i. lookup i s)
      (λ p. subst (λ i. lookup i (put k e s) ≡ some e) p (lookup-put_same k e s))
      (lookup-put_other k j e s)

-- The store holds the view at a time.
abbrev pub Represents : ℕ → Store → View → Type 0
Represents now s v = (k : Text) → live now (lookup k s) ≡ v k

pub live-upd :
    (now : ℕ) (k j : Text) (e : Option Entry) (v : View)
    → live now (upd k e v j) ≡ upd k (live now e) (λ i. live now (v i)) j
live-upd now k j e v = elim (Bool-cases (text_eq k j)) [ inl t ↦ rw t refl | inr f ↦ rw f refl ]
