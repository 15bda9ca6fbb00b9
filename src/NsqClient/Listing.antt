-- ===== src/NsqClient/Listing.antt =====
-- apps/evnsq/client.cc: how often the lists of a client have an address.
use mathlib.Core.Bool.{true≢false}
use mathlib.Core.Option.{none-ne-some}
use evpp.Base.{
  ℕ, ◌+◌, ◌≤◌, ◌≡◌, refl, sym, ap, Bool, true, false, ◌&&◌, ◌==◌, ==_iff, List, [], ◌∷◌, ◌++◌,
  Option, none, some, ap₂, arith, All, Bool-cases, inl, inr,
}
use evpp.Base.Dictionary.{is_same, is_same-eq}
use evpp.NsqClient.{Client, Conn, deref, find, assign, erase, has, remove, has_addr, is_any}

abbrev pub one_if : Bool → ℕ
one_if true = 1
one_if false = 0

-- How often an address is that of a connection
abbrev pub matches : List ℕ → Option Conn → ℕ
matches a o = one_if (has_addr a o)

abbrev pub in_conns : List ℕ → List Conn → List ℕ → ℕ
in_conns a h [] = 0
in_conns a h (p ∷ ps) = matches a (deref p h) + in_conns a h ps

abbrev pub in_connecting : List ℕ → List (List ℕ × Option ℕ) → ℕ
in_connecting a [] = 0
in_connecting a ((b, p) ∷ m) = one_if (is_same a b) + in_connecting a m

-- How often a client has an address in its lists
abbrev pub listed : List ℕ → Client → ℕ
listed a m = in_conns a m.heap m.conns + in_connecting a m.connecting_conns

abbrev pub addr_at : Option Conn → Option (List ℕ)
addr_at none = none
addr_at (some c) = some c.addr

-- A pointer of the map is not null, and leads to a connection with its address.
abbrev pub Linked : List Conn → List ℕ × Option ℕ → Type 0
Linked h (a, none) = none ≡ some a
Linked h (a, some p) = addr_at (deref p h) ≡ some a

pub in_connecting-assign :
    (a b : List ℕ) (p : Option ℕ) (m : List (List ℕ × Option ℕ))
    → find b m ≡ none
    → in_connecting a (assign b p m) ≡ in_connecting a m + one_if (is_same a b)
unfolding find assign
in_connecting-assign a b p [] e = omega arith
in_connecting-assign a b p ((c, q) ∷ m) e = elim (Bool-cases (is_same b c)) [
  | inl t ↦ absurd (none-ne-some _ (sym (rw t at e)))
  | inr t ↦ rw t (omega (arith, in_connecting-assign a b p m (rw t at e)))
]

pub in_connecting-erase :
    (a b : List ℕ) (p : Option ℕ) (m : List (List ℕ × Option ℕ))
    → find b m ≡ some p
    → in_connecting a (erase b m) + one_if (is_same a b) ≡ in_connecting a m
unfolding find erase
in_connecting-erase a b p [] e = cc
in_connecting-erase a b p ((c, q) ∷ m) e = elim (Bool-cases (is_same b c)) [
  | inl t ↦ rw t (omega (arith, ap (λ s. one_if (is_same a s)) (is_same-eq b c t)))
  | inr t ↦ rw t (omega (arith, in_connecting-erase a b p m (rw t at e)))
]

pub in_connecting-erase_le :
    (a b : List ℕ) (m : List (List ℕ × Option ℕ)) → in_connecting a (erase b m) ≤ in_connecting a m
unfolding erase
in_connecting-erase_le a b [] = omega arith
in_connecting-erase_le a b ((c, q) ∷ m) = elim (Bool-cases (is_same b c)) [
  | inl t ↦ rw t (omega arith)
  | inr t ↦ rw t (omega (arith, in_connecting-erase_le a b m))
]

pub in_conns-remove :
    (a : List ℕ) (h : List Conn) (p : ℕ) (ps : List ℕ)
    → has p ps ≡ true
    → in_conns a h (remove p ps) + matches a (deref p h) ≡ in_conns a h ps
unfolding has remove
in_conns-remove a h p [] e = absurd (true≢false (sym e))
in_conns-remove a h p (q ∷ ps) e = elim (Bool-cases (p == q)) [
  | inl t ↦ rw t (omega (arith, ap (λ r. matches a (deref r h)) ((==_iff p q).0 t)))
  | inr t ↦ rw t (omega (arith, in_conns-remove a h p ps (rw t at e)))
]

pub in_conns-remove_le :
    (a : List ℕ) (h : List Conn) (p : ℕ) (ps : List ℕ)
    → in_conns a h (remove p ps) ≤ in_conns a h ps
unfolding remove
in_conns-remove_le a h p [] = omega arith
in_conns-remove_le a h p (q ∷ ps) = elim (Bool-cases (p == q)) [
  | inl t ↦ rw t (omega arith)
  | inr t ↦ rw t (omega (arith, in_conns-remove_le a h p ps))
]

pub in_conns-append :
    (a : List ℕ) (h : List Conn) (p : ℕ) (ps : List ℕ)
    → in_conns a h (ps ++ p ∷ []) ≡ in_conns a h ps + matches a (deref p h)
in_conns-append a h p [] = omega arith
in_conns-append a h p (q ∷ ps) = omega (arith, in_conns-append a h p ps)

-- An address that is not found is in neither list.
pub in_connecting-none :
    (a : List ℕ) (m : List (List ℕ × Option ℕ)) → find a m ≡ none → in_connecting a m ≡ 0
unfolding find
in_connecting-none a [] e = refl
in_connecting-none a ((c, q) ∷ m) e = elim (Bool-cases (is_same a c)) [
  | inl t ↦ absurd (none-ne-some _ (sym (rw t at e)))
  | inr t ↦ rw t (omega (arith, in_connecting-none a m (rw t at e)))
]

pub in_conns-none :
    (a : List ℕ) (h : List Conn) (ps : List ℕ) → is_any a h ps ≡ false → in_conns a h ps ≡ 0
unfolding is_any
in_conns-none a h [] e = refl
in_conns-none a h (p ∷ ps) e = elim (Bool-cases (has_addr a (deref p h))) [
  | inl t ↦ absurd (true≢false (rw t at e))
  | inr t ↦ rw t (omega (arith, in_conns-none a h ps (rw t at e)))
]

pub is_same_sym : (s t : List ℕ) → is_same s t ≡ is_same t s
is_same_sym [] [] = refl
is_same_sym [] (y ∷ t) = refl
is_same_sym (x ∷ s) [] = refl
is_same_sym (x ∷ s) (y ∷ t) = ap₂ (λ a b. a && b) (==_sym x y) (is_same_sym s t)
  where
    ==_sym : (x y : ℕ) → (x == y) ≡ (y == x)
    ==_sym x y = ground arith

pub assign-append :
    (b : List ℕ) (p : Option ℕ) (m : List (List ℕ × Option ℕ))
    → find b m ≡ none
    → assign b p m ≡ m ++ (b, p) ∷ []
unfolding find assign
assign-append b p [] e = refl
assign-append b p ((c, q) ∷ m) e = elim (Bool-cases (is_same b c)) [
  | inl t ↦ absurd (none-ne-some _ (sym (rw t at e)))
  | inr t ↦ rw t (ap (λ r. (c, q) ∷ r) (assign-append b p m (rw t at e)))
]

pub erase-All :
    (P : List ℕ × Option ℕ → Type 0) (b : List ℕ) (m : List (List ℕ × Option ℕ))
    → All P m
    → All P (erase b m)
unfolding erase
erase-All P b [] a = a
erase-All P b ((c, q) ∷ m) (x, a) = elim (Bool-cases (is_same b c)) [
  | inl t ↦ rw t a
  | inr t ↦ rw t (x, erase-All P b m a)
]

pub remove-All : (P : ℕ → Type 0) (p : ℕ) (ps : List ℕ) → All P ps → All P (remove p ps)
unfolding remove
remove-All P p [] a = a
remove-All P p (q ∷ ps) (x, a) = elim (Bool-cases (p == q)) [
  | inl t ↦ rw t a
  | inr t ↦ rw t (x, remove-All P p ps a)
]
