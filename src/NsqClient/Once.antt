-- ===== src/NsqClient/Once.antt =====
-- apps/evnsq/client.cc: connections that go from one list of the client to the other.
use mathlib.Core.Bool.{true≢false}
use mathlib.Core.Option.{none-ne-some, some-injective}
use evpp.Base.{
  ℕ, zero, suc, ◌≤◌, ◌≡◌, ◌≢◌, refl, sym, ap, subst, Bool, true, false, ◌||◌, ◌==◌, ==_iff, List,
  [], ◌∷◌, ◌++◌, Option, none, some, length, arith, All, append-All, All_mono, Bool-cases, inl, inr,
}
use evpp.Base.Dictionary.{is_same}
use evpp.NsqClient.{
  Client, ClientType, consumer, producer, Conn, move_found, move_to_connecting_list, on_connected,
  on_status, on_closed, on_connection, handle_lookupd, deref, store, find, assign, erase, has,
  remove, has_addr, is_any, is_found, is_known_nsqd_address, connect_to_nsqd,
}
use evpp.NsqClient
use evpp.NsqClient.Listing.{
  one_if, matches, in_conns, listed, addr_at, Linked, in_connecting-assign, in_connecting-erase,
  in_connecting-erase_le, in_conns-remove, in_conns-remove_le, in_conns-append, is_same_sym,
  assign-append, erase-All, remove-All,
}
use evpp.NsqConn.{NsqConn}

abbrev pub IsValid : List Conn → ℕ → Type 0
IsValid h p = (a : List ℕ) × (addr_at (deref p h) ≡ some a)

-- Each connection keeps its place and its address.
abbrev pub Extends : List Conn → List Conn → Type 0
Extends h g = (p : ℕ) (a : List ℕ) → addr_at (deref p h) ≡ some a → addr_at (deref p g) ≡ some a

pub append-Extends : (h g : List Conn) → Extends h (h ++ g)
unfolding deref
append-Extends [] g p a e = absurd (none-ne-some _ e)
append-Extends (c ∷ h) g zero a e = e
append-Extends (c ∷ h) g (suc p) a e = append-Extends h g p a e

pub store-Extends : (q : ℕ) (n : NsqConn) (h : List Conn) → Extends h (store q n h)
unfolding deref store
store-Extends q n [] p a e = e
store-Extends zero n (c ∷ h) zero a e = e
store-Extends zero n (c ∷ h) (suc p) a e = e
store-Extends (suc q) n (c ∷ h) zero a e = e
store-Extends (suc q) n (c ∷ h) (suc p) a e = store-Extends q n h p a e

pub deref-last : (h : List Conn) (c : Conn) → deref (length h) (h ++ c ∷ []) ≡ some c
unfolding deref
deref-last [] c = refl
deref-last (d ∷ h) c = deref-last h c

pub matches-addr :
    (a b : List ℕ) (o : Option Conn) → addr_at o ≡ some b → matches a o ≡ one_if (is_same b a)
unfolding has_addr
matches-addr a b none e = absurd (none-ne-some _ e)
matches-addr a b (some c) e = ap (λ s. one_if (is_same s a)) (some-injective c.addr b e)

pub in_conns-Extends :
    (a : List ℕ) (h g : List Conn) (ps : List ℕ)
    → Extends h g
    → All (IsValid h) ps
    → in_conns a g ps ≡ in_conns a h ps
in_conns-Extends a h g [] x v = refl
in_conns-Extends a h g (p ∷ ps) x ((b, e), v) = omega (
  arith,
  matches-addr a b (deref p h) e,
  matches-addr a b (deref p g) (x p b e),
  in_conns-Extends a h g ps x v,
)

pub Linked-Extends :
    (h g : List Conn) (e : List ℕ × Option ℕ) → Extends h g → Linked h e → Linked g e
Linked-Extends h g (a, none) x l = l
Linked-Extends h g (a, some p) x l = x p a l

-- No address stands twice in the lists of a client, a pointer in them leads to a connection, and one in
-- the map to a connection with its address.
pub record IsOnce (m : Client) : Type 0 where
  pub once : (a : List ℕ) → listed a m ≤ 1
  pub valid : All (IsValid m.heap) m.conns
  pub linked : All (Linked m.heap) m.connecting_conns

pub extend-IsOnce :
    (g : List Conn) (m : Client) → Extends m.heap g → IsOnce m → IsOnce (record m { heap = g })
extend-IsOnce g m x i = record {
  once = λ a. omega (arith, i.once a, in_conns-Extends a m.heap g m.conns x i.valid);
  valid = All_mono _ _ (λ p (a, e). (a, x p a e)) m.conns i.valid;
  linked = All_mono _ _ (λ e. Linked-Extends m.heap g e x) m.connecting_conns i.linked;
}

-- The connection of a pointer is the one that the map has for its address.
abbrev pub points_to : ℕ → Option (Option ℕ) → Bool
points_to p (some (some q)) = p == q
points_to p _ = false

pub found_at : (p : ℕ) (o : Option (Option ℕ)) → points_to p o ≡ true → o ≡ some (some p)
found_at p none e = absurd (true≢false (sym e))
found_at p (some none) e = absurd (true≢false (sym e))
found_at p (some (some q)) e = ap (λ r. some (some r)) (sym ((==_iff p q).0 e))

pub no_null :
    (h : List Conn) (b : List ℕ) (m : List (List ℕ × Option ℕ))
    → All (Linked h) m
    → find b m ≢ some none
unfolding find
no_null h b [] a e = none-ne-some _ e
no_null h b ((c, q) ∷ m) (l, a) e = elim (Bool-cases (is_same b c)) [
  | inl t ↦ none-ne-some c (unlinked q l (some-injective q none (rw t at e)))
  | inr t ↦ no_null h b m a (rw t at e)
]
  where
    unlinked : (q : Option ℕ) → Linked h (c, q) → q ≡ none → none ≡ some c
    unlinked none l e = l
    unlinked (some q) l e = cc

-- A connection joins `conns_` from the map.
pub joined-IsOnce :
    (p : ℕ) (c : Conn) (m : Client)
    → deref p m.heap ≡ some c
    → points_to p (find c.addr m.connecting_conns) ≡ true
    → IsOnce m
    → IsOnce (NsqClient.joined p c.addr m)
joined-IsOnce p c m e t i = record {
  once = λ a. omega (
    arith,
    i.once a,
    in_conns-append a m.heap p m.conns,
    in_connecting-erase a c.addr (some p) m.connecting_conns (found_at p _ t),
    matches-addr a c.addr (deref p m.heap) (ap addr_at e),
    ap one_if (is_same_sym a c.addr),
  );
  valid = append-All _ m.conns (p ∷ []) i.valid ((c.addr, ap addr_at e), _);
  linked = erase-All _ c.addr m.connecting_conns i.linked;
}

pub on_closed-IsOnce :
    (p : ℕ) (addr : List ℕ) (m : Client) → IsOnce m → IsOnce (on_closed p addr m).0
unfolding on_closed
on_closed-IsOnce p addr m i = record {
  once = λ a. omega (
    arith,
    i.once a,
    in_conns-remove_le a m.heap p m.conns,
    in_connecting-erase_le a addr m.connecting_conns,
  );
  valid = remove-All _ p m.conns i.valid;
  linked = erase-All _ addr m.connecting_conns i.linked;
}

-- A connection of `conns_` goes to the map, which has nothing for its address.
pub moved-IsOnce :
    (p : ℕ) (c : Conn) (m : Client)
    → deref p m.heap ≡ some c
    → find c.addr m.connecting_conns ≡ none
    → has p m.conns ≡ true
    → IsOnce m
    → IsOnce (record m {
      connecting_conns = assign c.addr (some p) m.connecting_conns;
      conns = remove p m.conns;
    })
moved-IsOnce p c m e f t i = record {
  once = λ a. omega (
    arith,
    i.once a,
    in_conns-remove a m.heap p m.conns t,
    in_connecting-assign a c.addr (some p) m.connecting_conns f,
    matches-addr a c.addr (deref p m.heap) (ap addr_at e),
    ap one_if (is_same_sym a c.addr),
  );
  valid = remove-All _ p m.conns i.valid;
  linked =
      subst (All (Linked m.heap)) (sym (assign-append c.addr (some p) m.connecting_conns f))
        (append-All _ m.connecting_conns ((c.addr, some p) ∷ []) i.linked (ap addr_at e, _));
}

pub move-IsOnce :
    (p : ℕ) (c : Conn) (o : Option (Option ℕ)) (m : Client)
    → deref p m.heap ≡ some c
    → find c.addr m.connecting_conns ≡ o
    → (points_to p o || has p m.conns) ≡ true
    → IsOnce m
    → IsOnce (move_found p c.addr o m)
unfolding move_found
move-IsOnce p c (some (some q)) m e f t i = i
move-IsOnce p c (some none) m e f t i = absurd (no_null m.heap c.addr m.connecting_conns i.linked f)
move-IsOnce p c none m e f t i = rw t (moved-IsOnce p c m e f t i)
