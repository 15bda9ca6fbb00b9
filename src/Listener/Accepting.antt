-- ===== src/Listener/Accepting.antt =====
-- evpp/listener.cc: what becomes of the descriptors that `accept` gives.
use evpp.Base.{
  ℕ, ◌≤◌, Bool, false, length, length-append, arith, ◌≡◌, refl, true, List, [], ◌∷◌, ◌++◌, Option,
  none, some, Bool-cases, inl, inr, ap, ◌∙◌,
}
use evpp.Sockets.{Family, Pton, to_ip_port}
use evpp.Listener.{
  Listener, Client, Effect, closes, hands_over, named, handle_accept, handle_accepts,
}

-- The descriptors of the clients, and of the effects
abbrev pub fds_of : List (Option Client) → List ℕ
fds_of [] = []
fds_of (none ∷ cs) = fds_of cs
fds_of (some c ∷ cs) = c.fd ∷ fds_of cs

abbrev pub descriptors : List Effect → List ℕ
descriptors [] = []
descriptors (closes fd ∷ es) = fd ∷ descriptors es
descriptors (hands_over fd raddr ∷ es) = fd ∷ descriptors es

descriptors-named :
    (pton : Family → List ℕ → Pton) (ntop : Family → List ℕ → Option (List ℕ)) (fd : ℕ)
    (raddr : List ℕ) (es : List Effect)
    → descriptors (named pton ntop true fd raddr ++ es) ≡ fd ∷ descriptors es
unfolding named
descriptors-named pton ntop fd [] es = refl
descriptors-named pton ntop fd (c ∷ raddr) es = refl

descriptors-handle :
    (pton : Family → List ℕ → Pton) (ntop : Family → List ℕ → Option (List ℕ)) (l : Listener)
    (c : Option Client) (cs : List (Option Client)) (es : List Effect)
    → l.new_conn_fn ≡ true
    → descriptors es ≡ fds_of cs
    → descriptors (handle_accept pton ntop l c ++ es) ≡ fds_of (c ∷ cs)
unfolding handle_accept
descriptors-handle pton ntop l none cs es f h = h
descriptors-handle pton ntop l (some c) cs es f h = elim (Bool-cases c.nonblocking) [
  | inl e ↦ rw e (
      rw f
        (descriptors-named pton ntop c.fd (to_ip_port pton ntop c.addr) es ∙ ap (λ s. c.fd ∷ s) h))
  | inr e ↦ rw e (ap (λ s. c.fd ∷ s) h)
]

-- An event has one effect at most.
module _ (pton : Family → List ℕ → Pton) (ntop : Family → List ℕ → Option (List ℕ)) where
  named_le : (b : Bool) (fd : ℕ) (raddr : List ℕ) → length (named pton ntop b fd raddr) ≤ 1
  unfolding named
  named_le b fd [] = omega arith
  named_le true fd (c ∷ raddr) = omega arith
  named_le false fd (c ∷ raddr) = omega arith

  handle_le : (l : Listener) (c : Option Client) → length (handle_accept pton ntop l c) ≤ 1
  unfolding handle_accept
  handle_le l none = omega arith
  handle_le l (some c) = elim (Bool-cases c.nonblocking) [
    | inl e ↦ rw e (named_le l.new_conn_fn c.fd (to_ip_port pton ntop c.addr))
    | inr e ↦ rw e (omega arith)
  ]

  pub accepts_le :
      (l : Listener) (cs : List (Option Client))
      → length (handle_accepts pton ntop l cs) ≤ length cs
  unfolding handle_accepts
  accepts_le l [] = omega arith
  accepts_le l (c ∷ cs) = omega (
    arith,
    handle_le l c,
    accepts_le l cs,
    length-append (handle_accept pton ntop l c) (handle_accepts pton ntop l cs),
  )

-- A listener with a callback loses no descriptor: whatever accept, the addresses and the system calls
-- are, each descriptor that accept gives is closed or handed over, once and in order.
pub descriptors-handle_accepts :
    (pton : Family → List ℕ → Pton) (ntop : Family → List ℕ → Option (List ℕ)) (l : Listener)
    (cs : List (Option Client))
    → l.new_conn_fn ≡ true
    → descriptors (handle_accepts pton ntop l cs) ≡ fds_of cs
unfolding handle_accepts
descriptors-handle_accepts pton ntop l [] f = refl
descriptors-handle_accepts pton ntop l (c ∷ cs) f =
    descriptors-handle pton ntop l c cs (handle_accepts pton ntop l cs) f
      (descriptors-handle_accepts pton ntop l cs f)
