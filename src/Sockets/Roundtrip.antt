-- ===== src/Sockets/Roundtrip.antt =====
-- evpp/sockets.cc: `ParseFromIPPort` against `ToIPPort` and `ToIP`.
use evpp.Base.{
  ℕ, ◌+◌, ◌<◌, ◌≤◌, ◌≡◌, refl, sym, ap, ap₂, ◌∙◌, true, false, List, [], ◌∷◌, ◌++◌, some, Option,
  is_none, ◌==◌, length, drop, replicate, arith,
}
use mathlib.Core.Bool.{true≢false}
use evpp.Base.Memory.{window, patch, window-patch, window-patch_after, window-add, drop-window}
use evpp.Base.Decimal.{pos, has}
use evpp.Sockets.{
  last_byte, first_byte, Family, inet, inet6, Pton, address, htons, ntohs, family_bytes, family_of,
  empty_storage, filled, parsed, parse_from_ip_port, to_ip_port, to_ip, or_empty, with_port,
  bracketed,
}
use evpp.Sockets.Splitting.{joined, split_host_port_lem}

-- What `ParseFromIPPort` leaves for a family, a port and the bytes of an address.
abbrev pub stored : Family → ℕ → List ℕ → List ℕ
stored f port a = patch (patch (patch empty_storage 4 a) 0 (family_bytes f)) 2 (htons (pos port))

ntohs-htons : (port : ℕ) → port < 65536 → ntohs (htons (pos port)) ≡ port
ntohs-htons port h = omega arith

stored-window :
    (f : Family) (port : ℕ) (a : List ℕ) (i n : ℕ)
    → 4 < i + 1
    → window (stored f port a) i n ≡ window (patch empty_storage 4 a) i n
stored-window f port a i n h =
    window-patch_after _ 2 (htons (pos port)) i n (omega arith)
    ∙ window-patch_after _ 0 (family_bytes f) i n (early f)
  where
    early : (f : Family) → 0 + length (family_bytes f) ≤ i
    early inet = omega arith
    early inet6 = omega arith

-- The last four bytes of an IPv6 address lie behind what `ToIPPort` reads.
stored-inet6 :
    (port : ℕ) (a : List ℕ)
    → length a ≡ 16
    → window (stored inet6 port a) 8 16 ≡ drop 4 a ++ replicate 4 0
stored-inet6 port a l =
    stored-window inet6 port a 8 16 (omega arith)
    ∙ window-add (patch empty_storage 4 a) 8 12 4
    ∙ ap₂ (◌++◌)
        (sym (drop-window (patch empty_storage 4 a) 4 16 4)
          ∙ ap (drop 4) (
              ap (window (patch empty_storage 4 a) 4) (sym l)
              ∙ window-patch empty_storage 4 a (omega arith)))
        (window-patch_after empty_storage 4 a 20 4 (omega arith))

stored-inet : (port : ℕ) (a : List ℕ) → length a ≡ 4 → window (stored inet port a) 4 4 ≡ a
stored-inet port a l =
    stored-window inet port a 4 4 (omega arith)
    ∙ ap (window (patch empty_storage 4 a) 4) (sym l)
    ∙ window-patch empty_storage 4 a (omega arith)

module _ (pton : Family → List ℕ → Pton) (ntop : Family → List ℕ → Option (List ℕ)) where
  parse-stored :
      (h : List ℕ) (c port : ℕ) (a : List ℕ)
      → last_byte h ≡ some c
      → (c == b']') ≡ false
      → (first_byte h == b'[') ≡ false
      → port < 65536
      → pton (family_of h) h ≡ address a
      → (parse_from_ip_port pton ntop (joined h port) ≡ some (true, stored (family_of h) port a))
        × (parse_from_ip_port pton ntop (joined (b'[' ∷ h ++ b']' ∷ []) port)
            ≡ some (true, stored (family_of h) port a))
  unfolding parse_from_ip_port parsed filled
  parse-stored h c port a e n m small p =
      let (q, r) = split_host_port_lem h c port e n m (omega arith) in
      (rw q rw p refl, rw r rw p refl)

  with_port-joined :
      (h : List ℕ) (c port : ℕ)
      → last_byte h ≡ some c
      → with_port pton ntop port (some h) ≡ joined h port
  unfolding with_port last_byte
  with_port-joined [] c port e = absurd (true≢false (ap is_none e))
  with_port-joined (x ∷ s) c port e = refl

  -- `ToIPPort` gives back the text "host:port" of an IPv4 address that `ParseFromIPPort` has read,
  -- and `ToIP` its host, if inet_ntop undoes inet_pton there and the port fits 16 bits.
  pub to_ip_port-parse :
      (h : List ℕ) (c port : ℕ) (a : List ℕ)
      → last_byte h ≡ some c
      → (c == b']') ≡ false
      → (first_byte h == b'[') ≡ false
      → has b':' h ≡ false
      → port < 65536
      → pton inet h ≡ address a
      → ntop inet a ≡ some h
      → length a ≡ 4
      → (parse_from_ip_port pton ntop (joined h port) ≡ some (true, stored inet port a))
        × (to_ip_port pton ntop (stored inet port a) ≡ joined h port)
        × (to_ip pton ntop (stored inet port a) ≡ h)
  unfolding to_ip_port to_ip or_empty patch
  to_ip_port-parse h c port a e n m colon small p q l = (
    parsed_as_stored,
    ap₂ (with_port pton ntop) (ntohs-htons port small) text ∙ with_port-joined h c port e,
    ap (or_empty pton ntop) text,
  )
    where
      f : family_of h ≡ inet
      f = rw colon refl

      parsed_as_stored :
          parse_from_ip_port pton ntop (joined h port) ≡ some (true, stored inet port a)
      parsed_as_stored =
          (parse-stored h c port a e n m small (ap (λ k. pton k h) f ∙ p)).0
          ∙ ap (λ k. some (true, stored k port a)) f

      text : ntop inet (window (stored inet port a) 4 4) ≡ some h
      text = ap (ntop inet) (stored-inet port a l) ∙ q

  -- Of an IPv6 address that `ParseFromIPPort` has read, `ToIPPort` and `ToIP` hand inet_ntop the
  -- bytes from the fifth on and four zeros.
  pub to_ip_port-parse_inet6 :
      (h : List ℕ) (c port : ℕ) (a : List ℕ)
      → last_byte h ≡ some c
      → (c == b']') ≡ false
      → (first_byte h == b'[') ≡ false
      → has b':' h ≡ true
      → port < 65536
      → pton inet6 h ≡ address a
      → length a ≡ 16
      → let ss : List ℕ = stored inet6 port a in
        let read : Option (List ℕ) = ntop inet6 (drop 4 a ++ replicate 4 0) in
        (parse_from_ip_port pton ntop (joined (b'[' ∷ h ++ b']' ∷ []) port) ≡ some (true, ss))
        × (to_ip_port pton ntop ss ≡ with_port pton ntop port (bracketed pton ntop read))
        × (to_ip pton ntop ss ≡ or_empty pton ntop read)
  unfolding to_ip_port to_ip patch
  to_ip_port-parse_inet6 h c port a e n m colon small p l = (
    (parse-stored h c port a e n m small (ap (λ k. pton k h) f ∙ p)).1
        ∙ ap (λ k. some (true, stored k port a)) f,
    ap₂ (λ q t. with_port pton ntop q (bracketed pton ntop t)) (ntohs-htons port small) text,
    ap (or_empty pton ntop) text,
  )
    where
      f : family_of h ≡ inet6
      f = rw colon refl

      text : ntop inet6 (window (stored inet6 port a) 8 16) ≡ ntop inet6 (drop 4 a ++ replicate 4 0)
      text = ap (ntop inet6) (stored-inet6 port a l)
