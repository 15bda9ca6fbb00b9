-- ===== src/VbucketConfig/Choice.antt =====
-- apps/evmc/vbucket_config.cc: `SelectServerId` on a configuration whose ids are in range.
use evpp.Base.{
  ℕ, zero, suc, ◌+◌, ◌-◌, ◌%◌, ◌^◌, ◌≤◌, ◌<◌, ◌≡◌, ◌⊎◌, refl, sym, ap, ◌∙◌, subst, Bool, true,
  false, ◌||◌, List, [], ◌∷◌, Option, some, ◌==◌, ltb, All, length, get_elem?, arith, inl, inr,
  Bool-cases, Option-cases, ==_refl,
}
use evpp.Base.Decimal.{has}
use evpp.VbucketConfig.{
  VbucketConfig, bad_server_id, upper_bound, store, server_ids, raised, halved, lower_last,
  update_health, selected, select_server_id,
}
use evpp.VbucketConfig.Weights.{
  candidates, total_of, choose, InRange, get_elem?-some, get_elem?-InRange, accumulated,
  weigh-accumulated, upper_bound-choose,
}

-- There is a vbucket, the ids are those of servers and fit 16 bits, and the health is in its range.
pub record IsValid (c : VbucketConfig) : Type 0 where
  pub some_vbucket : 0 < length c.vbucket_map
  pub ids_in_range : All (All (λ id. id < length c.server_health)) c.vbucket_map
  pub few_servers : length c.server_health ≤ 65535
  pub health_in_range : All InRange c.server_health

All-get_elem? :
    (n : ℕ) (m : List (List ℕ)) (i : ℕ)
    → i < length m
    → All (All (λ id. id < n)) m
    → (ids : List ℕ) × (get_elem? m i ≡ some ids) × All (λ id. id < n) ids
All-get_elem? n [] i h a = absurd (omega arith)
All-get_elem? n (ids ∷ m) zero h (r, a) = (ids, refl, r)
All-get_elem? n (ids ∷ m) (suc i) h (r, a) = All-get_elem? n m i (omega arith) a

not_zero : (n : ℕ) → 0 < n → (n == 0) ≡ false
not_zero n h = ground arith

pub server_ids-some :
    (vbucket : ℕ) (c : VbucketConfig)
    → IsValid c
    → (ids : List ℕ) × (server_ids vbucket c ≡ some ids)
      × All (λ id. id < length c.server_health) ids
unfolding server_ids
server_ids-some vbucket c v =
    let (ids, e, a) =
      All-get_elem? (length c.server_health) c.vbucket_map (vbucket % length c.vbucket_map)
        (omega (arith, v.some_vbucket)) v.ids_in_range in
    (ids, rw (not_zero (length c.vbucket_map) v.some_vbucket) e, a)

raised-InRange : (w : ℕ) → InRange w → InRange (raised w)
raised-InRange w (low, high) = ground arith

halved-InRange : (w : ℕ) → InRange w → InRange (halved w)
halved-InRange w (low, high) = ground arith

length-store : (s : List ℕ) (i x : ℕ) → length (store s i x) ≡ length s
length-store [] i x = refl
length-store (y ∷ s) zero x = refl
length-store (y ∷ s) (suc i) x = ap suc (length-store s i x)

store-All : (s : List ℕ) (i x : ℕ) → InRange x → All InRange s → All InRange (store s i x)
store-All [] i x h a = tt
store-All (y ∷ s) zero x h (r, a) = (h, a)
store-All (y ∷ s) (suc i) x h (r, a) = (r, store-All s i x h a)

abbrev Kept : List ℕ → List ℕ → Type 0
Kept health health' = All InRange health' × (length health' ≡ length health)

lower_last-Kept :
    (last_id : ℕ) (health : List ℕ) → All InRange health → Kept health (lower_last last_id health)
unfolding lower_last
lower_last-Kept last_id health a = elim (Option-cases (get_elem? health last_id)) [
  | inl e ↦ rw (e, lower_last) (a, refl)
  | inr (w, e) ↦
      rw (e, lower_last)
        (
          store-All health last_id (halved w)
              (halved-InRange w (get_elem?-InRange health last_id w a e)) a,
          length-store health last_id (halved w),
        )
]

update_health-Kept :
    (id last_id : ℕ) (health : List ℕ)
    → id < length health
    → All InRange health
    → (health' : List ℕ) × (update_health id last_id health ≡ some health') × Kept health health'
unfolding update_health
update_health-Kept id last_id health small a =
    let (w, e) = get_elem?-some health id small in
    let stored =
      store-All health id (raised w) (raised-InRange w (get_elem?-InRange health id w a e)) a in
    let (kept, same) = lower_last-Kept last_id (store health id (raised w)) stored in
    (
      lower_last last_id (store health id (raised w)),
      rw e refl,
      (kept, same ∙ length-store health id (raised w)),
    )

not_less : (x k : ℕ) → ltb x k ≡ false → k ≤ x
not_less x k h = ground arith

low_bits : (id : ℕ) → id ≤ 65535 → id % 2 ^ 16 ≡ id
low_bits id h = omega arith

-- A server to choose, other than the last one
abbrev pub IsChoice : ℕ → ℕ → List ℕ → ℕ → Type 0
IsChoice n last_id ids id = (id < n) × (has id ids ≡ true) × ((id == last_id) ≡ false)

or_true : (b : Bool) → (b || true) ≡ true
or_true true = refl
or_true false = refl

further :
    (n last_id id : ℕ) (ids : List ℕ) (k : ℕ)
    → IsChoice n last_id ids k
    → IsChoice n last_id (id ∷ ids) k
further n last_id id ids k (small, h, other) =
    (small, ap (λ b. (id == k) || b) h ∙ or_true (id == k), other)

-- What is chosen from a list of candidates
abbrev Found : ℕ → ℕ → List ℕ → ℕ → List (ℕ × ℕ) → Type 0
Found n last_id ids x cs = (id : ℕ) × (choose x cs ≡ some id) × IsChoice n last_id ids id

choose-IsChoice :
    (health : List ℕ) (last_id : ℕ) (ids : List ℕ) (x : ℕ)
    → length health ≤ 65535
    → All (λ id. id < length health) ids
    → x < total_of (candidates health last_id ids)
    → Found (length health) last_id ids x (candidates health last_id ids)
choose-IsChoice health last_id [] x n a h = absurd (omega arith)
choose-IsChoice health last_id (id ∷ ids) x n (small, a) h = elim (Bool-cases (id == last_id)) [
  | inl e ↦
      let same : candidates health last_id (id ∷ ids) ≡ candidates health last_id ids = rw e refl in
      subst (Found (length health) last_id (id ∷ ids) x) (sym same) (
        let (k, c, choice) =
          choose-IsChoice health last_id ids x n a (subst (λ cs. x < total_of cs) same h) in
        (k, c, further (length health) last_id id ids k choice))
  | inr e ↦
      let (w, g) = get_elem?-some health id small in
      let same : candidates health last_id (id ∷ ids) ≡ (id, w) ∷ candidates health last_id ids =
        rw e rw g refl in
      subst (Found (length health) last_id (id ∷ ids) x) (sym same) (
        first_or_later w e (subst (λ cs. x < total_of cs) same h)
          (choose-IsChoice health last_id ids (x - w) n a) (Bool-cases (ltb x w)))
]
  where
    first_or_later :
        (w : ℕ)
        → (id == last_id) ≡ false
        → x < w + total_of (candidates health last_id ids)
        → (x - w < total_of (candidates health last_id ids)
            → Found (length health) last_id ids (x - w) (candidates health last_id ids))
        → (ltb x w ≡ true) ⊎ (ltb x w ≡ false)
        → Found (length health) last_id (id ∷ ids) x ((id, w) ∷ candidates health last_id ids)
    first_or_later w e h later (inl l) = (
      id,
      rw l (ap some (low_bits id (omega arith))),
      (small, ap (λ b. b || has id ids) (==_refl id), e),
    )
    first_or_later w e h later (inr l) =
        let (k, c, choice) = later (omega (arith, not_less x w l)) in
        (k, rw l c, further (length health) last_id id ids k choice)

-- How `SelectServerId` ends: there is no server but the last one, or one is chosen by weight.
abbrev pub IsSelected : ℕ → ℕ → List ℕ → VbucketConfig → ℕ → VbucketConfig → Type 0
IsSelected random last_id ids c id c' =
    ((id ≡ bad_server_id) × (c' ≡ c) × (total_of (candidates c.server_health last_id ids) ≡ 0))
    ⊎ (IsChoice (length c.server_health) last_id ids id
        × (choose (random % total_of (candidates c.server_health last_id ids))
              (candidates c.server_health last_id ids)
            ≡ some id))

upper_bound-start : (x : ℕ) (cs : List (ℕ × ℕ)) → upper_bound x (accumulated 0 cs) ≡ choose x cs
upper_bound-start x cs =
    upper_bound-choose x 0 cs (omega arith) ∙ ap (λ k. choose k cs) (omega arith)

abbrev pub Selects : ℕ → ℕ → List ℕ → VbucketConfig → Option (ℕ × VbucketConfig) → Type 0
Selects random last_id ids c o =
    (id : ℕ) × (c' : VbucketConfig) × (o ≡ some (id, c'))
    × IsValid c'
    × IsSelected random last_id ids c id c'

selected-Selects :
    (random last_id : ℕ) (ids : List ℕ) (c : VbucketConfig) (total : ℕ)
    → IsValid c
    → All (λ id. id < length c.server_health) ids
    → total_of (candidates c.server_health last_id ids) ≡ total
    → Selects random last_id ids c
        (selected random last_id c (total, accumulated 0 (candidates c.server_health last_id ids)))
unfolding selected
selected-Selects random last_id ids c zero v a e = (bad_server_id, c, refl, v, inl (refl, refl, e))
selected-Selects random last_id ids c (suc total) v a e =
    let (id, chosen, choice) =
      choose-IsChoice c.server_health last_id ids (random % suc total) v.few_servers a
        (omega (arith, e)) in
    let (health, updated, kept) =
      update_health-Kept id last_id c.server_health choice.0 v.health_in_range in
    (
      id,
      record c { server_health = health },
      rw (upper_bound-start (random % suc total) (candidates c.server_health last_id ids) ∙ chosen)
          rw updated refl,
      record {
        some_vbucket = v.some_vbucket;
        ids_in_range =
            subst (λ n. All (All (λ k. k < n)) c.vbucket_map) (sym kept.1) v.ids_in_range;
        few_servers = omega (arith, kept.1, v.few_servers);
        health_in_range = kept.0;
      },
      inr (
        choice,
        ap (λ t. choose (random % t) (candidates c.server_health last_id ids)) e ∙ chosen,
      ),
    )

-- `SelectServerId` on a valid configuration neither leaves a vector nor divides by zero, whatever
-- the random number, the vbucket and the last server are, and keeps the configuration valid. If
-- the vbucket has a server other than the last one, it returns one of them, the one on whose weight
-- the random number falls modulo their total; if not, BAD_SERVER_ID, and changes nothing.
pub select_server_id_lem :
    (random vbucket last_id : ℕ) (c : VbucketConfig)
    → IsValid c
    → (ids : List ℕ) × (server_ids vbucket c ≡ some ids)
      × Selects random last_id ids c (select_server_id random vbucket last_id c)
unfolding select_server_id
select_server_id_lem random vbucket last_id c v =
    let (ids, e, a) = server_ids-some vbucket c v in
    (
      ids,
      e,
      rw e rw (weigh-accumulated c.server_health last_id ids 0 [] v.health_in_range a tt) (
          selected-Selects random last_id ids c
            (0 + total_of (candidates c.server_health last_id ids)) v a (omega arith)),
    )
