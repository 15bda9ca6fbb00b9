-- ===== src/VbucketConfig.antt =====
-- apps/evmc/vbucket_config.h and vbucket_config.cc: the choice of a memcached server by weights. The
-- ids of servers are what they are as `size_t`; `none` is an access outside a vector, or a division
-- by zero. The random number and the digest of a key are arguments.
pub mod Weights
pub mod Choice
mod Tests
use evpp.Base.{
  ℕ, zero, suc, ◌+◌, ◌/◌, ◌%◌, ◌^◌, Bool, true, false, List, [], ◌∷◌, Option, none, some, ◌==◌,
  ◌||◌, ◌>>=◌, if◌then◌else◌, leb, ltb, length, get_elem?, replicate,
}

abbrev pub bad_server_id : ℕ
bad_server_id = 65535

abbrev pub init_weight : ℕ
init_weight = 1000

abbrev pub max_weight : ℕ
max_weight = 1000000

abbrev pub min_weight : ℕ
min_weight = 100

pub record VbucketConfig : Type 0 where
  pub server_health : List ℕ
  pub vbucket_map : List (List ℕ)

-- `Load`, of the number of servers and the map that the document has
pub load : ℕ → List (List ℕ) → VbucketConfig
load servers vbuckets = record {
  server_health = replicate servers init_weight;
  vbucket_map = vbuckets;
}

-- `vbucket_map_[vbucket % vbucket_map_.size()]`
pub server_ids : ℕ → VbucketConfig → Option (List ℕ)
server_ids vbucket c =
    if length c.vbucket_map == 0
    then none
    else get_elem? c.vbucket_map (vbucket % length c.vbucket_map)

-- `SelectServerFirstId`
pub select_server_first_id : ℕ → VbucketConfig → Option ℕ
select_server_first_id vbucket c =
    server_ids vbucket c >>= λ ids. get_elem? ids 0 >>= λ id. some (id % 2 ^ 16)

-- `GetVbucketByKey`
pub get_vbucket_by_key : ℕ → VbucketConfig → Option ℕ
get_vbucket_by_key digest c =
    if length c.vbucket_map == 0 then none else some (digest % length c.vbucket_map % 2 ^ 16)

-- `weighted_items[total] = id`: the totals never go down, so a new key comes last.
abbrev pub assign : ℕ → ℕ → List (ℕ × ℕ) → List (ℕ × ℕ)
assign total id [] = (total, id) ∷ []
assign total id ((k, v) ∷ items) =
    if k == total then (k, id) ∷ items else (k, v) ∷ assign total id items

-- The loop of `SelectServerId`
pub weigh : List ℕ → ℕ → List ℕ → ℕ → List (ℕ × ℕ) → Option (ℕ × List (ℕ × ℕ))
weigh health last_id [] total items = some (total, items)
weigh health last_id (id ∷ ids) total items =
    if id == last_id
    then weigh health last_id ids total items
    else (get_elem? health id >>= λ w.
        weigh health last_id ids (total + w) (assign (total + w) (id % 2 ^ 16) items))

-- `upper_bound`; `none` is the end of the map.
abbrev pub upper_bound : ℕ → List (ℕ × ℕ) → Option ℕ
upper_bound x [] = none
upper_bound x ((k, v) ∷ items) = if ltb x k then some v else upper_bound x items

-- `v[i] = x`
abbrev pub store : List ℕ → ℕ → ℕ → List ℕ
store [] i x = []
store (y ∷ s) zero x = x ∷ s
store (y ∷ s) (suc i) x = y ∷ store s i x

abbrev pub raised : ℕ → ℕ
raised w = if ltb max_weight (w + 1000) then max_weight else w + 1000

abbrev pub halved : ℕ → ℕ
halved w = if leb (w / 2) min_weight then 100 else w / 2

-- The part of `SelectServerId` that changes the health of the last server
pub lower_last : ℕ → List ℕ → List ℕ
lower_last last_id health = elim (get_elem? health last_id) [
  | none ↦ health
  | some w ↦ store health last_id (halved w)
]

-- The health of the servers after one is selected
pub update_health : ℕ → ℕ → List ℕ → Option (List ℕ)
update_health id last_id health =
    get_elem? health id >>= λ w. some (lower_last last_id (store health id (raised w)))

pub selected : ℕ → ℕ → VbucketConfig → ℕ × List (ℕ × ℕ) → Option (ℕ × VbucketConfig)
selected random last_id c (zero, items) = some (bad_server_id, c)
selected random last_id c (suc total, items) = upper_bound (random % suc total) items >>= λ id.
    update_health id last_id c.server_health >>= λ health.
    some (id, record c { server_health = health })

-- `SelectServerId`
pub select_server_id : ℕ → ℕ → ℕ → VbucketConfig → Option (ℕ × VbucketConfig)
select_server_id random vbucket last_id c = server_ids vbucket c >>= λ ids.
    weigh c.server_health last_id ids 0 [] >>= λ w. selected random last_id c w

-- `IsStandAlone`: a colon and no slash.
pub is_stand_alone : Bool → List ℕ → Bool
is_stand_alone has_semicolon [] = has_semicolon
is_stand_alone has_semicolon (c ∷ s) =
    let rest = is_stand_alone (has_semicolon || (c == b':')) s in if c == b'/' then false else rest
