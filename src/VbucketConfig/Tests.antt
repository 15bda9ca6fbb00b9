-- ===== src/VbucketConfig/Tests.antt =====
-- The theorem about apps/evmc/vbucket_config.cc at a cluster of three servers.
use evpp.Base.{ℕ, ◌≡◌, List, [], ◌∷◌, some, arith}
use evpp.VbucketConfig.{VbucketConfig, server_ids, select_server_id}
use evpp.VbucketConfig.Choice.{IsValid, Selects, select_server_id_lem}

abbrev cluster : VbucketConfig
cluster = record {
  server_health = 1000 ∷ 500 ∷ 100 ∷ [];
  vbucket_map = (0 ∷ 1 ∷ 2 ∷ []) ∷ (2 ∷ 0 ∷ 1 ∷ []) ∷ [];
}

cluster-IsValid : IsValid cluster
cluster-IsValid = record {
  some_vbucket = omega arith;
  ids_in_range = (
    (omega arith, (omega arith, (omega arith, tt))),
    ((omega arith, (omega arith, (omega arith, tt))), tt),
  );
  few_servers = omega arith;
  health_in_range =
      ((omega arith, omega arith), ((omega arith, omega arith), ((omega arith, omega arith), tt)));
}

select_server_id_lem_example :
    (ids : List ℕ) × (server_ids 5 cluster ≡ some ids)
    × Selects 4242 0 ids cluster (select_server_id 4242 5 0 cluster)
select_server_id_lem_example = select_server_id_lem 4242 5 0 cluster cluster-IsValid
