-- ===== src/Core/Client/Commands/Cluster.antt =====
-- The commands of `client` on the cluster (sources/core/client.cpp).
use cpp_redis.Prelude.{Bytes, List, [], codes, int_to_string, ℤ, ◌∷◌}
use cpp_redis.Core.Client.{Client, Callback, send}

module _ {S : Type 0} where
  unfoldable pub cluster_addslots : List Bytes → Callback → Client S → Client S
  unfolding send
  cluster_addslots p_slots callback c =
      send (codes "CLUSTER" ∷ codes "ADDSLOTS" ∷ p_slots) callback c

  unfoldable pub cluster_count_failure_reports : Bytes → Callback → Client S → Client S
  unfolding send
  cluster_count_failure_reports node_id callback c =
      send (codes "CLUSTER" ∷ codes "COUNT-FAILURE-REPORTS" ∷ node_id ∷ []) callback c

  unfoldable pub cluster_countkeysinslot : Bytes → Callback → Client S → Client S
  unfolding send
  cluster_countkeysinslot slot callback c =
      send (codes "CLUSTER" ∷ codes "COUNTKEYSINSLOT" ∷ slot ∷ []) callback c

  unfoldable pub cluster_delslots : List Bytes → Callback → Client S → Client S
  unfolding send
  cluster_delslots p_slots callback c =
      send (codes "CLUSTER" ∷ codes "DELSLOTS" ∷ p_slots) callback c

  unfoldable pub cluster_failover : Callback → Client S → Client S
  unfolding send
  cluster_failover callback c = send (codes "CLUSTER" ∷ codes "FAILOVER" ∷ []) callback c

  unfoldable pub cluster_failover_mode : Bytes → Callback → Client S → Client S
  unfolding send
  cluster_failover_mode mode callback c =
      send (codes "CLUSTER" ∷ codes "FAILOVER" ∷ mode ∷ []) callback c

  unfoldable pub cluster_forget : Bytes → Callback → Client S → Client S
  unfolding send
  cluster_forget node_id callback c =
      send (codes "CLUSTER" ∷ codes "FORGET" ∷ node_id ∷ []) callback c

  unfoldable pub cluster_getkeysinslot : Bytes → ℤ → Callback → Client S → Client S
  unfolding send
  cluster_getkeysinslot slot count callback c =
      send (codes "CLUSTER" ∷ codes "GETKEYSINSLOT" ∷ slot ∷ int_to_string count ∷ []) callback c

  unfoldable pub cluster_info : Callback → Client S → Client S
  unfolding send
  cluster_info callback c = send (codes "CLUSTER" ∷ codes "INFO" ∷ []) callback c

  unfoldable pub cluster_keyslot : Bytes → Callback → Client S → Client S
  unfolding send
  cluster_keyslot key callback c = send (codes "CLUSTER" ∷ codes "KEYSLOT" ∷ key ∷ []) callback c

  unfoldable pub cluster_meet : Bytes → ℤ → Callback → Client S → Client S
  unfolding send
  cluster_meet ip port callback c =
      send (codes "CLUSTER" ∷ codes "MEET" ∷ ip ∷ int_to_string port ∷ []) callback c

  unfoldable pub cluster_nodes : Callback → Client S → Client S
  unfolding send
  cluster_nodes callback c = send (codes "CLUSTER" ∷ codes "NODES" ∷ []) callback c

  unfoldable pub cluster_replicate : Bytes → Callback → Client S → Client S
  unfolding send
  cluster_replicate node_id callback c =
      send (codes "CLUSTER" ∷ codes "REPLICATE" ∷ node_id ∷ []) callback c

  unfoldable pub cluster_reset : Callback → Client S → Client S
  unfolding send
  cluster_reset callback c = send (codes "CLUSTER" ∷ codes "RESET" ∷ []) callback c

  unfoldable pub cluster_reset_mode : Bytes → Callback → Client S → Client S
  unfolding send
  cluster_reset_mode mode callback c = send (codes "CLUSTER" ∷ codes "RESET" ∷ mode ∷ []) callback c

  unfoldable pub cluster_saveconfig : Callback → Client S → Client S
  unfolding send
  cluster_saveconfig callback c = send (codes "CLUSTER" ∷ codes "SAVECONFIG" ∷ []) callback c

  unfoldable pub cluster_set_config_epoch : Bytes → Callback → Client S → Client S
  unfolding send
  cluster_set_config_epoch epoch callback c =
      send (codes "CLUSTER" ∷ codes "SET-CONFIG-EPOCH" ∷ epoch ∷ []) callback c

  unfoldable pub cluster_setslot : Bytes → Bytes → Callback → Client S → Client S
  unfolding send
  cluster_setslot slot mode callback c =
      send (codes "CLUSTER" ∷ codes "SETSLOT" ∷ slot ∷ mode ∷ []) callback c

  unfoldable pub cluster_setslot_node_id : Bytes → Bytes → Bytes → Callback → Client S → Client S
  unfolding send
  cluster_setslot_node_id slot mode node_id callback c =
      send (codes "CLUSTER" ∷ codes "SETSLOT" ∷ slot ∷ mode ∷ node_id ∷ []) callback c

  unfoldable pub cluster_slaves : Bytes → Callback → Client S → Client S
  unfolding send
  cluster_slaves node_id callback c =
      send (codes "CLUSTER" ∷ codes "SLAVES" ∷ node_id ∷ []) callback c

  unfoldable pub cluster_slots : Callback → Client S → Client S
  unfolding send
  cluster_slots callback c = send (codes "CLUSTER" ∷ codes "SLOTS" ∷ []) callback c
