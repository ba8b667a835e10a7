-- ===== src/Core/Client/Futures/Cluster.antt =====
-- The commands of `client` on the cluster that give a future (sources/core/client.cpp).
use cpp_redis.Prelude.{Bytes, List, ℤ}
use cpp_redis.Core.Client.Commands.Cluster.{
  cluster_addslots, cluster_count_failure_reports, cluster_countkeysinslot, cluster_delslots,
  cluster_failover, cluster_failover_mode, cluster_forget, cluster_getkeysinslot, cluster_info,
  cluster_keyslot, cluster_meet, cluster_nodes, cluster_replicate, cluster_reset_mode,
  cluster_saveconfig, cluster_set_config_epoch, cluster_setslot, cluster_setslot_node_id,
  cluster_slaves, cluster_slots,
}
use cpp_redis.Core.Client.Futures.{Promised, exec_cmd}

module _ {S : Type 0} where
  abbrev pub cluster_addslots_future : List Bytes → Promised S
  cluster_addslots_future p_slots = exec_cmd (cluster_addslots p_slots)

  abbrev pub cluster_count_failure_reports_future : Bytes → Promised S
  cluster_count_failure_reports_future node_id = exec_cmd (cluster_count_failure_reports node_id)

  abbrev pub cluster_countkeysinslot_future : Bytes → Promised S
  cluster_countkeysinslot_future slot = exec_cmd (cluster_countkeysinslot slot)

  abbrev pub cluster_delslots_future : List Bytes → Promised S
  cluster_delslots_future p_slots = exec_cmd (cluster_delslots p_slots)

  abbrev pub cluster_failover_future : Promised S
  cluster_failover_future = exec_cmd cluster_failover

  abbrev pub cluster_failover_mode_future : Bytes → Promised S
  cluster_failover_mode_future mode = exec_cmd (cluster_failover_mode mode)

  abbrev pub cluster_forget_future : Bytes → Promised S
  cluster_forget_future node_id = exec_cmd (cluster_forget node_id)

  abbrev pub cluster_getkeysinslot_future : Bytes → ℤ → Promised S
  cluster_getkeysinslot_future slot count = exec_cmd (cluster_getkeysinslot slot count)

  abbrev pub cluster_info_future : Promised S
  cluster_info_future = exec_cmd cluster_info

  abbrev pub cluster_keyslot_future : Bytes → Promised S
  cluster_keyslot_future key = exec_cmd (cluster_keyslot key)

  abbrev pub cluster_meet_future : Bytes → ℤ → Promised S
  cluster_meet_future ip port = exec_cmd (cluster_meet ip port)

  abbrev pub cluster_nodes_future : Promised S
  cluster_nodes_future = exec_cmd cluster_nodes

  abbrev pub cluster_replicate_future : Bytes → Promised S
  cluster_replicate_future node_id = exec_cmd (cluster_replicate node_id)

  abbrev pub cluster_reset_mode_future : Bytes → Promised S
  cluster_reset_mode_future mode = exec_cmd (cluster_reset_mode mode)

  abbrev pub cluster_saveconfig_future : Promised S
  cluster_saveconfig_future = exec_cmd cluster_saveconfig

  abbrev pub cluster_set_config_epoch_future : Bytes → Promised S
  cluster_set_config_epoch_future epoch = exec_cmd (cluster_set_config_epoch epoch)

  abbrev pub cluster_setslot_future : Bytes → Bytes → Promised S
  cluster_setslot_future slot mode = exec_cmd (cluster_setslot slot mode)

  abbrev pub cluster_setslot_node_id_future : Bytes → Bytes → Bytes → Promised S
  cluster_setslot_node_id_future slot mode node_id =
      exec_cmd (cluster_setslot_node_id slot mode node_id)

  abbrev pub cluster_slaves_future : Bytes → Promised S
  cluster_slaves_future node_id = exec_cmd (cluster_slaves node_id)

  abbrev pub cluster_slots_future : Promised S
  cluster_slots_future = exec_cmd cluster_slots
