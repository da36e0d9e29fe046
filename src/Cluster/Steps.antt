-- ===== src/Cluster/Steps.antt =====
-- What goroutines do to a cluster, in any order: each of these steps runs under the mutex, or is one
-- operation of the channel.
use transaction_api.Prelude.{ℕ, ◌≤◌, ◌<◌, ◌≡◌, Bool, String, List, ◌++◌, map, length}
use text.Mathlib.Text.{◌==◌ as str_eq}
use transaction_api.Cluster.{
  DatabaseNode, DatabaseCluster, HealthCheckResult, Driver, update_node_status,
}
use transaction_api.Cluster.Monitor.{trigger_failover, send, get_health_status}

module _ {DB W : Type 0} (driver : Driver DB W) where
  pub data Step : DatabaseCluster DB × W → DatabaseCluster DB × W → Type 0 where
    marks :
        (name : String) (active : Bool) (now : ℕ) (c : DatabaseCluster DB) (w : W)
        → Step (c, w) (update_node_status name active now c, w)
    fails_over : (c : DatabaseCluster DB) (w : W) → Step (c, w) (trigger_failover driver c w)
    sends :
        (r : HealthCheckResult) (c : DatabaseCluster DB) (w : W)
        → length c.health_chan < 100
        → Step (c, w) (send r c, w)
    drains : (c : DatabaseCluster DB) (w : W) → Step (c, w) ((get_health_status c).1, w)

  pub data Reaches : DatabaseCluster DB × W → DatabaseCluster DB × W → Type 0 where
    stays : (s : DatabaseCluster DB × W) → Reaches s s
    steps : (s s' t : DatabaseCluster DB × W) → Step s s' → Reaches s' t → Reaches s t

abbrev pub names : List DatabaseNode → List String
names nodes = map (λ n. n.name) nodes

-- The handles never outnumber the nodes, and the channel is no fuller than its room.
abbrev pub WellFormed : {DB : Type 0} → DatabaseCluster DB → Type 0
WellFormed c =
    (length c.slave_dbs ≤ length c.config.slave_nodes)
    × (length c.read_dbs ≤ length c.config.read_replicas)
    × (length c.health_chan ≤ 100)

-- The nodes of the first cluster are in the second one, under the same handles, in the same order.
abbrev pub Extends : {DB : Type 0} → DatabaseCluster DB → DatabaseCluster DB → Type 0
Extends c c' =
    (c'.slave_dbs ≡ c.slave_dbs)
    × (c'.read_dbs ≡ c.read_dbs)
    × (names c'.config.read_replicas ≡ names c.config.read_replicas)
    × (more : List String) × (names c'.config.slave_nodes ≡ names c.config.slave_nodes ++ more)
