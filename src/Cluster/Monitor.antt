-- ===== src/Cluster/Monitor.antt =====
-- pkg/database/replication.go: health checks, failover, and what the cluster reports.
use transaction_api.Prelude.{
  ℕ, ◌+◌, ℤ, pos, ltb_ℤ, ltb, Bool, true, false, ◌&&◌, Option, none, some, Result, ok, err, String,
  List, [], ◌∷◌, ◌++◌, length, if◌then◌else◌,
}
use text.Mathlib.Text.{◌==◌ as str_eq}
use transaction_api.Cluster.{
  DatabaseNode, DatabaseCluster, HealthCheckResult, healthy, unhealthy, Driver, connect_to_node,
  update_node_status,
}

abbrev pub better : Option DatabaseNode → DatabaseNode → Bool
better none node = node.is_active
better (some best) node = node.is_active && ltb_ℤ best.weight node.weight

-- The loop of `triggerFailover`, from the best slave so far.
unfoldable pub best_from : Option DatabaseNode → List DatabaseNode → Option DatabaseNode
best_from best [] = best
best_from best (node ∷ nodes) = best_from (if better best node then some node else best) nodes

abbrev pub or_kept : {DB : Type 0} → DB → Result String DB → DB
or_kept db (ok db') = db'
or_kept db (err _) = db

module _ {DB W : Type 0} (driver : Driver DB W) where
  -- The slave stays in the list of slaves, and the old master joins them.
  unfoldable pub promote : DatabaseNode → DatabaseCluster DB → W → DatabaseCluster DB × W
  promote best c w =
      let old = c.config.master_node in
      let master = record best { role = "master" } in
      let promoted = record c.config { master_node = master } in
      let (connected, w') = connect_to_node driver promoted master w in
      (
        record c {
          config = record promoted {
            slave_nodes = c.config.slave_nodes ++ record old { role = "slave" } ∷ [];
          };
          master_db = or_kept c.master_db connected;
        },
        w',
      )

  abbrev pub promoted_to : Option DatabaseNode → DatabaseCluster DB → W → DatabaseCluster DB × W
  promoted_to none c w = (c, w)
  promoted_to (some best) c w = promote best c w

  unfoldable pub trigger_failover : DatabaseCluster DB → W → DatabaseCluster DB × W
  unfolding best_from promote
  trigger_failover c w = promoted_to (best_from none c.config.slave_nodes) c w

-- The node type that `performHealthCheck` gives a check.
pub data NodeType : Type 0 where
  master slave read_replica : NodeType

-- What a check finds: the error of `db.DB()`, that of the ping, the latency, and the time at which
-- the status is written.
pub record Probe : Type 0 where
  pub handle_error : Option String
  pub ping_error : Option String
  pub latency : ℤ
  pub now : ℕ

-- The channel is made with room for 100 results.
abbrev pub has_room : {DB : Type 0} → DatabaseCluster DB → Bool
has_room c = ltb (length c.health_chan) 100

abbrev pub refused : DatabaseNode → String → HealthCheckResult
refused node e = record { node = node; status = unhealthy; error = some e; latency = pos 0 }

abbrev pub send : {DB : Type 0} → HealthCheckResult → DatabaseCluster DB → DatabaseCluster DB
send r c = record c { health_chan = c.health_chan ++ r ∷ [] }

-- The send in a `select` with a default: a result that finds no room is dropped.
abbrev pub offer : {DB : Type 0} → HealthCheckResult → DatabaseCluster DB → DatabaseCluster DB
offer r c = if has_room c then send r c else c

abbrev pub is_master : NodeType → Bool
is_master master = true
is_master _ = false

module _ {DB W : Type 0} (driver : Driver DB W) where
  abbrev pub fail_over : NodeType → DatabaseCluster DB × W → DatabaseCluster DB × W
  unfolding trigger_failover
  fail_over kind (c, w) =
      if c.config.failover_enabled && is_master kind then trigger_failover driver c w else (c, w)

  unfoldable pub pinged :
      Probe → DatabaseNode → NodeType → DatabaseCluster DB → W → DatabaseCluster DB × W
  unfolding update_node_status trigger_failover
  pinged probe node kind c w = elim probe.ping_error [
    | some e ↦
        (let (c', w') = fail_over kind (update_node_status node.name false probe.now c, w) in
          (
            offer
                (record {
                  node = node;
                  status = unhealthy;
                  error = some e;
                  latency = probe.latency;
                })
                c',
            w',
          ))
    | none ↦ (
      offer (record { node = node; status = healthy; error = none; latency = probe.latency })
          (update_node_status node.name true probe.now c),
      w,
    )
  ]

  -- `none` when the check waits: where the handle has an error the send has no default.
  unfoldable pub check_node_health :
      Probe → DatabaseNode → NodeType → DatabaseCluster DB → W → Option (DatabaseCluster DB × W)
  unfolding pinged
  check_node_health probe node kind c w = elim probe.handle_error [
    | some e ↦ if has_room c then some (send (refused node e) c, w) else none
    | none ↦ some (pinged probe node kind c w)
  ]

-- The nodes of a list that have a handle at their position.
abbrev pub with_handle :
    {DB : Type 0} → NodeType → List DatabaseNode → List DB → List (DatabaseNode × NodeType)
with_handle kind [] dbs = []
with_handle kind (node ∷ nodes) [] = []
with_handle kind (node ∷ nodes) (db ∷ dbs) = (node, kind) ∷ with_handle kind nodes dbs

-- The checks that `performHealthCheck` starts, each in a goroutine of its own.
unfoldable pub perform_health_check :
    {DB : Type 0} → DatabaseCluster DB → List (DatabaseNode × NodeType)
perform_health_check c =
    (c.config.master_node, master) ∷ with_handle slave c.config.slave_nodes c.slave_dbs
    ++ with_handle read_replica c.config.read_replicas c.read_dbs

-- The map that `GetHealthStatus` fills, as its value at each name.
unfoldable pub drained :
    List HealthCheckResult → (String → Option HealthCheckResult) → String → Option HealthCheckResult
drained [] status = status
drained (r ∷ rs) status =
    drained rs (λ name. if str_eq r.node.name name then some r else status name)

unfoldable pub get_health_status :
    {DB : Type 0} → DatabaseCluster DB → (String → Option HealthCheckResult) × DatabaseCluster DB
unfolding drained
get_health_status c = (drained c.health_chan (λ _. none), record c { health_chan = [] })

pub record ClusterStats : Type 0 where
  pub master_active : Bool
  pub slave_count : ℕ
  pub active_slaves : ℕ
  pub read_replica_count : ℕ
  pub active_read_replicas : ℕ
  pub total_connections : ℤ
  pub failover_enabled : Bool

unfoldable pub count_active : ℕ → List DatabaseNode → ℕ
count_active n [] = n
count_active n (node ∷ nodes) = count_active (if node.is_active then n + 1 else n) nodes

unfoldable pub get_cluster_stats : {DB : Type 0} → DatabaseCluster DB → ClusterStats
unfolding count_active
get_cluster_stats c = record {
  master_active = c.config.master_node.is_active;
  slave_count = length c.config.slave_nodes;
  active_slaves = count_active 0 c.config.slave_nodes;
  read_replica_count = length c.config.read_replicas;
  active_read_replicas = count_active 0 c.config.read_replicas;
  total_connections = c.config.max_connections;
  failover_enabled = c.config.failover_enabled;
}
