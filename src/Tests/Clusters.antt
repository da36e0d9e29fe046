-- ===== src/Tests/Clusters.antt =====
-- Tests of the database cluster.
use transaction_api.Prelude.{
  ℕ, ◌+◌, ◌%◌, ◌≡◌, ◌≢◌, refl, inl, inr, pos, true, false, none, some, ok, String, [], ◌∷◌, length,
  get_elem?, arith,
}
use text.Mathlib.Text.{◌==◌ as str_eq}
use text.Mathlib.TextEquality.{eq_iff}
use transaction_api.Cluster.{
  DatabaseNode, ReplicationConfig, DatabaseCluster, Driver, get_read_db, db_at,
  new_database_cluster, connect_all, connect_to_node,
}
use transaction_api.Cluster.Reads.{ReadServes, get_read_db-ReadServes}
use transaction_api.Cluster.Shares.{turns, get_read_db-turns, get_read_db-misses, round}
use transaction_api.Cluster.Monitor.{Probe, master, trigger_failover, pinged}
use transaction_api.Cluster.Failover.{Promotes, trigger_failover-Promotes}
use transaction_api.Cluster.Recovery.{pinged-fails_over}

abbrev node : String → ℕ → DatabaseNode
node name weight = record {
  name = name;
  host = name;
  port = pos 5432;
  database = "app";
  username = "app";
  password = "";
  ssl_mode = "disable";
  role = "slave";
  weight = pos weight;
  is_active = true;
  last_ping = 0;
}

abbrev settings : ReplicationConfig
settings = record {
  master_node = record (node "m" 1) { role = "master" };
  slave_nodes = node "s" 1 ∷ node "t" 2 ∷ [];
  read_replicas = node "r" 1 ∷ node "q" 2 ∷ [];
  max_connections = pos 10;
  max_idle_conns = pos 5;
  conn_max_lifetime = pos 60;
  health_check_interval = pos 30;
  failover_enabled = true;
  auto_failback_enabled = false;
}

-- A driver whose handles are the hosts, and which counts the connections.
abbrev hosts : Driver String ℕ
hosts = record {
  open_node = λ n w. (ok n.host, w + 1);
  handle_error = λ db w. (none, w);
  set_limits = λ m i l db w. w;
}

abbrev cluster : DatabaseCluster String
cluster = record {
  config = settings;
  master_db = "m";
  slave_dbs = "s" ∷ "t" ∷ [];
  read_dbs = "r" ∷ "q" ∷ [];
  health_chan = [];
}

-- Its second replica has no handle.
abbrev short_cluster : DatabaseCluster String
short_cluster = record cluster { read_dbs = "r" ∷ [] }

abbrev down : Probe
down = record { handle_error = none; ping_error = some "refused"; latency = pos 5; now = 7 }

created : (new_database_cluster hosts settings 0).0 ≡ ok cluster
unfolding new_database_cluster connect_all connect_to_node
created = refl

get_read_db-ReadServes_example : ReadServes cluster (get_read_db 5 cluster)
get_read_db-ReadServes_example = get_read_db-ReadServes 5 cluster (omega arith)

get_read_db-turns_example :
    get_read_db 5 cluster
    ≡ db_at cluster.read_dbs (get_elem? (round cluster) (5 % length (round cluster)))
get_read_db-turns_example =
    get_read_db-turns cluster 5 (omega arith, (omega arith, tt)) (omega arith)
      (unfold turns in omega arith)

get_read_db-misses_example : (now : ℕ) × (get_read_db now short_cluster ≡ none)
get_read_db-misses_example =
    get_read_db-misses short_cluster 1 (node "q" 2) (omega arith, (omega arith, tt)) (omega arith)
      (omega arith) refl (omega arith)

trigger_failover-Promotes_example : Promotes hosts cluster 0 (trigger_failover hosts cluster 0)
trigger_failover-Promotes_example = trigger_failover-Promotes hosts cluster 0

differ : (s t : String) → str_eq s t ≡ false → s ≢ t
differ s t h = λ p. let e = (eq_iff s t).1 p in cc

pinged-fails_over_example :
    ((pinged hosts down cluster.config.master_node master cluster 0).0.config.master_node.is_active
      ≡ true)
    × ((pinged hosts down cluster.config.master_node master cluster 0).0.config.master_node.name
        ≢ "m")
pinged-fails_over_example =
    pinged-fails_over hosts down cluster.config.master_node cluster 0 "refused" refl refl
      ((differ "s" "t" refl, tt), (tt, tt)) (node "t" 2) (inr (inl refl)) refl (differ "t" "m" refl)

abbrev failed_over : DatabaseCluster String × ℕ
failed_over = trigger_failover hosts cluster 0
