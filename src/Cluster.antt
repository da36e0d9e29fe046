-- ===== src/Cluster.antt =====
-- pkg/database/replication.go: a master database with its slaves and read replicas. A handle
-- (*gorm.DB) is a value of a type `DB`; the drivers act on a state of the world `W`.
pub mod Reads
pub mod Shares
pub mod Monitor
pub mod Failover
pub mod Recovery
pub mod Steps
pub mod Checks
use transaction_api.Prelude.{
  ℕ, suc, ◌+◌, ◌%◌, ℤ, pos, negsuc, ◌+ℤ◌, ltb_ℤ, ltb, Bool, true, false, ◌&&◌, Option, none, some,
  Result, ok, err, String, List, [], ◌∷◌, ◌++◌, length, get_elem?, ◌==◌, if◌then◌else◌,
}
use text.Mathlib.Text.{◌==◌ as str_eq}

pub record DatabaseNode : Type 0 where
  pub name : String
  pub host : String
  pub port : ℤ
  pub database : String
  pub username : String
  pub password : String
  pub ssl_mode : String
  pub role : String
  pub weight : ℤ
  pub is_active : Bool
  pub last_ping : ℕ

pub record ReplicationConfig : Type 0 where
  pub master_node : DatabaseNode
  pub slave_nodes : List DatabaseNode
  pub read_replicas : List DatabaseNode
  pub max_connections : ℤ
  pub max_idle_conns : ℤ
  pub conn_max_lifetime : ℤ
  pub health_check_interval : ℤ
  pub failover_enabled : Bool
  pub auto_failback_enabled : Bool

pub data Health : Type 0 where
  healthy unhealthy : Health

pub record HealthCheckResult : Type 0 where
  pub node : DatabaseNode
  pub status : Health
  pub error : Option String
  pub latency : ℤ

-- `health_chan` holds what is buffered in the channel, the oldest first.
pub record DatabaseCluster (DB : Type 0) : Type 0 where
  pub config : ReplicationConfig
  pub master_db : DB
  pub slave_dbs : List DB
  pub read_dbs : List DB
  pub health_chan : List HealthCheckResult

-- What the code calls of gorm and database/sql: opening a node, the error of `db.DB()`, and the
-- three settings of a pool.
pub record Driver (DB W : Type 0) : Type 0 where
  pub open_node : DatabaseNode → W → Result String DB × W
  pub handle_error : DB → W → Option String × W
  pub set_limits : ℤ → ℤ → ℤ → DB → W → W

module _ {DB W : Type 0} (driver : Driver DB W) where
  abbrev pub limited : ReplicationConfig → DB → Option String × W → Result String DB × W
  limited config db (some e, w) = (err e, w)
  limited config db (none, w) = (
    ok db,
    driver.set_limits config.max_connections config.max_idle_conns config.conn_max_lifetime db w,
  )

  abbrev pub handled : ReplicationConfig → Result String DB × W → Result String DB × W
  handled config (err e, w) = (err e, w)
  handled config (ok db, w) = limited config db (driver.handle_error db w)

  unfoldable pub connect_to_node : ReplicationConfig → DatabaseNode → W → Result String DB × W
  connect_to_node config node w = handled config (driver.open_node node w)

  abbrev pub keep_db : Result String DB → List DB → List DB
  keep_db (ok db) dbs = db ∷ dbs
  keep_db (err _) dbs = dbs

  -- The loops over the slaves and over the replicas: a node that does not connect is left out.
  unfoldable pub connect_all : ReplicationConfig → List DatabaseNode → W → List DB × W
  unfolding connect_to_node
  connect_all config [] w = ([], w)
  connect_all config (node ∷ nodes) w =
      let (connected, w1) = connect_to_node config node w in
      let (dbs, w2) = connect_all config nodes w1 in (keep_db connected dbs, w2)

  abbrev pub cluster_of : ReplicationConfig → DB → W → DatabaseCluster DB × W
  unfolding connect_all
  cluster_of config db w =
      let (slaves, w1) = connect_all config config.slave_nodes w in
      let (reads, w2) = connect_all config config.read_replicas w1 in
      (
        record {
          config = config;
          master_db = db;
          slave_dbs = slaves;
          read_dbs = reads;
          health_chan = [];
        },
        w2,
      )

  abbrev pub created :
      ReplicationConfig → Result String DB × W → Result String (DatabaseCluster DB) × W
  created config (err e, w) = (err e, w)
  created config (ok db, w) = let (c, w') = cluster_of config db w in (ok c, w')

  unfoldable pub new_database_cluster :
      ReplicationConfig → W → Result String (DatabaseCluster DB) × W
  unfolding connect_to_node
  new_database_cluster config w = created config (connect_to_node config config.master_node w)

abbrev pub get_master_db : {DB : Type 0} → DatabaseCluster DB → DB
get_master_db c = c.master_db

-- The first argument is `time.Now().UnixNano()`; `none` is a panic, an index out of range.
unfoldable pub get_slave_db : {DB : Type 0} → ℕ → DatabaseCluster DB → Option DB
get_slave_db now c = elim c.slave_dbs [
  | [] ↦ some c.master_db
  | (db ∷ dbs) ↦ get_elem? (db ∷ dbs) (now % length (db ∷ dbs))
]

unfoldable pub active_weight : ℤ → List DatabaseNode → ℤ
active_weight total [] = total
active_weight total (node ∷ nodes) =
    active_weight (if node.is_active then total +ℤ node.weight else total) nodes

-- Go's remainder by an integer other than 0: its sign is that of the dividend.
abbrev pub rem : ℕ → ℤ → ℕ
rem now (pos n) = now % n
rem now (negsuc n) = now % suc n

-- The position that the loop of `GetReadDB` returns at; the positions are counted from `i`.
unfoldable pub pick : ℕ → ℤ → ℕ → List DatabaseNode → Option ℕ
pick index current i [] = none
pick index current i (node ∷ nodes) =
    let next = if node.is_active then current +ℤ node.weight else current in
    let rest = pick index next (i + 1) nodes in
    if node.is_active && ltb_ℤ (pos index) next then some i else rest

abbrev pub db_at : {DB : Type 0} → List DB → Option ℕ → Option DB
db_at dbs (some i) = get_elem? dbs i
db_at dbs none = get_elem? dbs 0

abbrev pub is_zero : ℤ → Bool
is_zero (pos n) = n == 0
is_zero (negsuc n) = false

unfoldable pub read_from : {DB : Type 0} → ℕ → DatabaseCluster DB → List DB → Option DB
unfolding get_slave_db active_weight pick
read_from now c [] = get_slave_db now c
read_from now c (db ∷ dbs) =
    let nodes = c.config.read_replicas in
    let total = active_weight (pos 0) nodes in
    if is_zero total
    then get_slave_db now c
    else db_at (db ∷ dbs) (pick (rem now total) (pos 0) 0 nodes)

-- What `GetReadDB` returns, if it does; `get_read_db_amid` says when it does not.
unfoldable pub get_read_db : {DB : Type 0} → ℕ → DatabaseCluster DB → Option DB
unfolding read_from
get_read_db now c = read_from now c c.read_dbs

-- Whether `GetReadDB` calls `GetSlaveDB`, which takes the read lock a second time.
abbrev pub locks_twice : {DB : Type 0} → DatabaseCluster DB → Bool
locks_twice c = elim c.read_dbs [
  | [] ↦ true
  | (_ ∷ _) ↦ is_zero (active_weight (pos 0) c.config.read_replicas)
]

pub data Reading (DB : Type 0) : Type 0 where
  has_read : Option DB → Reading DB
  blocks : Reading DB

-- `GetReadDB`, where a writer may have asked for the lock after the first read lock was given: the
-- second one waits for the writer, and the writer for the first, so that neither goes on.
unfoldable pub get_read_db_amid : {DB : Type 0} → Bool → ℕ → DatabaseCluster DB → Reading DB
unfolding get_read_db active_weight
get_read_db_amid writer_waits now c =
    if writer_waits && locks_twice c then blocks else has_read (get_read_db now c)

abbrev pub mark : Bool → ℕ → DatabaseNode → DatabaseNode
mark active now node = record node { is_active = active; last_ping = now }

-- The loops of `updateNodeStatus`: they stop at the first node with the name.
unfoldable pub mark_first : String → Bool → ℕ → List DatabaseNode → List DatabaseNode
mark_first name active now [] = []
mark_first name active now (node ∷ nodes) =
    if str_eq node.name name
    then mark active now node ∷ nodes
    else node ∷ mark_first name active now nodes

unfoldable pub update_node_status :
    {DB : Type 0} → String → Bool → ℕ → DatabaseCluster DB → DatabaseCluster DB
unfolding mark_first
update_node_status name active now c =
    let master = c.config.master_node in
    record c {
      config = record c.config {
        master_node = if str_eq master.name name then mark active now master else master;
        slave_nodes = mark_first name active now c.config.slave_nodes;
        read_replicas = mark_first name active now c.config.read_replicas;
      };
    }
