-- ===== src/Cluster/Checks.antt =====
-- What the health checks of a cluster look at, and which steps they take.
use transaction_api.Prelude.{
  suc, ◌≤◌, ◌≡◌, refl, inl, inr, true, false, Option, none, some, Result, ok, err, String, List, [],
  ◌∷◌, map, length, arith, Bool-cases, Option-cases, ◌&&◌, ◌≢◌, ltb, ltb→lt,
}
use transaction_api.Cluster.{
  DatabaseNode, DatabaseCluster, HealthCheckResult, Driver, ReplicationConfig, update_node_status,
  new_database_cluster, connect_all, connect_to_node, keep_db, created,
}
use transaction_api.Cluster.Monitor.{
  pinged, offer, Probe, is_master, send, check_node_health, refused, NodeType,
}
use transaction_api.Cluster.Steps.{marks, fails_over, sends, Reaches, stays, steps, WellFormed}

-- The names of the nodes that a list of checks is about.
abbrev pub checked : List (DatabaseNode × NodeType) → List String
checked checks = map (λ p. p.0.name) checks

module _ {DB W : Type 0} (driver : Driver DB W) where
  offer-Reaches :
      (r : HealthCheckResult) (c : DatabaseCluster DB) (w : W)
      → Reaches driver (c, w) (offer r c, w)
  offer-Reaches r c w = elim (Bool-cases (ltb (length c.health_chan) 100)) [
    | inl e ↦
        rw e (steps _ _ _ (sends r c w (ltb→lt (length c.health_chan) 100 e)) (stays (send r c, w)))
    | inr e ↦ rw e (stays (c, w))
  ]

  -- What a check does is a run of the steps above; or it waits for room in the channel, and then
  -- the handle of the node has an error and the channel is full.
  abbrev pub Runs : Probe → DatabaseCluster DB → W → Option (DatabaseCluster DB × W) → Type 0
  Runs probe c w none = (probe.handle_error ≢ none) × (100 ≤ length c.health_chan)
  Runs probe c w (some t) = Reaches driver (c, w) t

  pub pinged-Reaches :
      (probe : Probe) (node : DatabaseNode) (kind : NodeType) (c : DatabaseCluster DB) (w : W)
      → Reaches driver (c, w) (pinged driver probe node kind c w)
  unfolding pinged update_node_status
  pinged-Reaches probe node kind c w = elim (Option-cases probe.ping_error) [
    | inl e ↦ rw e (steps _ _ _ (marks node.name true probe.now c w) (offer-Reaches _ _ w))
    | inr (x, e) ↦ elim (Bool-cases (c.config.failover_enabled && is_master kind)) [
      | inl f ↦
          rw (e, f)
            (steps _ _ _ (marks node.name false probe.now c w) (
              steps _ _ _ (fails_over (update_node_status node.name false probe.now c) w)
                (offer-Reaches _ _ _)))
      | inr f ↦ rw (e, f) (steps _ _ _ (marks node.name false probe.now c w) (offer-Reaches _ _ w))
    ]
  ]

  pub check_node_health-Runs :
      (probe : Probe) (node : DatabaseNode) (kind : NodeType) (c : DatabaseCluster DB) (w : W)
      → Runs probe c w (check_node_health driver probe node kind c w)
  unfolding check_node_health
  check_node_health-Runs probe node kind c w = elim (Option-cases probe.handle_error) [
    | inl e ↦ rw e (pinged-Reaches probe node kind c w)
    | inr (x, e) ↦ elim (Bool-cases (ltb (length c.health_chan) 100)) [
      | inl f ↦
          rw (e, f)
            (steps _ _ _ (sends (refused node x) c w (ltb→lt (length c.health_chan) 100 f))
              (stays _))
      | inr f ↦ rw (e, f) ((λ p. cc), ground arith)
    ]
  ]

  connect_all-length :
      (config : ReplicationConfig) (nodes : List DatabaseNode) (w : W)
      → length (connect_all driver config nodes w).0 ≤ length nodes
  unfolding connect_all
  connect_all-length config [] w = omega arith
  connect_all-length config (n ∷ nodes) w =
      let (connected, w1) = connect_to_node driver config n w in
      bound connected (connect_all driver config nodes w1).0 (connect_all-length config nodes w1)
    where
      bound :
          (r : Result String DB) (dbs : List DB)
          → length dbs ≤ length nodes
          → length (keep_db driver r dbs) ≤ suc (length nodes)
      bound (ok db) dbs h = omega arith
      bound (err e) dbs h = omega arith

  abbrev pub Creates : ReplicationConfig → W → Result String (DatabaseCluster DB) → Type 0
  Creates config w (ok c) =
      WellFormed c
      × (c.config ≡ config)
      × ((connect_to_node driver config config.master_node w).0 ≡ ok c.master_db)
  Creates config w (err e) = (connect_to_node driver config config.master_node w).0 ≡ err e

  created-Creates :
      (config : ReplicationConfig) (w : W) (first : Result String DB × W)
      → (connect_to_node driver config config.master_node w).0 ≡ first.0
      → Creates config w (created driver config first).0
  unfolding connect_all
  created-Creates config w (err x, w') e = e
  created-Creates config w (ok db, w') e = (
    (
      connect_all-length config config.slave_nodes w',
      connect_all-length config config.read_replicas
          (connect_all driver config config.slave_nodes w').1,
      omega arith,
    ),
    refl,
    e,
  )

  -- A new cluster is well-formed, has the configuration and the handle of the master; there is none
  -- exactly where the master does not connect, whichever other nodes do.
  pub new_database_cluster-Creates :
      (config : ReplicationConfig) (w : W)
      → Creates config w (new_database_cluster driver config w).0
  unfolding new_database_cluster
  new_database_cluster-Creates config w =
      created-Creates config w (connect_to_node driver config config.master_node w) refl
