-- ===== src/Cluster/Failover.antt =====
-- Which slave a failover promotes.
use transaction_api.Prelude.{
  ◌≡◌, refl, ◌⊎◌, inl, inr, ◌≤ℤ◌, true, false, Option, none, some, List, [], ◌∷◌, ◌++◌, All, Among,
  arith, if◌then◌else◌,
}
use transaction_api.Cluster.{DatabaseNode, DatabaseCluster, Driver, connect_to_node}
use transaction_api.Cluster.Monitor.{
  best_from, better, promote, promoted_to, or_kept, trigger_failover,
}

-- No active node of a list has a greater weight.
abbrev pub Heaviest : DatabaseNode → List DatabaseNode → Type 0
Heaviest x nodes = All (λ n. n.is_active ≡ true → n.weight ≤ℤ x.weight) nodes

-- An active node of a list, none of greater weight; or no node of it is active.
abbrev pub IsBest : List DatabaseNode → Option DatabaseNode → Type 0
IsBest nodes none = All (λ n. n.is_active ≡ false) nodes
IsBest nodes (some x) = Among x nodes × (x.is_active ≡ true) × Heaviest x nodes

abbrev Finds : Option DatabaseNode → List DatabaseNode → Option DatabaseNode → Type 0
Finds none nodes r = IsBest nodes r
Finds (some b) nodes none = ⊥
Finds (some b) nodes (some x) =
    ((x ≡ b) ⊎ Among x nodes × (x.is_active ≡ true)) × (b.weight ≤ℤ x.weight) × Heaviest x nodes

Finds-cons :
    (best : Option DatabaseNode) (n : DatabaseNode) (nodes : List DatabaseNode)
    (r : Option DatabaseNode)
    → Finds (if better best n then some n else best) nodes r
    → Finds best (n ∷ nodes) r
Finds-cons none n nodes none h = ground arith
Finds-cons none n nodes (some x) h = ground arith
Finds-cons (some b) n nodes none h = ground arith
Finds-cons (some b) n nodes (some x) h = ground arith

best_from-Finds :
    (best : Option DatabaseNode) (nodes : List DatabaseNode)
    → Finds best nodes (best_from best nodes)
unfolding best_from
best_from-Finds none [] = tt
best_from-Finds (some b) [] = (inl refl, omega arith, tt)
best_from-Finds best (n ∷ nodes) =
    Finds-cons best n nodes (best_from (if better best n then some n else best) nodes)
      (best_from-Finds (if better best n then some n else best) nodes)

-- What a failover makes of a cluster, given the slave that it takes and what connecting gives.
module _ {DB W : Type 0} (driver : Driver DB W) where
  abbrev pub Promotes : DatabaseCluster DB → W → DatabaseCluster DB × W → Type 0
  Promotes c w (c', w') =
      IsBest c.config.slave_nodes none × (c' ≡ c) × (w' ≡ w)
      ⊎ (best : DatabaseNode) × IsBest c.config.slave_nodes (some best)
        × (c'.config.master_node ≡ record best { role = "master" })
        × (c'.config.slave_nodes
            ≡ c.config.slave_nodes ++ record c.config.master_node { role = "slave" } ∷ [])
        × (c'.config.read_replicas ≡ c.config.read_replicas)
        × (c'.slave_dbs ≡ c.slave_dbs)
        × (c'.read_dbs ≡ c.read_dbs)
        × (c'.master_db
            ≡ or_kept c.master_db
                (connect_to_node driver
                  (record c.config { master_node = record best { role = "master" } })
                  (record best { role = "master" }) w).0)

  Promotes-best :
      (c : DatabaseCluster DB) (w : W) (best : Option DatabaseNode)
      → IsBest c.config.slave_nodes best
      → Promotes c w (promoted_to driver best c w)
  unfolding promote
  Promotes-best c w none h = inl (h, refl, refl)
  Promotes-best c w (some best) h = inr (best, h, refl, refl, refl, refl, refl, refl)

  -- A failover promotes an active slave of the greatest weight, as the master, and appends the old
  -- master to the slaves, of which the promoted one remains one; the handles of the slaves and of
  -- the replicas stay, and the master's handle is the new connection or, where that fails, the old
  -- one. Where no slave is active, nothing changes.
  pub trigger_failover-Promotes :
      (c : DatabaseCluster DB) (w : W) → Promotes c w (trigger_failover driver c w)
  unfolding trigger_failover
  trigger_failover-Promotes c w =
      Promotes-best c w (best_from none c.config.slave_nodes)
        (best_from-Finds none c.config.slave_nodes)
