-- ===== src/Cluster/Recovery.antt =====
-- After a failed check of the master, another node is the master.
use transaction_api.Prelude.{
  ℕ, ◌≡◌, sym, ◌∙◌, inl, inr, ◌≢◌, true, false, some, String, List, [], ◌∷◌, All, Among, arith,
  Bool-cases,
}
use text.Mathlib.Text.{◌==◌ as str_eq}
use text.Mathlib.TextEquality.{eq_iff}
use transaction_api.Cluster.{
  DatabaseNode, DatabaseCluster, HealthCheckResult, Driver, mark, mark_first, update_node_status,
}
use transaction_api.Cluster.Monitor.{trigger_failover, Probe, master, pinged, offer}
use transaction_api.Cluster.Failover.{Promotes, trigger_failover-Promotes}

-- No two nodes of a list have one name.
abbrev pub Distinct : List DatabaseNode → Type 0
Distinct [] = Unit
Distinct (n ∷ nodes) = All (λ m. n.name ≢ m.name) nodes × Distinct nodes

All-Among :
    (P : DatabaseNode → Type 0) (x : DatabaseNode) (nodes : List DatabaseNode)
    → All P nodes
    → Among x nodes
    → P x
All-Among P x [] h m = absurd m
All-Among P x (n ∷ nodes) h (inl e) = rw e h.0
All-Among P x (n ∷ nodes) h (inr m) = All-Among P x nodes h.1 m

others_here :
    (name : String) (now : ℕ) (n x : DatabaseNode) (nodes : List DatabaseNode)
    → All (λ m. n.name ≢ m.name) nodes
    → n.name ≡ name
    → Among x (mark false now n ∷ nodes)
    → x.is_active ≡ true
    → x.name ≢ name
others_here name now n x nodes h e (inl p) active = cc
others_here name now n x nodes h e (inr m) active =
    let ne = All-Among (λ m. n.name ≢ m.name) x nodes h m in λ q. ne (e ∙ sym q)

others_later :
    (name : String) (n x : DatabaseNode) (rest : List DatabaseNode)
    → n.name ≢ name
    → (Among x rest → x.name ≢ name)
    → Among x (n ∷ rest)
    → x.name ≢ name
others_later name n x rest ne h (inl p) = λ q. ne (rw⁻¹ p q)
others_later name n x rest ne h (inr m) = h m

differs : (s t : String) → str_eq s t ≡ false → s ≢ t
differs s t h = λ p. let e = (eq_iff s t).1 p in cc

-- Where the first node with a name was the only one, the active ones have other names.
mark_first-others :
    (name : String) (now : ℕ) (nodes : List DatabaseNode) (x : DatabaseNode)
    → Distinct nodes
    → Among x (mark_first name false now nodes)
    → x.is_active ≡ true
    → x.name ≢ name
unfolding mark_first
mark_first-others name now [] x h m active = absurd m
mark_first-others name now (n ∷ nodes) x h m active = elim (Bool-cases (str_eq n.name name)) [
  | inl e ↦ others_here name now n x nodes h.0 ((eq_iff n.name name).0 e) (rw e at m) active
  | inr e ↦
      others_later name n x (mark_first name false now nodes) (differs n.name name e)
        (λ k. mark_first-others name now nodes x h.1 k active) (rw e at m)
]

keeps_here :
    (name : String) (now : ℕ) (n x : DatabaseNode) (nodes : List DatabaseNode)
    → n.name ≡ name
    → x.name ≢ name
    → Among x (n ∷ nodes)
    → Among x (mark false now n ∷ nodes)
keeps_here name now n x nodes e other (inl p) = absurd (other (rw p e))
keeps_here name now n x nodes e other (inr m) = inr m

keeps_later :
    (n x : DatabaseNode) (nodes rest : List DatabaseNode)
    → (Among x nodes → Among x rest)
    → Among x (n ∷ nodes)
    → Among x (n ∷ rest)
keeps_later n x nodes rest h (inl p) = inl p
keeps_later n x nodes rest h (inr m) = inr (h m)

mark_first-keeps :
    (name : String) (now : ℕ) (nodes : List DatabaseNode) (x : DatabaseNode)
    → Among x nodes
    → x.name ≢ name
    → Among x (mark_first name false now nodes)
unfolding mark_first
mark_first-keeps name now [] x m other = m
mark_first-keeps name now (n ∷ nodes) x m other = elim (Bool-cases (str_eq n.name name)) [
  | inl e ↦ rw e (keeps_here name now n x nodes ((eq_iff n.name name).0 e) other m)
  | inr e ↦ rw e (
      keeps_later n x nodes (mark_first name false now nodes)
        (λ k. mark_first-keeps name now nodes x k other) m)
]

offer-config :
    {DB : Type 0} (r : HealthCheckResult) (c : DatabaseCluster DB) → (offer r c).config ≡ c.config
offer-config r c = ground arith

module _ {DB W : Type 0} (driver : Driver DB W) where
  Promotes-other :
      (name : String) (c : DatabaseCluster DB) (w : W) (r : DatabaseCluster DB × W)
      → Promotes driver c w r
      → ((x : DatabaseNode) → Among x c.config.slave_nodes → x.is_active ≡ true → x.name ≢ name)
      → (x : DatabaseNode) → Among x c.config.slave_nodes
      → x.is_active ≡ true
      → (r.0.config.master_node.is_active ≡ true) × (r.0.config.master_node.name ≢ name)
  Promotes-other name c w r (inl (none_active, _, _)) others x m active =
      let no = All-Among (λ n. n.is_active ≡ false) x c.config.slave_nodes none_active m in cc
  Promotes-other name c w r (inr (best, (among, on, _), e, _, _, _, _, _)) others x m active =
      rw e (on, others best among on)

  pinged-config :
      (probe : Probe) (node : DatabaseNode) (c : DatabaseCluster DB) (w : W) (e : String)
      → probe.ping_error ≡ some e
      → c.config.failover_enabled ≡ true
      → (pinged driver probe node master c w).0.config
        ≡ (trigger_failover driver (update_node_status node.name false probe.now c) w).0.config
  unfolding pinged update_node_status
  pinged-config probe node c w e down enabled = rw (down, enabled) (offer-config _ _)

  -- Once a check finds the master down, where failover is enabled, no two slaves have one name and
  -- some active slave has another name than the master, the cluster has an active master of another
  -- name, whether or not the connection to it succeeds and the channel has room.
  pub pinged-fails_over :
      (probe : Probe) (node : DatabaseNode) (c : DatabaseCluster DB) (w : W) (e : String)
      → probe.ping_error ≡ some e
      → c.config.failover_enabled ≡ true
      → Distinct c.config.slave_nodes
      → (x : DatabaseNode) → Among x c.config.slave_nodes
      → x.is_active ≡ true
      → x.name ≢ node.name
      → ((pinged driver probe node master c w).0.config.master_node.is_active ≡ true)
        × ((pinged driver probe node master c w).0.config.master_node.name ≢ node.name)
  unfolding update_node_status
  pinged-fails_over probe node c w e down enabled distinct x m active other =
      let c' = update_node_status node.name false probe.now c in
      let nodes = c.config.slave_nodes in
      rw (pinged-config probe node c w e down enabled) (
        Promotes-other node.name c' w (trigger_failover driver c' w)
          (trigger_failover-Promotes driver c' w)
          (λ y k on. mark_first-others node.name probe.now nodes y distinct k on) x
          (mark_first-keeps node.name probe.now nodes x m other) active)
