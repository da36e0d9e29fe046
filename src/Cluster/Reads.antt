-- ===== src/Cluster/Reads.antt =====
-- Which handles the reads of a cluster get, and when an index is out of range.
use transaction_api.Prelude.{
  ℕ, zero, suc, ◌+◌, ◌%◌, ◌≤◌, ◌<◌, ◌≡◌, refl, sym, ◌⊎◌, inl, inr, ℤ, pos, ◌+ℤ◌, ltb_ℤ, Bool, true,
  false, ◌&&◌, Option, none, some, List, [], ◌∷◌, length, get_elem?, Among, arith, Bool-cases,
  List-cases, if◌then◌else◌,
}
use native.Mathlib.Nat.{mod-lt}
use transaction_api.Cluster.{
  DatabaseNode, DatabaseCluster, get_slave_db, get_read_db, read_from, pick, db_at, active_weight,
  is_zero, rem,
}

-- The position that the loop returns at is one of its nodes'.
abbrev Picks : ℕ → List DatabaseNode → Option ℕ → Type 0
Picks i nodes none = Unit
Picks i nodes (some j) = (i ≤ j) × (j < i + length nodes)

Picks-cons :
    (i : ℕ) (node : DatabaseNode) (nodes : List DatabaseNode) (rest : Option ℕ) (t : Bool)
    → Picks (i + 1) nodes rest
    → Picks i (node ∷ nodes) (if t then some i else rest)
Picks-cons i node nodes rest true h = (omega arith, omega arith)
Picks-cons i node nodes none false h = tt
Picks-cons i node nodes (some j) false h = (omega (arith, h.0), omega (arith, h.1))

pick-Picks :
    (index : ℕ) (current : ℤ) (i : ℕ) (nodes : List DatabaseNode)
    → Picks i nodes (pick index current i nodes)
unfolding pick
pick-Picks index current i [] = tt
pick-Picks index current i (node ∷ nodes) =
    let next = if node.is_active then current +ℤ node.weight else current in
    Picks-cons i node nodes (pick index next (i + 1) nodes)
      (node.is_active && ltb_ℤ (pos index) next) (pick-Picks index next (i + 1) nodes)

is_zero→eq : (x : ℤ) → is_zero x ≡ true → x ≡ pos 0
is_zero→eq x h = ground arith

module _ {DB : Type 0} where
  pub get_elem?-Among :
      (dbs : List DB) (i : ℕ)
      → i < length dbs
      → (db : DB) × (get_elem? dbs i ≡ some db) × Among db dbs
  get_elem?-Among [] i h = absurd (omega arith)
  get_elem?-Among (db ∷ dbs) zero h = (db, refl, inl refl)
  get_elem?-Among (db ∷ dbs) (suc i) h =
      let (x, e, m) = get_elem?-Among dbs i (omega arith) in (x, e, inr m)

  -- A handle that a read may get: the master's, or that of one of the slaves.
  abbrev pub Serves : DatabaseCluster DB → Option DB → Type 0
  Serves c none = ⊥
  Serves c (some db) = (c.slave_dbs ≡ []) × (db ≡ c.master_db) ⊎ Among db c.slave_dbs

  -- `GetSlaveDB` never indexes out of range: at any time of the clock it gives the handle of a
  -- slave, or the master's where no slave has one.
  pub get_slave_db-Serves : (now : ℕ) (c : DatabaseCluster DB) → Serves c (get_slave_db now c)
  unfolding get_slave_db
  get_slave_db-Serves now c = elim (List-cases c.slave_dbs) [
    | inl e ↦ rw e (inl (refl, refl))
    | inr (db, dbs, e) ↦
        (let (x, found, m) =
            get_elem?-Among (db ∷ dbs) (now % length (db ∷ dbs)) (mod-lt now (omega arith)) in
          rw (e, found) (inr m))
  ]

  -- The handle of a read replica, or one that `GetSlaveDB` gives where no replica has a handle or
  -- the active ones have no weight.
  abbrev pub ReadServes : DatabaseCluster DB → Option DB → Type 0
  ReadServes c none = ⊥
  ReadServes c (some db) =
      Among db c.read_dbs
      ⊎ ((c.read_dbs ≡ []) ⊎ (active_weight (pos 0) c.config.read_replicas ≡ pos 0))
        × Serves c (some db)

  ReadServes-of_slave :
      (c : DatabaseCluster DB) (db : Option DB)
      → (c.read_dbs ≡ []) ⊎ (active_weight (pos 0) c.config.read_replicas ≡ pos 0)
      → Serves c db
      → ReadServes c db
  ReadServes-of_slave c none e h = h
  ReadServes-of_slave c (some db) e h = inr (e, h)

  db_at-Among :
      (c : DatabaseCluster DB) (nodes : List DatabaseNode) (found : Option ℕ)
      → 1 ≤ length c.read_dbs
      → length nodes ≤ length c.read_dbs
      → Picks 0 nodes found
      → ReadServes c (db_at c.read_dbs found)
  db_at-Among c nodes none some_db all h =
      let (x, e, m) = get_elem?-Among c.read_dbs 0 (omega arith) in rw e (inl m)
  db_at-Among c nodes (some j) some_db all h =
      let (x, e, m) = get_elem?-Among c.read_dbs j (omega (arith, h.1)) in rw e (inl m)

  read_from-ReadServes :
      (now : ℕ) (c : DatabaseCluster DB) (dbs : List DB)
      → c.read_dbs ≡ dbs
      → length c.config.read_replicas ≤ length c.read_dbs
      → ReadServes c (read_from now c dbs)
  unfolding read_from
  read_from-ReadServes now c [] e all =
      ReadServes-of_slave c (get_slave_db now c) (inl e) (get_slave_db-Serves now c)
  read_from-ReadServes now c (db ∷ dbs) e all =
      let nodes = c.config.read_replicas in
      let total = active_weight (pos 0) nodes in
      elim (Bool-cases (is_zero total)) [
        | inl z ↦ rw z (
            ReadServes-of_slave c (get_slave_db now c) (inr (is_zero→eq total z))
              (get_slave_db-Serves now c))
        | inr z ↦
            rw (z, sym e)
              (db_at-Among c nodes (pick (rem now total) (pos 0) 0 nodes) (rw e (omega arith)) all
                (pick-Picks (rem now total) (pos 0) 0 nodes))
      ]

  -- Where every read replica has a handle, `GetReadDB` never indexes out of range, whatever the
  -- weights are, negative ones included, and whichever nodes are active: it gives the handle of a
  -- replica, or where no replica has one or the active ones weigh 0 what `GetSlaveDB` gives.
  pub get_read_db-ReadServes :
      (now : ℕ) (c : DatabaseCluster DB)
      → length c.config.read_replicas ≤ length c.read_dbs
      → ReadServes c (get_read_db now c)
  unfolding get_read_db
  get_read_db-ReadServes now c all = read_from-ReadServes now c c.read_dbs refl all
