-- ===== src/Cluster/Shares.antt =====
-- How `GetReadDB` shares the reads among the replicas.
use transaction_api.Prelude.{
  ℕ, zero, suc, ◌+◌, ◌-◌, ◌%◌, ◌≤◌, ◌<◌, ◌≡◌, refl, ap, ◌∙◌, ℤ, pos, pos_part, ◌≤ℤ◌, ◌+ℤ◌, ltb_ℤ,
  true, false, ◌&&◌, none, some, inl, inr, List, [], ◌∷◌, ◌++◌, length, length-append, get_elem?,
  get_elem?-none, ◌==◌, All, arith, Bool-cases, if◌then◌else◌,
}
use native.Mathlib.Decide.{dec_lt}
use native.Mathlib.Nat.{mod-eq_of_lt}
use transaction_api.Cluster.{
  DatabaseNode, DatabaseCluster, get_read_db, read_from, pick, db_at, active_weight,
}

module _ {A : Type 0} where
  abbrev pub replicate : ℕ → A → List A
  replicate zero x = []
  replicate (suc n) x = x ∷ replicate n x

  length-replicate : (n : ℕ) (x : A) → length (replicate n x) ≡ n
  length-replicate zero x = refl
  length-replicate (suc n) x = ap suc (length-replicate n x)

  replicate_within :
      (n k : ℕ) (x : A) (ys : List A) → k < n → get_elem? (replicate n x ++ ys) k ≡ some x
  replicate_within zero k x ys h = absurd (omega arith)
  replicate_within (suc n) zero x ys h = refl
  replicate_within (suc n) (suc k) x ys h = replicate_within n k x ys (omega arith)

  replicate_past :
      (n k : ℕ) (x : A) (ys : List A) → get_elem? (replicate n x ++ ys) (n + k) ≡ get_elem? ys k
  replicate_past zero k x ys = let e : zero + k ≡ k = omega arith in rw e refl
  replicate_past (suc n) k x ys =
      let e : suc n + k ≡ suc (n + k) = omega arith in rw e (replicate_past n k x ys)

-- How often a node is due in a round.
abbrev pub due : DatabaseNode → ℕ
due node = if node.is_active then pos_part node.weight else 0

-- The positions of the active nodes, each as often as its weight says; they are counted from `i`.
unfoldable pub turns : ℕ → List DatabaseNode → List ℕ
turns i [] = []
turns i (node ∷ nodes) = replicate (due node) i ++ turns (i + 1) nodes

abbrev pub Weighted : List DatabaseNode → Type 0
Weighted nodes = All (λ node. pos 0 ≤ℤ node.weight) nodes

plus_weight : (k : ℕ) (w : ℤ) → pos 0 ≤ℤ w → pos k +ℤ w ≡ pos (k + pos_part w)
unfolding ◌+ℤ◌
plus_weight k w h = ground arith

-- The running weight after a node.
next_weight :
    (k : ℕ) (node : DatabaseNode)
    → pos 0 ≤ℤ node.weight
    → (if node.is_active then pos k +ℤ node.weight else pos k) ≡ pos (k + due node)
next_weight k node h = elim (Bool-cases node.is_active) [
  | inl e ↦ rw (e, plus_weight k node.weight h) refl
  | inr e ↦ rw e (ap pos (omega arith))
]

active_weight-turns :
    (k i : ℕ) (nodes : List DatabaseNode)
    → Weighted nodes
    → active_weight (pos k) nodes ≡ pos (k + length (turns i nodes))
unfolding active_weight turns
active_weight-turns k i [] h = ap pos (omega arith)
active_weight-turns k i (node ∷ nodes) h =
    rw (next_weight k node h.0, active_weight-turns (k + due node) (i + 1) nodes h.1)
      (ap pos (
        omega (
          arith,
          length-append (replicate (due node) i) (turns (i + 1) nodes),
          length-replicate (due node) i,
        )))

due_now :
    (k m : ℕ) (node : DatabaseNode)
    → m < due node
    → (node.is_active && ltb_ℤ (pos (k + m)) (pos (k + due node))) ≡ true
due_now k m node lt = ground arith

due_later :
    (k m : ℕ) (node : DatabaseNode)
    → ¬ (m < due node)
    → (node.is_active && ltb_ℤ (pos (k + m)) (pos (k + due node))) ≡ false
due_later k m node ge = ground arith

pick-turns :
    (k m i : ℕ) (nodes : List DatabaseNode)
    → Weighted nodes
    → pick (k + m) (pos k) i nodes ≡ get_elem? (turns i nodes) m
unfolding pick turns
pick-turns k m i [] h = refl
pick-turns k m i (node ∷ nodes) h = elim (dec_lt m (due node)) [
  | yes lt ↦
      rw
        (
          next_weight k node h.0,
          replicate_within (due node) m i (turns (i + 1) nodes) lt,
          due_now k m node lt,
        )
        refl
  | no ge ↦
      let n = m - due node in
      let e : m ≡ due node + n = omega arith in
      let e2 : k + m ≡ (k + due node) + n = omega arith in
      let e3 : get_elem? (replicate (due node) i ++ turns (i + 1) nodes) m
          ≡ get_elem? (turns (i + 1) nodes) n =
        ap (λ j. get_elem? (replicate (due node) i ++ turns (i + 1) nodes) j) e
        ∙ replicate_past (due node) n i (turns (i + 1) nodes) in
      rw (next_weight k node h.0, due_later k m node ge, e3)
        (ap (λ j. pick j (pos (k + due node)) (i + 1) nodes) e2
          ∙ pick-turns (k + due node) n (i + 1) nodes h.1)
]

-- An active node with a weight has a turn.
turns_at :
    (i j : ℕ) (nodes : List DatabaseNode) (node : DatabaseNode)
    → get_elem? nodes j ≡ some node
    → 1 ≤ due node
    → (m : ℕ) × (m < length (turns i nodes)) × (get_elem? (turns i nodes) m ≡ some (i + j))
unfolding turns
turns_at i j [] node e h = cc
turns_at i zero (n ∷ nodes) node e h =
    let same : n ≡ node = grind arith in
    let here : i ≡ i + 0 = omega arith in
    let one : 0 < due n = rw same (omega arith) in
    (
      0,
      omega (
        arith,
        length-append (replicate (due n) i) (turns (i + 1) nodes),
        length-replicate (due n) i,
      ),
      replicate_within (due n) 0 i (turns (i + 1) nodes) one ∙ ap some here,
    )
turns_at i (suc j) (n ∷ nodes) node e h =
    let (m, lt, found) = turns_at (i + 1) j nodes node e h in
    let shift : i + 1 + j ≡ i + suc j = omega arith in
    (
      due n + m,
      omega (
        arith,
        length-append (replicate (due n) i) (turns (i + 1) nodes),
        length-replicate (due n) i,
      ),
      replicate_past (due n) m i (turns (i + 1) nodes) ∙ found ∙ ap some shift,
    )

module _ {DB : Type 0} (c : DatabaseCluster DB) where
  -- One round of reads.
  abbrev pub round : List ℕ
  round = turns 0 c.config.read_replicas

  read_from-turns :
      (now : ℕ) (dbs : List DB)
      → Weighted c.config.read_replicas
      → 1 ≤ length dbs
      → 1 ≤ length round
      → read_from now c dbs ≡ db_at dbs (get_elem? round (now % length round))
  unfolding read_from
  read_from-turns now [] h some_db some_turn = absurd (omega arith)
  read_from-turns now (db ∷ dbs) h some_db some_turn =
      let nodes = c.config.read_replicas in
      let m = now % length round in
      let e : 0 + length round ≡ length round = omega arith in
      let e2 : 0 + m ≡ m = omega arith in
      let e3 : (length round == 0) ≡ false = ground arith in
      rw (active_weight-turns 0 0 nodes h, e, e3)
        (ap (db_at (db ∷ dbs)) {y = get_elem? round m} (rw e2 at (pick-turns 0 m 0 nodes h)))

  -- Where no weight is negative, some active replica has one, and there are handles, `GetReadDB`
  -- takes the handle at the position that a round of reads has at the time modulo the length of
  -- the round: in any round of successive times, the position of each active replica is taken as
  -- often as its weight says, and that of no other.
  pub get_read_db-turns :
      (now : ℕ)
      → Weighted c.config.read_replicas
      → 1 ≤ length c.read_dbs
      → 1 ≤ length round
      → get_read_db now c ≡ db_at c.read_dbs (get_elem? round (now % length round))
  unfolding get_read_db
  get_read_db-turns now h some_db some_turn = read_from-turns now c.read_dbs h some_db some_turn

  -- A replica without a handle is not left out of the turns: where no weight is negative, there
  -- are handles, and an active replica of a weight that is not 0 stands at a position at or past
  -- their number, the index of `GetReadDB` is out of range at some time.
  pub get_read_db-misses :
      (i : ℕ) (node : DatabaseNode)
      → Weighted c.config.read_replicas
      → 1 ≤ length c.read_dbs
      → length c.read_dbs ≤ i
      → get_elem? c.config.read_replicas i ≡ some node
      → 1 ≤ due node
      → (now : ℕ) × (get_read_db now c ≡ none)
  get_read_db-misses i node h some_db past at_i weighs =
      let (m, lt, found) = turns_at 0 i c.config.read_replicas node at_i weighs in
      let start : 0 + i ≡ i = omega arith in
      (
        m,
        get_read_db-turns m h some_db (omega (arith, lt))
            ∙ ap (λ k. db_at c.read_dbs (get_elem? round k)) (mod-eq_of_lt lt)
            ∙ ap (db_at c.read_dbs) (found ∙ ap some start)
            ∙ get_elem?-none c.read_dbs i past,
      )
