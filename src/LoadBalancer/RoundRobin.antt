-- ===== src/LoadBalancer/RoundRobin.antt =====
-- The two strategies that go round: whom they select, and when they panic.
use transaction_api.Prelude.{
  ℕ, zero, suc, ◌+◌, ◌%◌, ◌≤◌, ◌<◌, ◌≡◌, refl, ◌↔◌, some, List, [], ◌∷◌, length, length-append,
  get_elem?, get_elem?-none, arith, ap, ◌∙◌, ◌≢◌, All, ◌++◌, map,
}
use native.Mathlib.Nat.{mod-lt, mod-eq_of_lt}
use native.Mathlib.Decide.{dec_lt}
use mathlib.Core.List.{append_assoc}
use transaction_api.LoadBalancer.{
  Backend, Selection, selected, nothing, panics, select_round_robin, select_weighted,
}

get_elem?-some :
    {A : Type 0} (xs : List A) (i : ℕ) → i < length xs → (x : A) × (get_elem? xs i ≡ some x)
get_elem?-some [] i h = absurd (omega arith)
get_elem?-some (x ∷ xs) zero h = (x, refl)
get_elem?-some (x ∷ xs) (suc i) h = get_elem?-some xs i (omega arith)

-- The weights have no effect: the weighted strategy selects and advances as the plain one does.
pub select_weighted-eq-select_round_robin :
    (current : ℕ) (bs : List Backend) → select_weighted current bs ≡ select_round_robin current bs
unfolding select_weighted select_round_robin
select_weighted-eq-select_round_robin current [] = refl
select_weighted-eq-select_round_robin current (b ∷ bs) = ground arith

abbrev InRange : ℕ → List Backend → Type 0
InRange current bs = (1 ≤ length bs) × (length bs ≤ current)

panics_past :
    (current : ℕ) (bs : List Backend)
    → InRange current bs
    → select_round_robin current bs ≡ (panics, current)
unfolding select_round_robin
panics_past current [] h = absurd (omega (arith, h.0))
panics_past current (b ∷ bs) h = rw (get_elem?-none (b ∷ bs) current h.1) refl

-- A call in range selects a backend and keeps the position in range.
abbrev Selects : ℕ → Selection × ℕ → Type 0
Selects n (s, c) = (s ≢ panics) × (s ≢ nothing) × (c < n)

select_round_robin-Selects :
    (current : ℕ) (bs : List Backend)
    → current < length bs
    → Selects (length bs) (select_round_robin current bs)
unfolding select_round_robin
select_round_robin-Selects current [] h = absurd (omega arith)
select_round_robin-Selects current (b ∷ bs) h =
    let (x, e) = get_elem?-some (b ∷ bs) current h in
    rw e ((λ p. cc), (λ p. cc), mod-lt (current + 1) (omega arith))

-- A selection panics exactly when there are backends, and none at the position kept.
pub select_round_robin-panics_iff :
    (current : ℕ) (bs : List Backend)
    → ((select_round_robin current bs).0 ≡ panics) ↔ ((1 ≤ length bs) × (length bs ≤ current))
unfolding select_round_robin
select_round_robin-panics_iff current [] = ground arith
select_round_robin-panics_iff current (b ∷ bs) = elim (dec_lt current (length (b ∷ bs))) [
  | yes lt ↦ (
    (λ p. absurd ((select_round_robin-Selects current (b ∷ bs) lt).0 p)),
    λ h. absurd (omega (arith, h.1)),
  )
  | no ge ↦ ((λ p. (omega arith, omega arith)), λ h. ap (λ r. r.0) (panics_past current (b ∷ bs) h))
]

-- The selections of calls in turn, on the backends that are active at each.
pub select_all : ℕ → List (List Backend) → List Selection
select_all current [] = []
select_all current (bs ∷ rest) =
    let (s, c') = select_round_robin current bs in s ∷ select_all c' rest

-- Once the position lies at or beyond the number of active backends, every call panics for as long
-- as there are some, and no more than the position: a panic does not move it.
pub select_all-panics :
    (current : ℕ) (lists : List (List Backend))
    → All (λ bs. (1 ≤ length bs) × (length bs ≤ current)) lists
    → All (λ s. s ≡ panics) (select_all current lists)
unfolding select_all
select_all-panics current [] h = tt
select_all-panics current (bs ∷ rest) h =
    rw (panics_past current bs h.0) (refl, select_all-panics current rest h.1)

-- Lists of at least `n` backends, none shorter than the one before it.
abbrev pub Grows : ℕ → List (List Backend) → Type 0
Grows n [] = Unit
Grows n (bs ∷ rest) = (n ≤ length bs) × Grows (length bs) rest

-- While the number of active backends never falls, a position in range stays in range: every call
-- selects a backend.
pub select_all-selects :
    (current n : ℕ) (lists : List (List Backend))
    → current < n
    → Grows n lists
    → All (λ s. (s ≢ panics) × (s ≢ nothing)) (select_all current lists)
unfolding select_all
select_all-selects current n [] lt h = tt
select_all-selects current n (bs ∷ rest) lt h =
    let (p, q, r) = select_round_robin-Selects current bs (omega (arith, h.0)) in
    ((p, q), select_all-selects (select_round_robin current bs).1 (length bs) rest r h.1)

-- The same list at each of `k` calls: the selections, and the position after them.
pub select_times : ℕ → ℕ → List Backend → List Selection × ℕ
select_times zero current bs = ([], current)
select_times (suc k) current bs =
    let (s, c') = select_round_robin current bs in
    let (ss, c'') = select_times k c' bs in (s ∷ ss, c'')

get_elem?-append :
    {A : Type 0} (xs : List A) (y : A) (ys : List A) → get_elem? (xs ++ y ∷ ys) (length xs) ≡ some y
get_elem?-append [] y ys = refl
get_elem?-append (x ∷ xs) y ys = get_elem?-append xs y ys

select_at :
    (bs : List Backend) (c : ℕ) (b : Backend)
    → get_elem? bs c ≡ some b
    → select_round_robin c bs ≡ (selected b, (c + 1) % length bs)
unfolding select_round_robin
select_at [] c b e = cc
select_at (x ∷ bs) c b e = rw e refl

mod_self : (n : ℕ) → 0 < n → n % n ≡ 0
mod_self n h = grind arith

select_times_step :
    (k c c' end : ℕ) (bs : List Backend) (b : Backend) (ss : List Selection)
    → select_round_robin c bs ≡ (selected b, c')
    → select_times k c' bs ≡ (ss, end)
    → select_times (suc k) c bs ≡ (selected b ∷ ss, end)
unfolding select_times
select_times_step k c c' end bs b ss p q = rw (p, q) refl

wraps : (done : List Backend) (b : Backend) → (length done + 1) % length (done ++ b ∷ []) ≡ 0
wraps done b = rw (length-append done (b ∷ [])) (mod_self (length done + 1) (omega arith))

advances :
    (done : List Backend) (b d : Backend) (left : List Backend)
    → (length done + 1) % length (done ++ b ∷ d ∷ left) ≡ length (done ++ b ∷ [])
advances done b d left =
    mod-eq_of_lt (omega (arith, length-append done (b ∷ d ∷ left)))
    ∙ omega (arith, length-append done (b ∷ []))

select_times_suffix :
    (done : List Backend) (b : Backend) (left : List Backend)
    → select_times (suc (length left)) (length done) (done ++ b ∷ left)
      ≡ (map selected (b ∷ left), 0)
select_times_suffix done b [] =
    select_times_step 0 (length done) 0 0 (done ++ b ∷ []) b []
      (select_at (done ++ b ∷ []) (length done) b (get_elem?-append done b [])
        ∙ ap (λ n. (selected b, n)) (wraps done b))
      (unfold select_times in refl)
select_times_suffix done b (d ∷ left) =
    select_times_step (suc (length left)) (length done) (length (done ++ b ∷ [])) 0
      (done ++ b ∷ d ∷ left) b (map selected (d ∷ left))
      (select_at (done ++ b ∷ d ∷ left) (length done) b (get_elem?-append done b (d ∷ left))
        ∙ ap (λ n. (selected b, n)) (advances done b d left))
      (rw append_assoc at (select_times_suffix (done ++ b ∷ []) d left))

-- From the first position, as many calls as there are backends select each of them once, in their
-- order, and come back to the first position.
pub select_times_cycle :
    (b : Backend) (bs : List Backend)
    → select_times (length (b ∷ bs)) 0 (b ∷ bs) ≡ (map selected (b ∷ bs), 0)
select_times_cycle b bs = select_times_suffix [] b bs
