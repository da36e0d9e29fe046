-- ===== src/LoadBalancer.antt =====
-- pkg/loadbalancer/load_balancer.go. Backends are shared by pointer in the source; a balancer here
-- holds their current values, in the order of its slice.
pub mod RoundRobin
pub mod Least
pub mod Health
use transaction_api.Prelude.{
  ℕ, suc, ◌+◌, ◌%◌, ℤ, pos, ◌+ℤ◌, ltb_ℤ, Bool, true, false, Option, none, some, String, List, [],
  ◌∷◌, ◌++◌, map, length, get_elem?, if◌then◌else◌, ◌==◌,
}
use text.Mathlib.Text.{◌==◌ as str_eq}

pub record Backend : Type 0 where
  pub id : String
  pub url : String
  pub weight : ℤ
  pub is_active : Bool
  pub health : ℤ  -- in units of 0.0001
  pub latency : ℤ  -- in nanoseconds
  pub last_check : ℕ

-- The strategies, with the position that the first two keep.
pub data Strategy : Type 0 where
  round_robin weighted_round_robin : ℕ → Strategy
  least_connections : Strategy

pub record LoadBalancer : Type 0 where
  pub backends : List Backend
  pub strategy : Strategy

-- What `SelectBackend` does: it returns a backend or nil, or indexes out of range and panics.
pub data Selection : Type 0 where
  selected : Backend → Selection
  nothing : Selection
  panics : Selection

unfoldable pub new_load_balancer : Strategy → LoadBalancer
new_load_balancer strategy = record { backends = []; strategy = strategy }

unfoldable pub add_backend : Backend → LoadBalancer → LoadBalancer
add_backend backend lb = record lb { backends = lb.backends ++ backend ∷ [] }

-- The loop of `RemoveBackend`: it stops at the first backend with the name.
unfoldable pub remove_first : String → List Backend → List Backend
remove_first id [] = []
remove_first id (backend ∷ backends) =
    if str_eq backend.id id then backends else backend ∷ remove_first id backends

unfoldable pub remove_backend : String → LoadBalancer → LoadBalancer
unfolding remove_first
remove_backend id lb = record lb { backends = remove_first id lb.backends }

abbrev pub at_position : Option Backend → Selection
at_position none = panics
at_position (some b) = selected b

-- `backends[current]`, and the position after it; a panic leaves the position.
abbrev advance : ℕ → Option Backend → ℕ → ℕ
advance current none n = current
advance current (some _) n = (current + 1) % n

unfoldable pub select_round_robin : ℕ → List Backend → Selection × ℕ
select_round_robin current [] = (nothing, current)
select_round_robin current (b ∷ bs) =
    let found = get_elem? (b ∷ bs) current in
    (at_position found, advance current found (length (b ∷ bs)))

abbrev total_weight : ℤ → List Backend → ℤ
total_weight total [] = total
total_weight total (b ∷ bs) = total_weight (total +ℤ b.weight) bs

abbrev is_zero : ℤ → Bool
is_zero (pos n) = n == 0
is_zero _ = false

-- Both branches of the test on the total weight index and advance alike.
unfoldable pub select_weighted : ℕ → List Backend → Selection × ℕ
select_weighted current [] = (nothing, current)
select_weighted current (b ∷ bs) =
    let found = get_elem? (b ∷ bs) current in
    if is_zero (total_weight (pos 0) (b ∷ bs))
    then (at_position found, advance current found (length (b ∷ bs)))
    else (at_position found, advance current found (length (b ∷ bs)))

-- `time.Duration(1<<63 - 1)`
abbrev pub max_latency : ℤ
max_latency = pos 9223372036854775807

unfoldable pub least_from : Option Backend → ℤ → List Backend → Option Backend
least_from best best_latency [] = best
least_from best best_latency (b ∷ bs) = elim (ltb_ℤ b.latency best_latency) [
  | true ↦ least_from (some b) b.latency bs
  | false ↦ least_from best best_latency bs
]

abbrev pub or_nothing : Option Backend → Selection
or_nothing none = nothing
or_nothing (some b) = selected b

unfoldable pub select_least : List Backend → Selection
unfolding least_from
select_least [] = nothing
select_least (b ∷ bs) = or_nothing (least_from none max_latency (b ∷ bs))

unfoldable pub select_backend : Strategy → List Backend → Selection × Strategy
unfolding select_round_robin select_weighted select_least
select_backend (round_robin c) bs = let (s, c') = select_round_robin c bs in (s, round_robin c')
select_backend (weighted_round_robin c) bs =
    let (s, c') = select_weighted c bs in (s, weighted_round_robin c')
select_backend least_connections bs = (select_least bs, least_connections)

unfoldable pub active_backends : List Backend → List Backend
active_backends [] = []
active_backends (b ∷ bs) = let rest = active_backends bs in if b.is_active then b ∷ rest else rest

-- `GetBackend`: the error "no active backends available", or what the strategy does.
pub data Got : Type 0 where
  no_active_backends : Got
  got : Selection → Got

abbrev pub choose : List Backend → LoadBalancer → Got × LoadBalancer
choose [] lb = (no_active_backends, lb)
choose (b ∷ bs) lb =
    let (s, strategy') = select_backend lb.strategy (b ∷ bs) in
    (got s, record lb { strategy = strategy' })

unfoldable pub get_backend : LoadBalancer → Got × LoadBalancer
unfolding select_backend active_backends
get_backend lb = choose (active_backends lb.backends) lb

-- What one health check finds: the error, the time it took, and when it ended.
pub record Checked : Type 0 where
  pub error : Option String
  pub latency : ℤ
  pub at : ℕ

unfoldable pub check_backend_health : Checked → Backend → Backend
check_backend_health c b =
    let b' = record b { last_check = c.at; latency = c.latency } in
    elim c.error [
      | some _ ↦ record b' { is_active = false; health = pos 0 }
      | none ↦ record b' { is_active = true; health = pos 10000 }
    ]

-- `performHealthCheck` once each of its goroutines has ended. Each writes its own backend only, so
-- their order does not matter; what a check finds is a parameter.
unfoldable pub perform_health_check : (Backend → Checked) → LoadBalancer → LoadBalancer
unfolding check_backend_health
perform_health_check check lb = record lb {
  backends = map (λ b. check_backend_health (check b) b) lb.backends;
}

pub record Stats : Type 0 where
  pub total_backends : ℕ
  pub active : ℕ
  pub inactive : ℕ
  pub total_latency : ℤ

abbrev pub count_backend : Backend → Stats → Stats
count_backend b s =
    let s' = record s { total_latency = s.total_latency +ℤ b.latency } in
    if b.is_active
    then record s' { active = s.active + 1 }
    else record s' { inactive = s.inactive + 1 }

stats_from : Stats → List Backend → Stats
stats_from s [] = s
stats_from s (b ∷ bs) = stats_from (count_backend b s) bs

-- `GetStats` before its divisions.
unfoldable pub get_stats : LoadBalancer → Stats
unfolding stats_from
get_stats lb =
    stats_from
      (record {
        total_backends = length lb.backends;
        active = 0;
        inactive = 0;
        total_latency = pos 0;
      })
      lb.backends
