-- ===== src/LoadBalancer/Health.antt =====
-- Which backends a balancer hands out, and what the health checks and the statistics say of them.
use transaction_api.Prelude.{
  ℕ, zero, suc, ◌+◌, ◌≡◌, refl, ◌≢◌, ◌⊎◌, inl, inr, Bool, true, false, Option, none, some, List, [],
  ◌∷◌, if◌then◌else◌, ap, ◌∙◌, sym, All, Among, arith, length, get_elem?, map,
}
use mathlib.Core.Path.{subst}
use transaction_api.LoadBalancer.{
  Backend, LoadBalancer, Strategy, round_robin, weighted_round_robin, least_connections,
  at_position, Selection, selected, nothing, panics, choose, count_backend, Got, no_active_backends,
  got, active_backends, get_backend, select_backend, select_round_robin, select_least, Checked,
  perform_health_check, check_backend_health, Stats, stats_from, get_stats,
}
use transaction_api.LoadBalancer.Least.{IsLeast, select_least-IsLeast}
use transaction_api.LoadBalancer.RoundRobin.{select_weighted-eq-select_round_robin}

get_elem?-Among : (bs : List Backend) (i : ℕ) (x : Backend) → get_elem? bs i ≡ some x → Among x bs
get_elem?-Among [] i x e = cc
get_elem?-Among (b ∷ bs) zero x e = inl cc
get_elem?-Among (b ∷ bs) (suc i) x e = inr (get_elem?-Among bs i x e)

-- What `SelectBackend` may do on a list of backends.
abbrev Picks : Strategy → List Backend → Selection → Type 0
Picks strategy bs (selected b) = Among b bs
Picks strategy bs nothing = (bs ≡ []) ⊎ (strategy ≡ least_connections)
Picks strategy bs panics = strategy ≢ least_connections

select_round_robin-Picks :
    (s : Strategy) (c : ℕ) (bs : List Backend)
    → s ≢ least_connections
    → Picks s bs (select_round_robin c bs).0
unfolding select_round_robin
select_round_robin-Picks s c [] h = inl refl
select_round_robin-Picks s c (b ∷ bs) h = picks (get_elem? (b ∷ bs) c) refl
  where
    picks : (o : Option Backend) → get_elem? (b ∷ bs) c ≡ o → Picks s (b ∷ bs) (at_position o)
    picks none e = h
    picks (some x) e = get_elem?-Among (b ∷ bs) c x e

select_least-Picks :
    (bs : List Backend) (s : Selection) → IsLeast bs s → Picks least_connections bs s
select_least-Picks bs (selected b) h = h.0
select_least-Picks bs nothing h = inr refl
select_least-Picks bs panics h = absurd h

select_backend-Picks : (s : Strategy) (bs : List Backend) → Picks s bs (select_backend s bs).0
unfolding select_backend
select_backend-Picks (round_robin c) bs = select_round_robin-Picks (round_robin c) c bs (λ e. cc)
select_backend-Picks (weighted_round_robin c) bs =
    rw (select_weighted-eq-select_round_robin c bs)
      (select_round_robin-Picks (weighted_round_robin c) c bs (λ e. cc))
select_backend-Picks least_connections bs =
    select_least-Picks bs (select_least bs) (select_least-IsLeast bs)

Among-if :
    (x b : Backend) (bs rest : List Backend) (t : Bool)
    → b.is_active ≡ t
    → (Among x rest → Among x bs × (x.is_active ≡ true))
    → Among x (if t then b ∷ rest else rest)
    → Among x (b ∷ bs) × (x.is_active ≡ true)
Among-if x b bs rest true e f (inl p) = (inl p, ap (λ y. y.is_active) p ∙ e)
Among-if x b bs rest true e f (inr m) = (inr (f m).0, (f m).1)
Among-if x b bs rest false e f m = (inr (f m).0, (f m).1)

Among-active_backends :
    (x : Backend) (bs : List Backend)
    → Among x (active_backends bs)
    → Among x bs × (x.is_active ≡ true)
unfolding active_backends
Among-active_backends x [] m = absurd m
Among-active_backends x (b ∷ bs) m =
    Among-if x b bs (active_backends bs) b.is_active refl (Among-active_backends x bs) m

inactive-if :
    (b : Backend) (bs rest : List Backend) (t : Bool)
    → b.is_active ≡ t
    → (rest ≡ [] → All (λ c. c.is_active ≡ false) bs)
    → (if t then b ∷ rest else rest) ≡ []
    → All (λ c. c.is_active ≡ false) (b ∷ bs)
inactive-if b bs rest true e f p = cc
inactive-if b bs rest false e f p = (e, f p)

active_backends-nil :
    (bs : List Backend) → active_backends bs ≡ [] → All (λ b. b.is_active ≡ false) bs
unfolding active_backends
active_backends-nil [] p = tt
active_backends-nil (b ∷ bs) p =
    inactive-if b bs (active_backends bs) b.is_active refl (active_backends-nil bs) p

-- What `GetBackend` may answer.
abbrev pub Gives : LoadBalancer → Got → Type 0
Gives lb no_active_backends = All (λ b. b.is_active ≡ false) lb.backends
Gives lb (got (selected b)) = Among b lb.backends × (b.is_active ≡ true)
Gives lb (got nothing) = lb.strategy ≡ least_connections
Gives lb (got panics) = lb.strategy ≢ least_connections

Gives-picked :
    (lb : LoadBalancer) (b : Backend) (bs : List Backend) (s : Selection)
    → active_backends lb.backends ≡ b ∷ bs
    → Picks lb.strategy (b ∷ bs) s
    → Gives lb (got s)
Gives-picked lb b bs (selected x) e m =
    Among-active_backends x lb.backends (subst (Among x) (sym e) m)
Gives-picked lb b bs nothing e (inl p) = cc
Gives-picked lb b bs nothing e (inr p) = p
Gives-picked lb b bs panics e p = p

choose-Gives :
    (lb : LoadBalancer) (bs : List Backend)
    → active_backends lb.backends ≡ bs
    → Gives lb (choose bs lb).0 × ((choose bs lb).1.backends ≡ lb.backends)
choose-Gives lb [] e = (active_backends-nil lb.backends e, refl)
choose-Gives lb (b ∷ bs) e = (
  Gives-picked lb b bs (select_backend lb.strategy (b ∷ bs)).0 e
      (select_backend-Picks lb.strategy (b ∷ bs)),
  refl,
)

-- `GetBackend` hands out only a backend of the balancer that is active, and reports that there is
-- none only when no backend is active; it may return nil only by least latency, and panic only by
-- a strategy that goes round. It keeps the backends.
pub get_backend-Gives :
    (lb : LoadBalancer) → Gives lb (get_backend lb).0 × ((get_backend lb).1.backends ≡ lb.backends)
unfolding get_backend
get_backend-Gives lb = choose-Gives lb (active_backends lb.backends) refl

Among-map :
    (f : Backend → Backend) (x : Backend) (bs : List Backend)
    → Among x (map f bs)
    → (c : Backend) × Among c bs × (x ≡ f c)
Among-map f x [] m = absurd m
Among-map f x (b ∷ bs) (inl e) = (b, inl refl, e)
Among-map f x (b ∷ bs) (inr m) = let (c, n, e) = Among-map f x bs m in (c, inr n, e)

check_backend_health-active :
    (k : Checked) (c : Backend) → (check_backend_health k c).is_active ≡ true → k.error ≡ none
unfolding check_backend_health
check_backend_health-active k c h = ground arith

-- After a round of health checks a backend that is handed out has passed its check.
pub get_backend-perform_health_check :
    (check : Backend → Checked) (lb : LoadBalancer) (b : Backend)
    → (get_backend (perform_health_check check lb)).0 ≡ got (selected b)
    → (c : Backend) × Among c lb.backends
      × ((check c).error ≡ none)
      × (b ≡ check_backend_health (check c) c)
unfolding perform_health_check
get_backend-perform_health_check check lb b e =
    let lb' = perform_health_check check lb in
    let (m, active) = subst (Gives lb') e (get_backend-Gives lb').0 in
    let (c, n, p) = Among-map (λ c. check_backend_health (check c) c) b lb.backends m in
    (c, n, check_backend_health-active (check c) c (ap (λ y. y.is_active) (sym p) ∙ active), p)

count_backend_one :
    (b : Backend) (s : Stats)
    → (count_backend b s).active + (count_backend b s).inactive ≡ s.active + s.inactive + 1
count_backend_one b s = ground arith

abbrev Counted : Stats → List Backend → Type 0
Counted s bs =
    (stats_from s bs).active + (stats_from s bs).inactive ≡ s.active + s.inactive + length bs

stats_from-Counted : (s : Stats) (bs : List Backend) → Counted s bs
unfolding stats_from
stats_from-Counted s [] = omega arith
stats_from-Counted s (b ∷ bs) =
    omega (arith, stats_from-Counted (count_backend b s) bs, count_backend_one b s)

-- The statistics count each backend once, as active or as inactive.
pub get_stats_total :
    (lb : LoadBalancer) → let s = get_stats lb in s.active + s.inactive ≡ length lb.backends
unfolding get_stats
get_stats_total lb = stats_from-Counted _ lb.backends ∙ omega arith
