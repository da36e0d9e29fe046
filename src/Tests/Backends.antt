-- ===== src/Tests/Backends.antt =====
-- Tests of the load balancer.
use transaction_api.Prelude.{◌≡◌, refl, pos, true, false, none, [], ◌∷◌, All, arith}
use transaction_api.LoadBalancer.{
  Backend, LoadBalancer, least_connections, selected, panics, got, get_backend, Checked,
  perform_health_check, check_backend_health,
}
use transaction_api.LoadBalancer.RoundRobin.{select_all, select_all-panics}
use transaction_api.LoadBalancer.Health.{Gives, get_backend-Gives}

abbrev east : Backend
east = record {
  id = "east";
  url = "http://east";
  weight = pos 1;
  is_active = true;
  health = pos 10000;
  latency = pos 20;
  last_check = 0;
}

abbrev west : Backend
west = record east { id = "west"; url = "http://west"; latency = pos 30; is_active = false }

abbrev balancer : LoadBalancer
balancer = record { backends = west ∷ east ∷ []; strategy = least_connections }

abbrev healthy : Backend → Checked
healthy _ = record { error = none; latency = pos 10; at = 9 }

select_all-panics_example : All (λ s. s ≡ panics) (select_all 1 ((east ∷ []) ∷ (west ∷ []) ∷ []))
select_all-panics_example =
    select_all-panics 1 ((east ∷ []) ∷ (west ∷ []) ∷ [])
      ((omega arith, omega arith), ((omega arith, omega arith), tt))

get_backend-Gives_example :
    Gives balancer (get_backend balancer).0 × ((get_backend balancer).1.backends ≡ west ∷ east ∷ [])
get_backend-Gives_example = get_backend-Gives balancer

given_west :
    (get_backend (perform_health_check healthy balancer)).0
    ≡ got (selected (check_backend_health (healthy west) west))
unfolding get_backend perform_health_check check_backend_health
given_west = refl
