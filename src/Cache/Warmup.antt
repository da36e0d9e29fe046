-- ===== src/Cache/Warmup.antt =====
-- pkg/cache/warmup.go. The world `W` holds the server and the databases, which may change while a
-- goroutine sleeps; the goroutines of a warmup run one after another here, in any order.
pub mod Laws
use transaction_api.Prelude.{
  ℕ, zero, suc, ℤ, pos, pos_part, Option, none, some, Result, ok, err, String, List, [], ◌∷◌,
}
use transaction_api.Domain.Base.{Uuid}
use transaction_api.Domain.User.{User}
use transaction_api.Domain.Balance.{Balance}
use transaction_api.Domain.Transaction.{Transaction}
use transaction_api.Sourcing.Events.{Event}
use transaction_api.Cache.{Redis, Codec, CacheError, set}
use transaction_api.Cache.Keys.{
  Formats, user_key, transaction_key, balance_key, aggregate_events_key,
}
use transaction_api.Cache.Service.{Repositories}

pub record WarmupConfig : Type 0 where
  pub default_ttl : ℤ
  pub batch_size : ℤ
  pub concurrency_limit : ℤ
  pub retry_attempts : ℤ
  pub retry_delay : ℤ

abbrev pub get_default_config : WarmupConfig
get_default_config = record {
  default_ttl = pos 1800000000000;
  batch_size = pos 100;
  concurrency_limit = pos 10;
  retry_attempts = pos 3;
  retry_delay = pos 1000000000;
}

pub data WarmupError : Type 0 where
  not_fetched : String → WarmupError
  not_cached : CacheError → WarmupError
  no_attempts : ℤ → WarmupError

abbrev pub cached : Option CacheError → Option WarmupError
cached none = none
cached (some e) = some (not_cached e)

-- The loop returns after a success or the last attempt, and else sleeps and goes on.
abbrev pub retried :
    {W : Type 0} → Option WarmupError → ℕ → W → Option WarmupError × W → Option WarmupError × W
retried none n w rest = (none, w)
retried (some e) zero w rest = (some e, w)
retried (some e) (suc n) w rest = rest

module _ {W B : Type 0} (redis : Redis W B) (sleep : ℤ → W → W) where
  abbrev pub store_fetched :
      {A : Type 0}
      → Codec A B
      → String
      → WarmupConfig
      → Result String A
      → W
      → Option WarmupError × W
  store_fetched codec key config (err e) w = (some (not_fetched e), w)
  store_fetched codec key config (ok v) w =
      let (e, w') = set redis codec key v config.default_ttl w in (cached e, w')

  -- One pass of the loop, without its sleep.
  unfoldable pub attempt :
      {A : Type 0}
      → Codec A B
      → String
      → WarmupConfig
      → (W → Result String A)
      → W
      → Option WarmupError × W
  unfolding set
  attempt codec key config fetch w = store_fetched codec key config (fetch w) w

  unfoldable pub retry :
      {A : Type 0}
      → Codec A B
      → String
      → WarmupConfig
      → (W → Result String A)
      → ℕ
      → W
      → Option WarmupError × W
  unfolding attempt
  retry codec key config fetch zero w = (some (no_attempts config.retry_attempts), w)
  retry codec key config fetch (suc n) w =
      let (e, w') = attempt codec key config fetch w in
      let rest = retry codec key config fetch n (sleep config.retry_delay w') in retried e n w' rest

  module _ (f : Formats) (repos : Repositories W) where
    unfoldable pub warmup_user : Codec User B → WarmupConfig → Uuid → W → Option WarmupError × W
    unfolding retry
    warmup_user codec config u w =
        retry codec (user_key f u) config (repos.user_by_id (f.uuid_id u))
          (pos_part config.retry_attempts) w

    unfoldable pub warmup_transaction :
        Codec Transaction B → WarmupConfig → Uuid → W → Option WarmupError × W
    unfolding retry
    warmup_transaction codec config t w =
        retry codec (transaction_key f t) config (repos.transaction_by_id (f.uuid_id t))
          (pos_part config.retry_attempts) w

    unfoldable pub warmup_balance :
        Codec Balance B → WarmupConfig → Uuid → W → Option WarmupError × W
    unfolding retry
    warmup_balance codec config u w =
        retry codec (balance_key f u) config (repos.balance_by_user_id (f.uuid_id u))
          (pos_part config.retry_attempts) w

    -- The key is computed and nothing is stored.
    abbrev warmup_event : WarmupConfig → Uuid → W → Option WarmupError × W
    warmup_event config e w = (none, w)

    unfoldable pub warmup_aggregate :
        Codec (List Event) B
        → (Uuid → W → Result String (List Event))
        → WarmupConfig
        → Uuid
        → W
        → Option WarmupError × W
    unfolding attempt
    warmup_aggregate codec get_events config a w =
        attempt codec (aggregate_events_key f a) config (get_events a) w

-- The errors that the goroutines of a warmup send, with the identifiers.
abbrev pub failed_one :
    Uuid → Option WarmupError → List (Uuid × WarmupError) → List (Uuid × WarmupError)
failed_one u none es = es
failed_one u (some e) es = (u, e) ∷ es

unfoldable pub warm_each :
    {W : Type 0}
    → (Uuid → W → Option WarmupError × W)
    → List Uuid
    → W
    → List (Uuid × WarmupError) × W
warm_each one [] w = ([], w)
warm_each one (u ∷ us) w =
    let (e, w1) = one u w in let (es, w2) = warm_each one us w1 in (failed_one u e es, w2)

-- The error that lists those of the goroutines.
abbrev pub warmup_failed : List (Uuid × WarmupError) → Option (List (Uuid × WarmupError))
warmup_failed [] = none
warmup_failed (e ∷ es) = some (e ∷ es)

abbrev pub warm_all :
    {W : Type 0}
    → (Uuid → W → Option WarmupError × W)
    → List Uuid
    → W
    → Option (List (Uuid × WarmupError)) × W
warm_all one us w = let (es, w') = warm_each one us w in (warmup_failed es, w')

module _ {W B : Type 0} (redis : Redis W B) (sleep : ℤ → W → W) (f : Formats)
    (repos : Repositories W) where
  unfoldable pub warmup_users :
      Codec User B → List Uuid → W → Option (List (Uuid × WarmupError)) × W
  unfolding warmup_user warm_each
  warmup_users codec us w = warm_all (warmup_user redis sleep f repos codec get_default_config) us w

  unfoldable pub warmup_transactions :
      Codec Transaction B → List Uuid → W → Option (List (Uuid × WarmupError)) × W
  unfolding warmup_transaction warm_each
  warmup_transactions codec ts w =
      warm_all (warmup_transaction redis sleep f repos codec get_default_config) ts w

  unfoldable pub warmup_balances :
      Codec Balance B → List Uuid → W → Option (List (Uuid × WarmupError)) × W
  unfolding warmup_balance warm_each
  warmup_balances codec us w =
      warm_all (warmup_balance redis sleep f repos codec get_default_config) us w

  unfoldable pub warmup_events : List Uuid → W → Option (List (Uuid × WarmupError)) × W
  unfolding warm_each
  warmup_events es w = warm_all (warmup_event redis sleep f repos get_default_config) es w

  unfoldable pub warmup_aggregate_events :
      Codec (List Event) B
      → (Uuid → W → Result String (List Event))
      → List Uuid
      → W
      → Option (List (Uuid × WarmupError)) × W
  unfolding warmup_aggregate warm_each
  warmup_aggregate_events codec get_events ids w =
      warm_all (warmup_aggregate redis sleep f repos codec get_events get_default_config) ids w

  -- The four steps only log.
  abbrev warmup : W → Option WarmupError × W
  warmup w = (none, w)
