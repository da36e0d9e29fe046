-- ===== src/Cache/Keys.antt =====
-- pkg/cache/redis.go: the keys of the cache and the patterns of its invalidation.
use Prim.Native.String.{◌++◌}
use transaction_api.Prelude.{ℕ, ℤ, String}
use transaction_api.Domain.Base.{Uuid}

-- `uuid.UUID.String`, `uuid.UUID.ID`, and the formats of numbers and event types.
pub record Formats : Type 0 where
  pub uuid_text : Uuid → String
  pub uuid_id : Uuid → ℕ
  pub int_text : ℤ → String

module _ (f : Formats) where
  abbrev pub user_key : Uuid → String
  user_key u = "user:" ++ f.uuid_text u

  abbrev pub transaction_key : Uuid → String
  transaction_key t = "transaction:" ++ f.uuid_text t

  abbrev pub user_transactions_key : Uuid → ℤ → ℤ → String
  user_transactions_key u limit offset =
      "user_transactions:"
      ++ (f.uuid_text u ++ (":" ++ (f.int_text limit ++ (":" ++ f.int_text offset))))

  abbrev pub balance_key : Uuid → String
  balance_key u = "balance:" ++ f.uuid_text u

  abbrev pub event_key : Uuid → String
  event_key e = "event:" ++ f.uuid_text e

  abbrev pub aggregate_events_key : Uuid → String
  aggregate_events_key a = "aggregate_events:" ++ f.uuid_text a

  abbrev event_type_key : String → ℤ → ℤ → String
  event_type_key t limit offset =
      "event_type:" ++ (t ++ (":" ++ (f.int_text limit ++ (":" ++ f.int_text offset))))

  abbrev event_time_range_key : ℤ → ℤ → String
  event_time_range_key start end =
      "event_time_range:" ++ (f.int_text start ++ (":" ++ f.int_text end))

  abbrev pub user_pattern : Uuid → String
  user_pattern u = ("user:" ++ f.uuid_text u) ++ "*"

  abbrev pub transaction_pattern : Uuid → String
  transaction_pattern t = ("transaction:" ++ f.uuid_text t) ++ "*"

  abbrev pub user_transactions_pattern : Uuid → String
  user_transactions_pattern u = ("user_transactions:" ++ f.uuid_text u) ++ "*"

  abbrev pub balance_pattern : Uuid → String
  balance_pattern u = ("balance:" ++ f.uuid_text u) ++ "*"

  abbrev pub event_pattern : Uuid → String
  event_pattern e = ("event:" ++ f.uuid_text e) ++ "*"

  abbrev pub aggregate_events_pattern : Uuid → String
  aggregate_events_pattern a = ("aggregate_events:" ++ f.uuid_text a) ++ "*"

abbrev event_type_pattern : String → String
event_type_pattern t = ("event_type:" ++ t) ++ "*"

abbrev event_statistics_key : String
event_statistics_key = "event_statistics"

abbrev pub all_events_pattern : String
all_events_pattern = "event:*"

abbrev pub all_transactions_pattern : String
all_transactions_pattern = "transaction:*"

abbrev pub all_users_pattern : String
all_users_pattern = "user:*"

abbrev pub all_balances_pattern : String
all_balances_pattern = "balance:*"
