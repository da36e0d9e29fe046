-- ===== src/Cache/Invalidation.antt =====
-- pkg/cache/invalidation.go.
pub mod Laws
pub mod Batches
use transaction_api.Prelude.{
  ◌≡◌, Bool, true, false, Option, none, some, String, List, [], ◌∷◌, ◌++◌, if◌then◌else◌,
}
use transaction_api.Domain.Base.{Uuid}
use transaction_api.Cache.{Redis, CacheError, delete, delete_pattern, flush_all}
use transaction_api.Cache.Keys.{
  Formats, user_pattern, user_transactions_pattern, balance_pattern, transaction_pattern,
  event_pattern, aggregate_events_pattern, all_events_pattern, all_transactions_pattern,
  all_users_pattern, all_balances_pattern,
}

-- The text of an entity type.
pub data EntityType : Type 0 where
  user transaction balance event aggregate_events : EntityType
  other_entity : String → EntityType

pub record InvalidationRule : Type 0 where
  pub entity_type : EntityType
  pub entity_id : Uuid
  pub patterns : List String
  pub keys : List String

module _ {S B : Type 0} (redis : Redis S B) where
  -- The loops: an error is only logged.
  unfoldable pub delete_each : List String → S → S
  unfolding delete
  delete_each [] s = s
  delete_each (k ∷ ks) s = delete_each ks (delete redis k s).1

  unfoldable pub delete_patterns : List String → S → S
  unfolding delete_pattern
  delete_patterns [] s = s
  delete_patterns (p ∷ ps) s = delete_patterns ps (delete_pattern redis p s).1

  unfoldable pub invalidate : List String → S → Option CacheError × S
  unfolding delete_each
  invalidate keys s = (none, delete_each keys s)

  unfoldable pub invalidate_pattern : List String → S → Option CacheError × S
  unfolding delete_patterns
  invalidate_pattern patterns s = (none, delete_patterns patterns s)

  abbrev pub invalidate_all : S → Option CacheError × S
  invalidate_all s = flush_all redis s

  unfoldable pub invalidate_all_events : S → Option CacheError × S
  unfolding invalidate_pattern
  invalidate_all_events s = invalidate_pattern (all_events_pattern ∷ []) s

  unfoldable pub invalidate_all_transactions : S → Option CacheError × S
  unfolding invalidate_pattern
  invalidate_all_transactions s = invalidate_pattern (all_transactions_pattern ∷ []) s

  unfoldable pub invalidate_all_users : S → Option CacheError × S
  unfolding invalidate_pattern
  invalidate_all_users s = invalidate_pattern (all_users_pattern ∷ []) s

  unfoldable pub invalidate_all_balances : S → Option CacheError × S
  unfolding invalidate_pattern
  invalidate_all_balances s = invalidate_pattern (all_balances_pattern ∷ []) s

module _ {S B : Type 0} (redis : Redis S B) (f : Formats) where
  unfoldable pub invalidate_user : Uuid → S → Option CacheError × S
  unfolding invalidate_pattern
  invalidate_user u s =
      invalidate_pattern redis
        (user_pattern f u ∷ user_transactions_pattern f u ∷ balance_pattern f u ∷ []) s

  unfoldable pub invalidate_transaction : Uuid → S → Option CacheError × S
  unfolding invalidate_pattern
  invalidate_transaction t s = invalidate_pattern redis (transaction_pattern f t ∷ []) s

  unfoldable pub invalidate_balance : Uuid → S → Option CacheError × S
  unfolding invalidate_pattern
  invalidate_balance u s = invalidate_pattern redis (balance_pattern f u ∷ []) s

  unfoldable pub invalidate_event : Uuid → S → Option CacheError × S
  unfolding invalidate_pattern
  invalidate_event e s = invalidate_pattern redis (event_pattern f e ∷ []) s

  unfoldable pub invalidate_aggregate_events : Uuid → S → Option CacheError × S
  unfolding invalidate_pattern
  invalidate_aggregate_events a s = invalidate_pattern redis (aggregate_events_pattern f a ∷ []) s

-- The builder is its list of rules.
abbrev pub rule : EntityType → Uuid → List String → InvalidationRule
rule t id ps = record { entity_type = t; entity_id = id; patterns = ps; keys = [] }

module _ (f : Formats) where
  abbrev pub add_user_rule : Uuid → List InvalidationRule → List InvalidationRule
  add_user_rule u b =
      b
      ++ rule user u (user_pattern f u ∷ user_transactions_pattern f u ∷ balance_pattern f u ∷ [])
        ∷ []

  abbrev pub add_transaction_rule : Uuid → List InvalidationRule → List InvalidationRule
  add_transaction_rule t b = b ++ rule transaction t (transaction_pattern f t ∷ []) ∷ []

  abbrev pub add_balance_rule : Uuid → List InvalidationRule → List InvalidationRule
  add_balance_rule u b = b ++ rule balance u (balance_pattern f u ∷ []) ∷ []

  abbrev pub add_event_rule : Uuid → List InvalidationRule → List InvalidationRule
  add_event_rule e b = b ++ rule event e (event_pattern f e ∷ []) ∷ []

  abbrev pub add_aggregate_events_rule : Uuid → List InvalidationRule → List InvalidationRule
  add_aggregate_events_rule a b =
      b ++ rule aggregate_events a (aggregate_events_pattern f a ∷ []) ∷ []

abbrev add_custom_rule :
    EntityType → Uuid → List String → List String → List InvalidationRule → List InvalidationRule
add_custom_rule t id ps ks b =
    b ++ record { entity_type = t; entity_id = id; patterns = ps; keys = ks } ∷ []

-- A loop that adds a rule for each identifier.
unfoldable pub add_rules :
    (Uuid → List InvalidationRule → List InvalidationRule)
    → List Uuid
    → List InvalidationRule
    → List InvalidationRule
add_rules add [] b = b
add_rules add (u ∷ us) b = add_rules add us (add u b)

-- The two lists that the loop of `InvalidateBatch` collects.
unfoldable pub all_patterns : List InvalidationRule → List String
all_patterns [] = []
all_patterns (r ∷ rs) = r.patterns ++ all_patterns rs

unfoldable pub all_keys : List InvalidationRule → List String
all_keys [] = []
all_keys (r ∷ rs) = r.keys ++ all_keys rs

module _ {S B : Type 0} (redis : Redis S B) where
  unfoldable pub invalidate_batch : List InvalidationRule → S → Option CacheError × S
  unfolding invalidate invalidate_pattern all_patterns all_keys
  invalidate_batch rules s =
      invalidate redis (all_keys rules) (invalidate_pattern redis (all_patterns rules) s).1

-- The error names an unknown entity type.
pub data EntityError : Type 0 where
  unknown_entity_type : String → EntityError

module _ {S B : Type 0} (redis : Redis S B) (f : Formats) where
  unfoldable batch :
      (Uuid → List InvalidationRule → List InvalidationRule)
      → List Uuid
      → S
      → Option EntityError × S
  unfolding add_rules invalidate_batch
  batch add ids s = (none, (invalidate_batch redis (add_rules add ids []) s).1)

  abbrev rules_of : EntityType → List Uuid → S → Option EntityError × S
  rules_of user ids s = batch (add_user_rule f) ids s
  rules_of transaction ids s = batch (add_transaction_rule f) ids s
  rules_of balance ids s = batch (add_balance_rule f) ids s
  rules_of event ids s = batch (add_event_rule f) ids s
  rules_of aggregate_events ids s = batch (add_aggregate_events_rule f) ids s
  rules_of (other_entity t) ids s = (some (unknown_entity_type t), s)

  unfoldable pub invalidate_by_entity_type : EntityType → List Uuid → S → Option EntityError × S
  unfolding batch
  invalidate_by_entity_type t [] s = (none, s)
  invalidate_by_entity_type t (u ∷ us) s = rules_of t (u ∷ us) s
