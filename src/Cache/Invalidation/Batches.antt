-- ===== src/Cache/Invalidation/Batches.antt =====
-- A batch of invalidations does what single ones do, one after another.
use transaction_api.Prelude.{◌≡◌, refl, sym, ap, ◌∙◌, String, List, [], ◌∷◌, ◌++◌}
use mathlib.Core.List.{append_assoc}
use transaction_api.Domain.Base.{Uuid}
use transaction_api.Cache.{Redis}
use transaction_api.Cache.Keys.{
  Formats, user_pattern, user_transactions_pattern, balance_pattern, transaction_pattern,
  event_pattern, aggregate_events_pattern,
}
use transaction_api.Cache.Invalidation.{
  EntityType, user, transaction, balance, event, aggregate_events, other_entity, InvalidationRule,
  delete_each, delete_patterns, invalidate, invalidate_pattern, invalidate_user,
  invalidate_transaction, invalidate_balance, invalidate_event, invalidate_aggregate_events, rule,
  add_rules, all_patterns, all_keys, invalidate_batch, invalidate_by_entity_type, batch,
}

append-nil : {A : Type 0} (xs : List A) → xs ++ [] ≡ xs
append-nil [] = refl
append-nil (x ∷ xs) = ap (λ l. x ∷ l) (append-nil xs)

-- The rules that a builder collects for identifiers.
rules_for : (Uuid → InvalidationRule) → List Uuid → List InvalidationRule
rules_for r [] = []
rules_for r (u ∷ us) = r u ∷ rules_for r us

add_rules-rules_for :
    (r : Uuid → InvalidationRule) (us : List Uuid) (b : List InvalidationRule)
    → add_rules (λ u c. c ++ r u ∷ []) us b ≡ b ++ rules_for r us
unfolding add_rules rules_for
add_rules-rules_for r [] b = sym (append-nil b)
add_rules-rules_for r (u ∷ us) b =
    add_rules-rules_for r us (b ++ r u ∷ []) ∙ append_assoc b (r u ∷ []) (rules_for r us)

module _ {S B : Type 0} (redis : Redis S B) where
  delete_patterns-append :
      (ps qs : List String) (s : S)
      → delete_patterns redis (ps ++ qs) s ≡ delete_patterns redis qs (delete_patterns redis ps s)
  unfolding delete_patterns
  delete_patterns-append [] qs s = refl
  delete_patterns-append (p ∷ ps) qs s = delete_patterns-append ps qs _

  -- One invalidation for each identifier.
  pub each : (Uuid → S → S) → List Uuid → S → S
  each f [] s = s
  each f (u ∷ us) s = each f us (f u s)

  delete_patterns-rules :
      (t : EntityType) (ps : Uuid → List String) (us : List Uuid) (s : S)
      → delete_patterns redis (all_patterns (rules_for (λ u. rule t u (ps u)) us)) s
        ≡ each (λ u. delete_patterns redis (ps u)) us s
  unfolding rules_for all_patterns each delete_patterns
  delete_patterns-rules t ps [] s = refl
  delete_patterns-rules t ps (u ∷ us) s =
      delete_patterns-append (ps u) _ s ∙ delete_patterns-rules t ps us _

  all_keys-rules :
      (t : EntityType) (ps : Uuid → List String) (us : List Uuid)
      → all_keys (rules_for (λ u. rule t u (ps u)) us) ≡ []
  unfolding rules_for all_keys
  all_keys-rules t ps [] = refl
  all_keys-rules t ps (u ∷ us) = all_keys-rules t ps us

  invalidate_batch-each :
      (t : EntityType) (ps : Uuid → List String) (us : List Uuid) (s : S)
      → (invalidate_batch redis (add_rules (λ u c. c ++ rule t u (ps u) ∷ []) us []) s).1
        ≡ each (λ u. delete_patterns redis (ps u)) us s
  unfolding invalidate_batch invalidate invalidate_pattern delete_each
  invalidate_batch-each t ps us s =
      rw (add_rules-rules_for (λ u. rule t u (ps u)) us [], all_keys-rules t ps us)
        (delete_patterns-rules t ps us s)

module _ {S B : Type 0} (redis : Redis S B) (f : Formats) where
  -- The invalidation of one entity of a type.
  abbrev pub invalidate_one : EntityType → Uuid → S → S
  invalidate_one user u s = (invalidate_user redis f u s).1
  invalidate_one transaction t s = (invalidate_transaction redis f t s).1
  invalidate_one balance u s = (invalidate_balance redis f u s).1
  invalidate_one event e s = (invalidate_event redis f e s).1
  invalidate_one aggregate_events a s = (invalidate_aggregate_events redis f a s).1
  invalidate_one (other_entity t) u s = s

  each_nothing : (us : List Uuid) (s : S) → each redis (λ u s. s) us s ≡ s
  unfolding each
  each_nothing [] s = refl
  each_nothing (u ∷ us) s = each_nothing us s

  -- A batch by entity type leaves the server as the single invalidations of its identifiers do, one
  -- after another, for each of the five types; for an unknown type it leaves it as it was.
  pub invalidate_by_entity_type-each :
      (t : EntityType) (us : List Uuid) (s : S)
      → (invalidate_by_entity_type redis f t us s).1 ≡ each redis (invalidate_one t) us s
  unfolding invalidate_by_entity_type each batch invalidate_user invalidate_transaction
      invalidate_balance invalidate_event invalidate_aggregate_events invalidate_pattern
  invalidate_by_entity_type-each t [] s = refl
  invalidate_by_entity_type-each user (u ∷ us) s =
      invalidate_batch-each redis user
        (λ v. user_pattern f v ∷ user_transactions_pattern f v ∷ balance_pattern f v ∷ []) (u ∷ us)
        s
  invalidate_by_entity_type-each transaction (u ∷ us) s =
      invalidate_batch-each redis transaction (λ v. transaction_pattern f v ∷ []) (u ∷ us) s
  invalidate_by_entity_type-each balance (u ∷ us) s =
      invalidate_batch-each redis balance (λ v. balance_pattern f v ∷ []) (u ∷ us) s
  invalidate_by_entity_type-each event (u ∷ us) s =
      invalidate_batch-each redis event (λ v. event_pattern f v ∷ []) (u ∷ us) s
  invalidate_by_entity_type-each aggregate_events (u ∷ us) s =
      invalidate_batch-each redis aggregate_events (λ v. aggregate_events_pattern f v ∷ []) (u ∷ us)
        s
  invalidate_by_entity_type-each (other_entity t) (u ∷ us) s = sym (each_nothing (u ∷ us) s)
