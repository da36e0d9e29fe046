-- ===== src/Tests/Caches.antt =====
-- Tests of the cache.

use transaction_api.Prelude.{
  ◌≡◌, refl, ℤ, pos, negsuc, ◌↔◌, ◌⊎◌, ◌+◌, ◌≤◌, ◌<◌, none, ok, err, List, [], ◌∷◌, arith,
}
use transaction_api.Domain.Base.{pending, credit}
use transaction_api.Domain.User.{User, user_role}
use transaction_api.Domain.Balance.{Balance}
use transaction_api.Domain.Transaction.{Transaction}
use transaction_api.Cache.{Codec}
use transaction_api.Cache.Keys.{user_key, balance_key, user_transactions_key}
use transaction_api.Cache.Service.{Repositories, paginate}
use transaction_api.Cache.Requests.{
  ask_user, ask_transaction, ask_balance, AreRight, ask_all, ask_all-AreRight,
}
use transaction_api.Cache.Pages.{max_int, paginate-none_iff}
use transaction_api.Cache.Invalidation.{user, invalidate_by_entity_type, invalidate_user}
use transaction_api.Cache.Invalidation.Laws.{invalidate_user-clears}
use transaction_api.Cache.Invalidation.Batches.{
  each, invalidate_one, invalidate_by_entity_type-each,
}
use transaction_api.Cache.Warmup.{get_default_config, warmup_user}
use transaction_api.Cache.Warmup.Laws.{Tries, warmup_user-Tries}
use transaction_api.Tests.Server.{
  Bytes, user_bytes, balance_bytes, Entries, lookup, in_memory, in_memory-IsRedis, begins_with,
  begins_with-IsGlob, AnyText, formats, formats-Injective, user_codec, transaction_codec,
  balance_codec, user_codec-ReadsBack, transaction_codec-ReadsBack, balance_codec-ReadsBack,
}

abbrev ann : User
ann = record {
  id = 1;
  email = "ann@example.org";
  password = "secret";
  first_name = "Ann";
  last_name = "Lee";
  role = user_role;
  created_at = 0;
  updated_at = 0;
}

abbrev payment : Transaction
payment = record {
  id = 1;
  user_id = 1;
  type_ = credit;
  amount = pos 500;
  description = "";
  reference_id = "";
  balance_after = pos 500;
  status = pending;
  created_at = 0;
  updated_at = 0;
}

abbrev account : Balance
account = record {
  id = 1;
  user_id = 1;
  amount = pos 500;
  currency = "EUR";
  created_at = 0;
  updated_at = 0;
}

-- Repositories with one row of each kind at every number.
abbrev rows : Repositories Entries
rows = record {
  user_by_id = λ n d. ok ann;
  transaction_by_id = λ n d. ok payment;
  balance_by_user_id = λ n d. ok account;
  transactions_by_user_id = λ n d. ok (payment ∷ payment ∷ payment ∷ []);
}

-- The second read of the user is answered from the cache, without the password.
ask_all-AreRight_example :
    AreRight in_memory formats rows user_codec transaction_codec balance_codec []
      (ask_user 1 ∷ ask_balance 1 ∷ ask_user 1 ∷ ask_transaction 2 ∷ [])
      (ask_all in_memory formats rows user_codec transaction_codec balance_codec []
        (ask_user 1 ∷ ask_balance 1 ∷ ask_user 1 ∷ ask_transaction 2 ∷ [])
        [])
ask_all-AreRight_example =
    ask_all-AreRight in_memory formats rows user_codec transaction_codec balance_codec lookup
      begins_with in_memory-IsRedis formats-Injective user_codec-ReadsBack
      transaction_codec-ReadsBack balance_codec-ReadsBack []
      (ask_user 1 ∷ ask_balance 1 ∷ ask_user 1 ∷ ask_transaction 2 ∷ []) []
      ((λ u. tt), (λ t. tt), λ u. tt)

paginate-none_iff_example :
    (paginate (negsuc 0) (pos 0) (payment ∷ payment ∷ []) ≡ none)
    ↔ ((1 ≤ 0) ⊎ (max_int < 0 + 0) ⊎ (1 ≤ 1) × (0 < 2 + 1))
paginate-none_iff_example =
    paginate-none_iff (negsuc 0) (pos 0) (payment ∷ payment ∷ []) (omega arith)
      (omega arith, omega arith) (omega arith, omega arith)

-- A codec of pages that stores none.
abbrev page_codec : Codec (List Transaction) Bytes
page_codec = record { marshal = λ p. err "no"; unmarshal = λ b. err "no" }

abbrev filled : Entries
filled = (balance_key formats 1, balance_bytes account) ∷ (user_key formats 1, user_bytes ann) ∷ []

invalidate_user-clears_example :
    (lookup (user_key formats 1) (invalidate_user in_memory formats 1 filled).1 ≡ none)
    × (lookup (balance_key formats 1) (invalidate_user in_memory formats 1 filled).1 ≡ none)
    × ((limit offset : ℤ)
        → lookup
            (user_transactions_key formats 1 limit offset)
            (invalidate_user in_memory formats 1 filled).1
          ≡ none)
invalidate_user-clears_example =
    invalidate_user-clears in_memory lookup begins_with in_memory-IsRedis formats AnyText
      begins_with-IsGlob 1 filled ((λ p s. refl), λ ks s. refl) tt tt tt

invalidate_by_entity_type-each_example :
    (invalidate_by_entity_type in_memory formats user (1 ∷ 2 ∷ []) filled).1
    ≡ each in_memory (invalidate_one in_memory formats user) (1 ∷ 2 ∷ []) filled
invalidate_by_entity_type-each_example =
    invalidate_by_entity_type-each in_memory formats user (1 ∷ 2 ∷ []) filled

warmup_user-Tries_example :
    Tries in_memory
      (λ t w. w)
      user_codec
      (user_key formats 1)
      get_default_config
      (rows.user_by_id (formats.uuid_id 1))
      3
      []
      (warmup_user in_memory (λ t w. w) formats rows user_codec get_default_config 1 [])
warmup_user-Tries_example = warmup_user-Tries in_memory (λ t w. w) formats rows user_codec 1 []
