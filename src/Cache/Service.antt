-- ===== src/Cache/Service.antt =====
-- pkg/service/cache_service.go: the reads through the cache, and the writes of it.
use transaction_api.Prelude.{
  ℕ, ◌-◌, ℤ, pos, negsuc, ◌+ℤ◌, ◌-ℤ◌, ltb_ℤ, leb_ℤ, ◌&&◌, Option, none, some, Result, ok, err,
  String, List, [], length, take, drop, if◌then◌else◌, leb,
}
use transaction_api.Domain.Base.{Uuid}
use transaction_api.Domain.User.{User}
use transaction_api.Domain.Balance.{Balance}
use transaction_api.Domain.Transaction.{Transaction}
use transaction_api.Sourcing.Events.{Event}
use transaction_api.Cache.{Redis, Codec, CacheError, set, get}
use transaction_api.Cache.Keys.{
  Formats, user_key, transaction_key, user_transactions_key, balance_key, aggregate_events_key,
}

-- What the service calls of the repositories, whose errors are texts here.
pub record Repositories (D : Type 0) : Type 0 where
  pub user_by_id : ℕ → D → Result String User
  pub transaction_by_id : ℕ → D → Result String Transaction
  pub balance_by_user_id : ℕ → D → Result String Balance
  pub transactions_by_user_id : ℕ → D → Result String (List Transaction)

-- The sum of two 64-bit integers.
abbrev pub wrap : ℤ → ℤ
wrap x =
    if leb_ℤ (pos 9223372036854775808) x
    then x -ℤ pos 18446744073709551616
    else if ltb_ℤ x (negsuc 9223372036854775807)
    then x +ℤ pos 18446744073709551616
    else x

-- `xs[start:end]`; `none` is a panic.
abbrev pub slice : {A : Type 0} → ℤ → ℤ → List A → Option (List A)
slice (pos a) (pos b) xs =
    if leb a b && leb b (length xs) then some (take (b - a) (drop a xs)) else none
slice _ _ xs = none

abbrev pub at_most : ℤ → ℤ → ℤ
at_most n x = if ltb_ℤ n x then n else x

unfoldable pub paginate : {A : Type 0} → ℤ → ℤ → List A → Option (List A)
paginate limit offset xs =
    let n = pos (length xs) in
    let end = at_most n (wrap (offset +ℤ limit)) in
    let start = at_most n offset in slice start end xs

module _ {S B : Type 0} (redis : Redis S B) where
  -- The reads of one entity: an error of the cache other than a miss is only logged, and so is that
  -- of the write.
  abbrev pub filled :
      {A : Type 0} → Codec A B → String → ℤ → Result String A → S → Result String A × S
  filled codec key expiration (err e) s = (err e, s)
  filled codec key expiration (ok v) s = (ok v, (set redis codec key v expiration s).1)

  unfoldable pub answered :
      {A : Type 0}
      → Codec A B
      → String
      → ℤ
      → Result String A
      → Result CacheError A × S
      → Result String A × S
  unfolding set
  answered codec key expiration fetched (ok v, s) = (ok v, s)
  answered codec key expiration fetched (err _, s) = filled codec key expiration fetched s

  unfoldable pub read_through :
      {A : Type 0} → Codec A B → String → ℤ → Result String A → S → Result String A × S
  unfolding get answered
  read_through codec key expiration fetched s =
      answered codec key expiration fetched (get redis codec key s)

module _ {S B D : Type 0} (redis : Redis S B) (f : Formats) (repos : Repositories D) where
  unfoldable pub get_user : Codec User B → Uuid → D → S → Result String User × S
  unfolding read_through
  get_user codec u d s =
      read_through redis codec (user_key f u) (pos 1800000000000) (repos.user_by_id (f.uuid_id u) d)
        s

  unfoldable pub get_transaction :
      Codec Transaction B → Uuid → D → S → Result String Transaction × S
  unfolding read_through
  get_transaction codec t d s =
      read_through redis codec (transaction_key f t) (pos 1800000000000)
        (repos.transaction_by_id (f.uuid_id t) d) s

  unfoldable pub get_balance : Codec Balance B → Uuid → D → S → Result String Balance × S
  unfolding read_through
  get_balance codec u d s =
      read_through redis codec (balance_key f u) (pos 900000000000)
        (repos.balance_by_user_id (f.uuid_id u) d) s

  -- A page that is read from the repository; `none` is a panic of the slice.
  abbrev pub cache_page :
      Codec (List Transaction) B
      → String
      → Option (List Transaction)
      → S
      → Option (Result String (List Transaction)) × S
  cache_page codec key none s = (none, s)
  cache_page codec key (some page) s =
      (some (ok page), (set redis codec key page (pos 600000000000) s).1)

  unfoldable pub page_from :
      Codec (List Transaction) B
      → String
      → ℤ
      → ℤ
      → Result String (List Transaction)
      → Result CacheError (List Transaction) × S
      → Option (Result String (List Transaction)) × S
  unfolding set paginate
  page_from codec key limit offset fetched (ok page, s) = (some (ok page), s)
  page_from codec key limit offset (err e) (err _, s) = (some (err e), s)
  page_from codec key limit offset (ok all) (err _, s) =
      cache_page codec key (paginate limit offset all) s

  unfoldable pub get_user_transactions :
      Codec (List Transaction) B
      → Uuid
      → ℤ
      → ℤ
      → D
      → S
      → Option (Result String (List Transaction)) × S
  unfolding get page_from
  get_user_transactions codec u limit offset d s =
      let key = user_transactions_key f u limit offset in
      page_from codec key limit offset (repos.transactions_by_user_id (f.uuid_id u) d)
        (get redis codec key s)

  unfoldable pub events_from :
      Codec (List Event) B → String → Result CacheError (List Event) × S → List Event × S
  unfolding set
  events_from codec key (ok events, s) = (events, s)
  events_from codec key (err _, s) = ([], (set redis codec key [] (pos 300000000000) s).1)

  -- No repository is asked.
  unfoldable pub get_aggregate_events : Codec (List Event) B → Uuid → S → List Event × S
  unfolding get events_from
  get_aggregate_events codec a s =
      let key = aggregate_events_key f a in events_from codec key (get redis codec key s)

  abbrev set_user : Codec User B → User → S → Option CacheError × S
  unfolding set
  set_user codec u s = set redis codec (user_key f u.id) u (pos 1800000000000) s

  abbrev set_transaction : Codec Transaction B → Transaction → S → Option CacheError × S
  unfolding set
  set_transaction codec t s = set redis codec (transaction_key f t.id) t (pos 1800000000000) s

  abbrev set_balance : Codec Balance B → Balance → S → Option CacheError × S
  unfolding set
  set_balance codec b s = set redis codec (balance_key f b.user_id) b (pos 900000000000) s

  abbrev set_user_transactions :
      Codec (List Transaction) B → Uuid → List Transaction → ℤ → ℤ → S → Option CacheError × S
  unfolding set
  set_user_transactions codec u page limit offset s =
      set redis codec (user_transactions_key f u limit offset) page (pos 600000000000) s

  abbrev set_aggregate_events : Codec (List Event) B → Uuid → List Event → S → Option CacheError × S
  unfolding set
  set_aggregate_events codec a events s =
      set redis codec (aggregate_events_key f a) events (pos 300000000000) s
