-- ===== src/Cache.antt =====
-- pkg/cache/redis.go, the cache over a Redis server. The server, encoding/json and the texts of
-- identifiers and numbers are parameters.
pub mod Keys
pub mod Server
pub mod Service
pub mod Reading
pub mod Coherence
pub mod Requests
pub mod Pages
pub mod Invalidation
pub mod Warmup
use transaction_api.Prelude.{
  ℕ, ◌<◌, ℤ, pos, ltb_ℤ, Bool, true, false, Option, none, some, Result, ok, err, String, List, [],
  ◌∷◌,
}

-- What a GET finds, where `B` stands for texts of bytes: the bytes, `redis.Nil`, or another error.
pub data Found (B : Type 0) : Type 0 where
  found : B → Found B
  nil : Found B
  failed : String → Found B

-- The commands that the code sends. `scan` gives the keys that its iterator yields and the error
-- that ended it, if one did.
pub record Redis (S B : Type 0) : Type 0 where
  pub ping : S → Option String × S
  pub set_key : String → B → ℤ → S → Option String × S
  pub get_key : String → S → Found B × S
  pub del : List String → S → Option String × S
  pub scan : String → S → (List String × Option String) × S
  pub exists_key : String → S → Result String ℤ × S
  pub set_key_nx : String → B → ℤ → S → Result String Bool × S
  pub incr_by : String → ℤ → S → Result String ℤ × S
  pub ttl : String → S → Result String ℤ × S
  pub flush : S → Option String × S
  pub info : S → Result String String × S
  pub db_size : S → Result String ℤ × S

-- json.Marshal and json.Unmarshal at a type.
pub record Codec (A B : Type 0) : Type 0 where
  pub marshal : A → Result String B
  pub unmarshal : B → Result String A

-- The errors of the cache, with the text that they wrap.
pub data CacheError : Type 0 where
  cache_miss : CacheError
  not_marshalled not_unmarshalled not_connected : String → CacheError
  not_set not_got not_deleted pattern_not_deleted : String → String → CacheError
  not_checked not_incremented no_ttl : String → String → CacheError
  not_flushed no_stats : String → CacheError

abbrev pub wrapped : (String → CacheError) → Option String → Option CacheError
wrapped f none = none
wrapped f (some e) = some (f e)

abbrev pub wrapped_value :
    {A : Type 0} → (String → CacheError) → Result String A → Result CacheError A
wrapped_value f (ok x) = ok x
wrapped_value f (err e) = err (f e)

pub record CacheStats : Type 0 where
  pub info : String
  pub db_size : ℤ

module _ {S B : Type 0} (redis : Redis S B) where
  abbrev new_redis_cache : S → Option CacheError × S
  new_redis_cache s = let (e, s') = redis.ping s in (wrapped not_connected e, s')

  abbrev pub store : String → ℤ → Result String B → S → Option CacheError × S
  store key expiration (err e) s = (some (not_marshalled e), s)
  store key expiration (ok bytes) s =
      let (e, s') = redis.set_key key bytes expiration s in (wrapped (not_set key) e, s')

  unfoldable pub set : {A : Type 0} → Codec A B → String → A → ℤ → S → Option CacheError × S
  set codec key value expiration s = store key expiration (codec.marshal value) s

  abbrev pub read : {A : Type 0} → Codec A B → String → Found B → Result CacheError A
  read codec key nil = err cache_miss
  read codec key (failed e) = err (not_got key e)
  read codec key (found bytes) = wrapped_value not_unmarshalled (codec.unmarshal bytes)

  unfoldable pub get : {A : Type 0} → Codec A B → String → S → Result CacheError A × S
  get codec key s = let (f, s') = redis.get_key key s in (read codec key f, s')

  unfoldable pub delete : String → S → Option CacheError × S
  delete key s = let (e, s') = redis.del (key ∷ []) s in (wrapped (not_deleted key) e, s')

  abbrev pub delete_found : String → List String → S → Option CacheError × S
  delete_found pattern_ [] s = (none, s)
  delete_found pattern_ (k ∷ ks) s =
      let (e, s') = redis.del (k ∷ ks) s in (wrapped (pattern_not_deleted pattern_) e, s')

  -- The error of the iterator is not asked for.
  unfoldable pub delete_pattern : String → S → Option CacheError × S
  delete_pattern pattern_ s =
      let ((keys, _), s') = redis.scan pattern_ s in delete_found pattern_ keys s'

  abbrev exists : String → S → Result CacheError Bool × S
  exists key s =
      let (r, s') = redis.exists_key key s in
      (elim r [ ok n ↦ ok (ltb_ℤ (pos 0) n) | err e ↦ err (not_checked key e) ], s')

  abbrev store_nx : String → ℤ → Result String B → S → Result CacheError Bool × S
  store_nx key expiration (err e) s = (err (not_marshalled e), s)
  store_nx key expiration (ok bytes) s =
      let (r, s') = redis.set_key_nx key bytes expiration s in (wrapped_value (not_set key) r, s')

  abbrev set_nx : {A : Type 0} → Codec A B → String → A → ℤ → S → Result CacheError Bool × S
  set_nx codec key value expiration s = store_nx key expiration (codec.marshal value) s

  abbrev increment : String → ℤ → S → Result CacheError ℤ × S
  increment key value s =
      let (r, s') = redis.incr_by key value s in (wrapped_value (not_incremented key) r, s')

  abbrev get_ttl : String → S → Result CacheError ℤ × S
  get_ttl key s = let (r, s') = redis.ttl key s in (wrapped_value (no_ttl key) r, s')

  unfoldable pub flush_all : S → Option CacheError × S
  flush_all s = let (e, s') = redis.flush s in (wrapped not_flushed e, s')

  abbrev sized : String → Result String ℤ → CacheStats
  sized info (ok n) = record { info = info; db_size = n }
  sized info (err _) = record { info = info; db_size = pos 0 }

  abbrev stats_of : Result String String × S → Result CacheError CacheStats × S
  stats_of (err e, s) = (err (no_stats e), s)
  stats_of (ok info, s) = let (n, s') = redis.db_size s in (ok (sized info n), s')

  abbrev get_stats : S → Result CacheError CacheStats × S
  get_stats s = stats_of (redis.info s)
