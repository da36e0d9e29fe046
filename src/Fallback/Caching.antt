-- ===== src/Fallback/Caching.antt =====
-- What the manager remembers: a value that was computed is not computed again while its entry lasts.
use transaction_api.Prelude.{
  ◌+◌, ◌≤◌, ◌≡◌, refl, arith, true, Option, none, some, String, List, map,
}
use transaction_api.Fallback.{
  FallbackConfig, Cache, get, set, Function, FallbackStrategy, Moments, kept, keeping, execute,
}
use transaction_api.Fallback.Expiry.{get-set}

module _ {W A : Type 0} (config : FallbackConfig) (strategy : FallbackStrategy (A × W))
    (nil : A) where
  kept-set :
      (at : Moments) (key : String) (c : Cache A) (r : Option String × (A × W)) (a : A) (w : W)
      (c' : Cache A)
      → config.enable_caching ≡ true
      → kept config strategy nil at key c r ≡ ((a, none), (w, c'))
      → c' ≡ set at.set_at key a config.cache_ttl c
  kept-set at key c (some e, (b, v)) a w c' on h = cc
  kept-set at key c (none, (b, v)) a w c' on h = ground arith

  -- With caching on, once a call that found no entry has returned a value without an error, every
  -- call with its key answers with that value and runs nothing, until the entry has expired:
  -- whatever functions it is given, and whatever happened to the world.
  pub execute_again :
      (at later : Moments) (key : String) (primary other : Function W A)
      (fs others : List (Function W A)) (w w' world : W) (c c' : Cache A) (a : A)
      → config.enable_caching ≡ true
      → (get at.got key c).0 ≡ none
      → execute config strategy nil at key primary fs w c ≡ ((a, none), (w', c'))
      → later.got ≤ at.set_at + config.cache_ttl
      → execute config strategy nil later key other others world c' ≡ ((a, none), (world, c'))
  unfolding execute
  execute_again at later key primary other fs others w w' world c c' a on miss done soon =
      let c₀ = (get at.got key c).1 in
      let r = strategy (keeping primary) (map keeping fs) (nil, w) in
      let same = kept-set at key c₀ r a w' c' on (ground arith) in
      let hit = get-set later.got at.set_at key a config.cache_ttl c₀ soon in
      rw (on, same, hit) refl
