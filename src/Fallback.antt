-- ===== src/Fallback.antt =====
-- pkg/fallback/fallback.go: the cache with expiry, the sequential and degradation strategies, and the
-- manager over a strategy. The functions it is given act on a state of the world, a parameter.
pub mod Expiry
pub mod Strategies
pub mod Caching
pub mod Parallel
use transaction_api.Prelude.{
  ℕ, ◌+◌, ltb, Bool, true, false, not, Option, none, some, String, List, [], ◌∷◌, map,
  if◌then◌else◌,
}
use text.Mathlib.Text.{◌==◌ as str_eq}

pub record FallbackConfig : Type 0 where
  pub max_retries : ℕ
  pub retry_delay : ℕ
  pub timeout : ℕ
  pub enable_caching : Bool
  pub cache_ttl : ℕ
  pub enable_degradation : Bool

pub record CacheEntry (A : Type 0) : Type 0 where
  pub content : A
  pub timestamp : ℕ
  pub ttl : ℕ

-- The map of a `FallbackCache`.
abbrev pub Cache : Type 0 → Type 0
Cache A = String → Option (CacheEntry A)

abbrev pub empty_cache : {A : Type 0} → Cache A
empty_cache _ = none

-- `now.Sub(entry.Timestamp) > entry.TTL`
abbrev pub expired : {A : Type 0} → ℕ → CacheEntry A → Bool
expired now e = ltb (e.timestamp + e.ttl) now

abbrev pub delete : {A : Type 0} → String → Cache A → Cache A
delete key c k = if str_eq k key then none else c k

abbrev looked_up : {A : Type 0} → ℕ → String → Cache A → Option (CacheEntry A) → Option A × Cache A
looked_up now key c none = (none, c)
looked_up now key c (some e) = if expired now e then (none, delete key c) else (some e.content, c)

-- `Get`, with its reading of the clock; an expired entry is deleted.
unfoldable pub get : {A : Type 0} → ℕ → String → Cache A → Option A × Cache A
get now key c = looked_up now key c (c key)

unfoldable pub set : {A : Type 0} → ℕ → String → A → ℕ → Cache A → Cache A
set now key a ttl c k =
    if str_eq k key then some (record { content = a; timestamp = now; ttl = ttl }) else c k

abbrev unexpired : {A : Type 0} → ℕ → Option (CacheEntry A) → Option (CacheEntry A)
unexpired now none = none
unexpired now (some e) = if expired now e then none else some e

unfoldable pub cleanup : {A : Type 0} → ℕ → Cache A → Cache A
cleanup now c k = unexpired now (c k)

-- A `func() error`, and the context it runs in: its error once it has ended, and `time.Sleep`.
abbrev pub Attempt : Type 0 → Type 0
Attempt S = S → Option String × S

pub record Context (S : Type 0) : Type 0 where
  pub ended : S → Option String
  pub sleep : ℕ → S → S

module _ {S : Type 0} (ctx : Context S) (config : FallbackConfig) where
  -- The delay before every fallback but the first.
  abbrev pub pause : Bool → S → S
  pause true s = s
  pause false s = if ltb 0 config.retry_delay then ctx.sleep config.retry_delay s else s

  -- The loop over the fallbacks, with the error that ends it.
  unfoldable pub try_each : String → Bool → List (Attempt S) → Attempt S
  try_each failure is_first [] s = (some failure, s)
  try_each failure is_first (fallback ∷ fallbacks) s = elim (ctx.ended s) [
    | some e ↦ (some e, s)
    | none ↦
        let (e, s') = fallback (pause is_first s) in
        elim e [ none ↦ (none, s') | some _ ↦ try_each failure false fallbacks s' ]
  ]

  -- `SequentialFallbackStrategy.Execute`
  unfoldable pub execute_sequential : Attempt S → List (Attempt S) → Attempt S
  unfolding try_each
  execute_sequential primary fallbacks s =
      let (e, s') = primary s in
      elim e [
        | none ↦ (none, s')
        | some _ ↦ try_each "all fallback attempts failed" true fallbacks s'
      ]

  -- `DegradationFallbackStrategy.Execute`
  unfoldable pub execute_degrading : Attempt S → List (Attempt S) → Attempt S
  unfolding try_each
  execute_degrading primary fallbacks s =
      let (e, s') = primary s in
      elim e [
        | none ↦ (none, s')
        | some x ↦
            if not config.enable_degradation
            then (some x, s')
            else try_each "all fallback attempts failed, including degradation" true fallbacks s'
      ]

-- A `func() (interface{}, error)` on the world, and a `FallbackStrategy`.
abbrev pub Function : Type 0 → Type 0 → Type 0
Function W A = W → (A × Option String) × W

abbrev pub FallbackStrategy : Type 0 → Type 0
FallbackStrategy S = Attempt S → List (Attempt S) → Attempt S

-- A function under the closure that keeps its value in the variable `result`.
abbrev pub keeping : {W A : Type 0} → Function W A → Attempt (A × W)
keeping f (_, w) = let ((a, e), w') = f w in (e, (a, w'))

-- The readings of the clock of `Get` and of `Set`.
pub record Moments : Type 0 where
  pub got : ℕ
  pub set_at : ℕ

module _ {W A : Type 0} (config : FallbackConfig) (strategy : FallbackStrategy (A × W))
    (nil : A) where
  -- The end of `Execute`: a value with no error goes into the cache.
  abbrev pub kept :
      Moments → String → Cache A → Option String × (A × W) → (A × Option String) × (W × Cache A)
  kept at key c (some e, (a, w)) = ((a, some e), (w, c))
  kept at key c (none, (a, w)) =
      ((a, none), (w, if config.enable_caching then set at.set_at key a config.cache_ttl c else c))

  abbrev pub run :
      Moments
      → String
      → Function W A
      → List (Function W A)
      → W
      → Cache A
      → (A × Option String) × (W × Cache A)
  run at key primary fallbacks w c =
      kept at key c (strategy (keeping primary) (map keeping fallbacks) (nil, w))

  abbrev answered :
      Moments
      → String
      → Function W A
      → List (Function W A)
      → W
      → Option A × Cache A
      → (A × Option String) × (W × Cache A)
  answered at key primary fallbacks w (some a, c) = ((a, none), (w, c))
  answered at key primary fallbacks w (none, c) = run at key primary fallbacks w c

  -- `FallbackManager.Execute`
  unfoldable pub execute :
      Moments
      → String
      → Function W A
      → List (Function W A)
      → W
      → Cache A
      → (A × Option String) × (W × Cache A)
  unfolding get set
  execute at key primary fallbacks w c =
      if config.enable_caching
      then answered at key primary fallbacks w (get at.got key c)
      else run at key primary fallbacks w c

  -- The error of `ExecuteWithDegradation` when both functions fail is made from the two errors.
  abbrev degraded_result :
      (String → String → String)
      → String
      → Cache A
      → (A × Option String) × W
      → (A × Option String) × (W × Cache A)
  degraded_result both e c ((a, none), w) = ((a, none), (w, c))
  degraded_result both e c ((a, some x), w) = ((nil, some (both e x)), (w, c))

  abbrev degrade :
      (String → String → String)
      → Function W A
      → Cache A
      → (A × Option String) × W
      → (A × Option String) × (W × Cache A)
  degrade both degraded c ((a, none), w) = ((a, none), (w, c))
  degrade both degraded c ((a, some e), w) = degraded_result both e c (degraded w)

  -- `FallbackManager.ExecuteWithDegradation`
  unfoldable pub execute_with_degradation :
      (String → String → String)
      → Moments
      → String
      → Function W A
      → Function W A
      → W
      → Cache A
      → (A × Option String) × (W × Cache A)
  unfolding execute
  execute_with_degradation both at key primary degraded w c =
      if not config.enable_degradation
      then execute at key primary [] w c
      else degrade both degraded c (primary w)
