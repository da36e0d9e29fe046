-- ===== src/Tests/Fallbacks.antt =====
-- Tests of the fallback manager: the world is a count of the functions that ran.
use transaction_api.Prelude.{ltb, if◌then◌else◌, ℕ, suc, ◌≡◌, refl, true, none, some, [], ◌∷◌}
use transaction_api.Fallback.{
  FallbackConfig, Cache, empty_cache, Attempt, Context, Function, Moments, get, set,
  execute_sequential, execute_degrading, execute,
}
use transaction_api.Fallback.Strategies.{Recovers, Degrades, execute_sequential-Recovers}

abbrev config : FallbackConfig
config = record {
  max_retries = 3;
  retry_delay = 0;
  timeout = 30;
  enable_caching = true;
  cache_ttl = 5;
  enable_degradation = true;
}

abbrev one_entry : Cache ℕ
one_entry = set 0 "balance" 7 5 empty_cache

abbrev context : {S : Type 0} → Context S
context = record { ended = λ s. none; sleep = λ d s. s }

abbrev failing : Attempt ℕ
failing n = (some "down", suc n)

abbrev working : Attempt ℕ
working n = (none, suc n)

second_works :
    execute_sequential context config failing (failing ∷ working ∷ failing ∷ []) 0 ≡ (none, 3)
unfolding execute_sequential
second_works = refl

-- The context ends when three functions have run, and a delay counts as one.
abbrev short_context : Context ℕ
short_context = record {
  ended = λ n. if ltb n 3 then none else some "deadline exceeded";
  sleep = λ d n. suc n;
}

abbrev delayed_config : FallbackConfig
delayed_config = record config { retry_delay = 2 }

execute_sequential-Recovers_example :
    Recovers short_context delayed_config "all fallback attempts failed"
      (failing ∷ failing ∷ working ∷ [])
      (failing 0)
      (execute_sequential short_context delayed_config failing (failing ∷ failing ∷ working ∷ []) 0)
    × Degrades short_context delayed_config true
        "all fallback attempts failed, including degradation"
        (failing ∷ failing ∷ working ∷ [])
        (failing 0)
        (execute_degrading short_context delayed_config failing
          (failing ∷ failing ∷ working ∷ [])
          0)
execute_sequential-Recovers_example =
    execute_sequential-Recovers short_context delayed_config failing
      (failing ∷ failing ∷ working ∷ []) 0

abbrev moments : Moments
moments = record { got = 1; set_at = 2 }

abbrev later : Moments
later = record { got = 6; set_at = 6 }

abbrev broken : Function ℕ ℕ
broken n = ((0, some "down"), suc n)

abbrev answering : Function ℕ ℕ
answering n = ((7, none), suc n)

abbrev filled : Cache ℕ
filled = set 2 "balance" 7 5 empty_cache

first_call :
    execute config
      (execute_sequential context config)
      0
      moments
      "balance"
      broken
      (answering ∷ [])
      0
      empty_cache
    ≡ ((7, none), (2, filled))
unfolding execute execute_sequential
first_call = refl

missed : (get {A = ℕ} 1 "balance" empty_cache).0 ≡ none
unfolding get
missed = refl
