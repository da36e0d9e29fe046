-- ===== src/Cache/Warmup/Laws.antt =====
-- The attempts of a warmup, and when a warmup of many entities succeeds.
use transaction_api.Prelude.{
  ℕ, zero, suc, ◌≤◌, ◌<◌, ◌≡◌, refl, sym, ap, ◌∙◌, ◌≢◌, ◌⊎◌, inl, inr, ℤ, Option, none, some,
  Result, String, arith,
}
use transaction_api.Domain.Base.{Uuid}
use transaction_api.Domain.User.{User}
use transaction_api.Cache.{Redis, Codec}
use transaction_api.Cache.Keys.{Formats, user_key}
use transaction_api.Cache.Service.{Repositories}
use transaction_api.Cache.Warmup.{
  WarmupConfig, WarmupError, get_default_config, attempt, retried, retry, warmup_user,
}

module _ {W B A : Type 0} (redis : Redis W B) (sleep : ℤ → W → W) (codec : Codec A B) (key : String)
    (config : WarmupConfig) (fetch : W → Result String A) where
  -- The world at an attempt, where those before it failed; the attempts are counted from 0.
  pub world : ℕ → W → W
  world zero w = w
  world (suc k) w =
      world k (sleep config.retry_delay (attempt redis sleep codec key config fetch w).1)

  abbrev pub attempt_at : ℕ → W → Option WarmupError × W
  attempt_at k w = attempt redis sleep codec key config fetch (world k w)

  abbrev pub FailBefore : ℕ → W → Type 0
  FailBefore k w = (j : ℕ) → j < k → (attempt_at j w).0 ≢ none

  -- The first attempt that succeeds is the last one made, and if none of them does, the last one is.
  abbrev pub Tries : ℕ → W → Option WarmupError × W → Type 0
  Tries n w r =
      ((k : ℕ) × (k < n) × FailBefore k w × ((attempt_at k w).0 ≡ none) × (r ≡ attempt_at k w))
      ⊎ (k : ℕ) × (suc k ≡ n) × FailBefore n w × (r ≡ attempt_at k w)

  -- A failure more before the failures.
  fail_first :
      (k : ℕ) (w : W) (e : WarmupError)
      → (attempt_at 0 w).0 ≡ some e
      → FailBefore k (sleep config.retry_delay (attempt_at 0 w).1)
      → FailBefore (suc k) w
  unfolding world
  fail_first k w e first before zero lt = λ p. let q = sym first ∙ p in cc
  fail_first k w e first before (suc j) lt = before j (omega arith)

  Tries-later :
      (n : ℕ) (w : W) (e : WarmupError) (r : Option WarmupError × W)
      → (attempt_at 0 w).0 ≡ some e
      → Tries n (sleep config.retry_delay (attempt_at 0 w).1) r
      → Tries (suc n) w r
  unfolding world
  Tries-later n w e r first (inl (k, lt, before, now, is)) =
      inl (suc k, omega arith, fail_first k w e first before, now, is)
  Tries-later n w e r first (inr (k, eq, before, is)) =
      inr (suc k, omega arith, fail_first n w e first before, is)

  whole :
      (w : W) (e : Option WarmupError)
      → (attempt_at 0 w).0 ≡ e
      → (e, (attempt_at 0 w).1) ≡ attempt_at 0 w
  whole w e is = ap (λ z. (z, (attempt_at 0 w).1)) (sym is)

  fail_once : (w : W) (e : WarmupError) → (attempt_at 0 w).0 ≡ some e → FailBefore 1 w
  fail_once w e is zero lt = λ p. let q = sym is ∙ p in cc
  fail_once w e is (suc j) lt = absurd (omega arith)

  retried-Tries :
      (n : ℕ) (w : W) (e : Option WarmupError) (rest : Option WarmupError × W)
      → (attempt_at 0 w).0 ≡ e
      → (1 ≤ n → Tries n (sleep config.retry_delay (attempt_at 0 w).1) rest)
      → Tries (suc n) w (retried e n (attempt_at 0 w).1 rest)
  retried-Tries n w none rest is h =
      inl (0, omega arith, (λ j lt. absurd (omega arith)), is, whole w none is)
  retried-Tries zero w (some e) rest is h = inr (0, refl, fail_once w e is, whole w (some e) is)
  retried-Tries (suc n) w (some e) rest is h = Tries-later (suc n) w e rest is (h (omega arith))

  retry-Tries : (n : ℕ) (w : W) → 1 ≤ n → Tries n w (retry redis sleep codec key config fetch n w)
  unfolding retry world
  retry-Tries zero w h = absurd (omega arith)
  retry-Tries (suc n) w h =
      let first = attempt redis sleep codec key config fetch w in
      let w' = sleep config.retry_delay first.1 in
      retried-Tries n w first.0 (retry redis sleep codec key config fetch n w') refl
        (λ k. retry-Tries n w' k)

module _ {W B : Type 0} (redis : Redis W B) (sleep : ℤ → W → W) (f : Formats)
    (repos : Repositories W) (codec : Codec User B) where
  -- Warming a user up makes at most three attempts, with a sleep before each but the first, in a
  -- world that changes meanwhile: the first attempt that fetches and stores the user is the last
  -- one made and the call succeeds; if none does, it returns the error of the third.
  pub warmup_user-Tries :
      (u : Uuid) (w : W)
      → Tries redis sleep codec
          (user_key f u)
          get_default_config
          (repos.user_by_id (f.uuid_id u))
          3
          w
          (warmup_user redis sleep f repos codec get_default_config u w)
  unfolding warmup_user
  warmup_user-Tries u w =
      retry-Tries redis sleep codec (user_key f u) get_default_config
        (repos.user_by_id (f.uuid_id u)) 3 w (omega arith)
