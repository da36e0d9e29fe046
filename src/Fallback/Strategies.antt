-- ===== src/Fallback/Strategies.antt =====
-- The strategies that try one function after the other, on every way they end: a success, the end of
-- the context, or the failure of all.
use transaction_api.Prelude.{
  ℕ, zero, suc, ◌≡◌, refl, ap, ◌≢◌, ◌⊎◌, inl, inr, arith, true, false, Bool, Option, none, some,
  String, List, [], ◌∷◌, ◌++◌, if◌then◌else◌, ltb, not,
}
use mathlib.Core.Path.{subst, sym}
use transaction_api.Fallback.{
  FallbackConfig, Context, Attempt, pause, try_each, execute_sequential, execute_degrading,
}

module _ {S : Type 0} (ctx : Context S) (config : FallbackConfig) where
  -- The state in which the fallback at a position runs: after the delay, if there is one, and not
  -- before the first.
  abbrev pub delayed : ℕ → ℕ → S → S
  delayed zero delay s = s
  delayed (suc n) zero s = s
  delayed (suc n) (suc d) s = ctx.sleep (suc d) s

  abbrev pub runs_in : ℕ → S → S
  runs_in n s = delayed n config.retry_delay s

  -- All these fallbacks, the first of them at a position, run and fail, and lead from one state to
  -- another; the context has not ended before any of them.
  pub Fall : ℕ → List (Attempt S) → S → S → Type 0
  Fall n [] s t = s ≡ t
  Fall n (f ∷ fs) s t =
      (ctx.ended s ≡ none) × ((f (runs_in n s)).0 ≢ none) × Fall (suc n) fs (f (runs_in n s)).1 t

  abbrev place : ℕ → List (Attempt S) → ℕ
  place n [] = n
  place n (_ ∷ fs) = place (suc n) fs

  -- How the loop ends from a position: the fallbacks before some one fail, and that one succeeds;
  -- or the context ends before it runs; or all fail, and the error is the given one.
  abbrev Finds : ℕ → List (Attempt S) → S → S → Type 0
  Finds n fs s t =
      (before : List (Attempt S)) × (f : Attempt S) × (after : List (Attempt S)) × (u : S) × (fs
        ≡ before ++ f ∷ after)
      × Fall n before s u
      × (ctx.ended u ≡ none)
      × (f (runs_in (place n before) u) ≡ (none, t))

  abbrev Stops : ℕ → List (Attempt S) → S → String → S → Type 0
  Stops n fs s e t =
      (before : List (Attempt S)) × (f : Attempt S) × (after : List (Attempt S)) × (fs
        ≡ before ++ f ∷ after)
      × Fall n before s t
      × (ctx.ended t ≡ some e)

  abbrev pub Tries : String → ℕ → List (Attempt S) → S → Option String × S → Type 0
  Tries failure n fs s (none, t) = Finds n fs s t
  Tries failure n fs s (some e, t) = Stops n fs s e t ⊎ (Fall n fs s t × (e ≡ failure))

  Tries-later :
      (failure : String) (n : ℕ) (f : Attempt S) (fs : List (Attempt S)) (s : S)
      (r : Option String × S)
      → ctx.ended s ≡ none
      → (f (runs_in n s)).0 ≢ none
      → Tries failure (suc n) fs (f (runs_in n s)).1 r
      → Tries failure n (f ∷ fs) s r
  unfolding Fall
  Tries-later failure n f fs s (none, t) live fails (before, g, after, u, e, fall, on, runs) =
      (f ∷ before, g, after, u, ap (λ l. f ∷ l) e, (live, fails, fall), on, runs)
  Tries-later failure n f fs s (some x, t) live fails (inl (before, g, after, e, fall, rest)) =
      inl (f ∷ before, g, after, ap (λ l. f ∷ l) e, (live, fails, fall), rest)
  Tries-later failure n f fs s (some x, t) live fails (inr (fall, e)) = inr ((live, fails, fall), e)

  abbrev first_at : ℕ → Bool
  first_at zero = true
  first_at (suc n) = false

  delayed-suc : (n d : ℕ) (s : S) → (if ltb 0 d then ctx.sleep d s else s) ≡ delayed (suc n) d s
  delayed-suc n zero s = refl
  delayed-suc n (suc d) s = ground arith

  pause-runs_in : (n : ℕ) (s : S) → pause ctx config (first_at n) s ≡ runs_in n s
  pause-runs_in zero s = refl
  pause-runs_in (suc n) s = delayed-suc n config.retry_delay s

  -- One fallback that the context lets run, by its outcome.
  Tries-run :
      (failure : String) (n : ℕ) (f : Attempt S) (fs : List (Attempt S)) (s : S)
      (o : Option String × S)
      → ctx.ended s ≡ none
      → f (runs_in n s) ≡ o
      → Tries failure (suc n) fs o.1 (try_each ctx config failure false fs o.1)
      → Tries failure n
          (f ∷ fs)
          s
          (elim o.0 [ none ↦ (none, o.1) | some _ ↦ try_each ctx config failure false fs o.1 ])
  unfolding Fall
  Tries-run failure n f fs s (none, t) live runs later = ([], f, fs, s, refl, refl, live, runs)
  Tries-run failure n f fs s (some x, t) live runs later =
      Tries-later failure n f fs s (try_each ctx config failure false fs t) live
        (λ e. ground (arith, ap (λ o. o.0) runs)) (rw runs later)

  Tries-next :
      (failure : String) (n : ℕ) (f : Attempt S) (fs : List (Attempt S)) (s : S)
      (ended : Option String)
      → ctx.ended s ≡ ended
      → (let t = (f (runs_in n s)).1 in
          Tries failure (suc n) fs t (try_each ctx config failure false fs t))
      → Tries failure n (f ∷ fs) s (elim ended [
        | some e ↦ (some e, s)
        | none ↦
            let (e, t) = f (pause ctx config (first_at n) s) in
            elim e [ none ↦ (none, t) | some _ ↦ try_each ctx config failure false fs t ]
      ])
  unfolding Fall
  Tries-next failure n f fs s none live later =
      subst
        (λ u. Tries failure n (f ∷ fs) s (elim (f u).0 [
          | none ↦ (none, (f u).1)
          | some _ ↦ try_each ctx config failure false fs (f u).1
        ]))
        (sym (pause-runs_in n s)) (Tries-run failure n f fs s (f (runs_in n s)) live refl later)
  Tries-next failure n f fs s (some e) dead later = inl ([], f, fs, refl, refl, dead)

  try_each-Tries :
      (failure : String) (n : ℕ) (fs : List (Attempt S)) (s : S)
      → Tries failure n fs s (try_each ctx config failure (first_at n) fs s)
  unfolding try_each Fall
  try_each-Tries failure n [] s = inr (refl, refl)
  try_each-Tries failure n (f ∷ fs) s =
      Tries-next failure n f fs s (ctx.ended s) refl
        (try_each-Tries failure (suc n) fs (f (runs_in n s)).1)

  -- How a strategy ends: with the success of the primary function, or as the loop does.
  abbrev pub Recovers : String → List (Attempt S) → Option String × S → Option String × S → Type 0
  Recovers failure fs (none, s) r = r ≡ (none, s)
  Recovers failure fs (some e, s) r = Tries failure 0 fs s r

  abbrev pub Degrades :
      Bool → String → List (Attempt S) → Option String × S → Option String × S → Type 0
  Degrades true failure fs o r = Recovers failure fs o r
  Degrades false failure fs o r = r ≡ o

  recovered :
      (failure : String) (fs : List (Attempt S)) (o : Option String × S)
      → Recovers failure fs o
          (elim o.0 [ none ↦ (none, o.1) | some _ ↦ try_each ctx config failure true fs o.1 ])
  recovered failure fs (none, s) = refl
  recovered failure fs (some e, s) = try_each-Tries failure 0 fs s

  degraded :
      (enabled : Bool) (failure : String) (fs : List (Attempt S)) (o : Option String × S)
      → Degrades enabled failure fs o (elim o.0 [
        | none ↦ (none, o.1)
        | some x ↦ if not enabled then (some x, o.1) else try_each ctx config failure true fs o.1
      ])
  degraded true failure fs (none, s) = refl
  degraded true failure fs (some e, s) = try_each-Tries failure 0 fs s
  degraded false failure fs (none, s) = refl
  degraded false failure fs (some e, s) = refl

  -- With the sequential strategy, the fallbacks are tried, from the first one on, only when the
  -- primary function has failed. Each runs if the context has not ended, after the delay, if there
  -- is one, but the first at once. The call succeeds with the first fallback that succeeds, and
  -- leaves its state; it returns the error of the context where that has ended before some
  -- fallback, which does not run; and it returns its own error when all have failed. So does the
  -- strategy of degradation, with its own error, where it is enabled; otherwise it is the primary
  -- function alone.
  pub execute_sequential-Recovers :
      (primary : Attempt S) (fs : List (Attempt S)) (s : S)
      → Recovers "all fallback attempts failed" fs
          (primary s)
          (execute_sequential ctx config primary fs s)
        × Degrades config.enable_degradation "all fallback attempts failed, including degradation"
            fs
            (primary s)
            (execute_degrading ctx config primary fs s)
  unfolding execute_sequential execute_degrading
  execute_sequential-Recovers primary fs s = (
    recovered "all fallback attempts failed" fs (primary s),
    degraded config.enable_degradation "all fallback attempts failed, including degradation" fs
        (primary s),
  )
