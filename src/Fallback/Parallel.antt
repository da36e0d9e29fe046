-- ===== src/Fallback/Parallel.antt =====
-- `ParallelFallbackStrategy` of pkg/fallback/fallback.go. The fallbacks run at the same time; what
-- the loop receives, in which order, is an argument.
use transaction_api.Prelude.{
  ap, ◌∙◌, ℕ, zero, suc, ◌+◌, ◌<◌, ◌≡◌, refl, arith, ltb, ◌==◌, Option, none, some, String, List,
  [], ◌∷◌, ◌++◌, length, map, if◌then◌else◌,
}

-- What the `select` takes: the error or none of a fallback that has returned, or that of the
-- context whose timeout has passed.
pub data Arrival : Type 0 where
  answered : Option String → Arrival
  timed_out : String → Arrival

-- A loop that has returned an error or none, or still waits for answers.
pub data Waiting : Type 0 where
  returned : Option String → Waiting
  waits_for : ℕ → Waiting

abbrev counted : Option String → ℕ → ℕ
counted none successes = successes + 1
counted (some _) successes = successes

abbrev concluded : ℕ → Option String
concluded successes = if ltb 0 successes then none else some "all parallel fallback attempts failed"

-- The loop, with the number of answers that are still to come and of successes.
unfoldable pub collect : ℕ → ℕ → List Arrival → Waiting
collect zero successes arrivals = returned (concluded successes)
collect (suc left) successes [] = waits_for (suc left)
collect (suc left) successes (timed_out e ∷ arrivals) = returned (some e)
collect (suc left) successes (answered o ∷ arrivals) = collect left (counted o successes) arrivals

-- `ParallelFallbackStrategy.Execute`, for what the primary function returns and the number of
-- fallbacks.
unfoldable pub execute_parallel : Option String → ℕ → List Arrival → Waiting
unfolding collect
execute_parallel none count arrivals = returned none
execute_parallel (some e) count arrivals =
    if count == 0 then returned (some e) else collect count 0 arrivals

abbrev successes_of : List (Option String) → ℕ
successes_of [] = 0
successes_of (none ∷ os) = suc (successes_of os)
successes_of (some _ ∷ os) = successes_of os

collect-next :
    (n left successes : ℕ) (o : Option String) (rest : List Arrival)
    → n ≡ suc left
    → collect n successes (answered o ∷ rest) ≡ collect left (counted o successes) rest
unfolding collect
collect-next n left successes o rest e = rw e refl

collect-answered :
    (os : List (Option String)) (left successes : ℕ) (rest : List Arrival)
    → collect (length os + left) successes (map answered os ++ rest)
      ≡ collect left (successes + successes_of os) rest
collect-answered [] left successes rest = grind arith
collect-answered (none ∷ os) left successes rest =
    collect-next (length (none ∷ os) + left) (length os + left) successes none
      (map answered os ++ rest) (omega arith)
    ∙ collect-answered os left (successes + 1) rest
    ∙ ap (λ n. collect left n rest) (omega arith)
collect-answered (some e ∷ os) left successes rest =
    collect-next (length (some e ∷ os) + left) (length os + left) successes (some e)
      (map answered os ++ rest) (omega arith)
    ∙ collect-answered os left successes rest

-- When the primary function has failed and there are fallbacks: once every fallback has answered,
-- in whatever order, the strategy succeeds exactly if one has; when the timeout passes before the
-- last answer, it returns the error of the timeout, also if a fallback has succeeded.
pub execute_parallel-answered :
    (e x : String) (os : List (Option String)) (left : ℕ) (rest : List Arrival)
    → (0 < length os
        → execute_parallel (some e) (length os) (map answered os ++ rest)
          ≡ returned (concluded (successes_of os)))
      × (execute_parallel (some e) (length os + suc left) (map answered os ++ timed_out x ∷ rest)
          ≡ returned (some x))
unfolding execute_parallel collect
execute_parallel-answered e x os left rest = (
  λ h. ground (arith, collect-answered os 0 0 rest),
  ground (arith, collect-answered os (suc left) 0 (timed_out x ∷ rest)),
)
