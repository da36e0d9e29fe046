-- ===== src/Sourcing/Replay/Laws.antt =====
-- The loop over all events: it ends, and replays every aggregate.
use transaction_api.Prelude.{
  ℕ, zero, suc, ◌+◌, ◌≤◌, ◌<◌, ◌==◌, ==_iff, ◌≡◌, sym, ◌⊎◌, inl, inr, arith, true, Bool-cases, ok,
  List, [], ◌∷◌, ◌++◌, length, take, drop, drop-drop, length-drop_lt, All, All-split, All-map,
  List-cases, ap,
}
use mathlib.Core.Path.{subst}
use transaction_api.Domain.Base.{Uuid}
use transaction_api.Sourcing.Events.{Json, Event}
use transaction_api.Sourcing.Replay.{
  EventStore, replay_events_for_aggregate, holds, aggregates_of, Log, replay_each, Replay, finished,
  batch_unavailable, out_of_fuel, after_batch, replay_batch, replay_from,
}

-- The query by limit and offset, over all the events in the order of their times.
abbrev pub IsPaged : EventStore → List Event → Type 0
IsPaged store all =
    (limit offset : ℕ) → store.get_all_events limit offset ≡ ok (take limit (drop offset all))

module _ (store : EventStore) (json : Json) where
  -- The log has the result of a replay of the aggregate.
  abbrev pub Logged : Uuid → Log → Type 0
  Logged id [] = ⊥
  Logged id (r ∷ rs) = (r ≡ (id, replay_events_for_aggregate store json id)) ⊎ Logged id rs

  abbrev pub Covers : List Event → Replay → Type 0
  Covers es (finished log) = All (λ e. Logged e.base.aggregate_id log) es
  Covers es _ = ⊥

  Logged-left : (id : Uuid) (xs ys : Log) → Logged id xs → Logged id (xs ++ ys)
  Logged-left id [] ys h = absurd h
  Logged-left id (x ∷ xs) ys (inl e) = inl e
  Logged-left id (x ∷ xs) ys (inr h) = inr (Logged-left id xs ys h)

  Logged-right : (id : Uuid) (xs ys : Log) → Logged id ys → Logged id (xs ++ ys)
  Logged-right id [] ys h = h
  Logged-right id (x ∷ xs) ys h = inr (Logged-right id xs ys h)

  Logged-replay_each :
      (id : Uuid) (ids : List Uuid) → holds id ids ≡ true → Logged id (replay_each store json ids)
  unfolding replay_each
  Logged-replay_each id [] h = cc
  Logged-replay_each id (x ∷ xs) h = elim (Bool-cases (id == x)) [
    | inl same ↦
        inl (ap (λ k. (k, replay_events_for_aggregate store json k)) (sym ((==_iff id x).0 same)))
    | inr other ↦ inr (Logged-replay_each id xs (ground arith))
  ]

  holds-aggregates_of :
      (es : List Event) → All (λ e. holds e.base.aggregate_id (aggregates_of es) ≡ true) es
  unfolding aggregates_of
  holds-aggregates_of [] = tt
  holds-aggregates_of (e ∷ es) =
      let id = e.base.aggregate_id in
      (
        ground arith,
        All-map (λ x. holds x.base.aggregate_id (aggregates_of es) ≡ true) _ es
            (λ x h. ground arith) (holds-aggregates_of es),
      )

  Covers-after_batch :
      (n : ℕ) (es : List Event) (rest : Replay)
      → Covers (drop n es) rest
      → Covers es (after_batch (replay_each store json (aggregates_of (take n es))) rest)
  Covers-after_batch n es (finished log) h =
      All-split (λ e. Logged e.base.aggregate_id (page ++ log)) n es
        (All-map (λ e. holds e.base.aggregate_id (aggregates_of (take n es)) ≡ true) _ (take n es)
          (λ e k.
            Logged-left e.base.aggregate_id page log (Logged-replay_each e.base.aggregate_id _ k))
          (holds-aggregates_of (take n es)))
        (All-map (λ e. Logged e.base.aggregate_id log) _ (drop n es)
          (λ e k. Logged-right e.base.aggregate_id page log k) h)
    where
      page : Log
      page = replay_each store json (aggregates_of (take n es))
  Covers-after_batch n es (batch_unavailable x) h = absurd h
  Covers-after_batch n es out_of_fuel h = absurd h

  -- One more batch: the events from an offset are `es`.
  Covers-replay_batch :
      (n : ℕ) (es : List Event) (rest : Replay)
      → Covers (drop (suc n) es) rest ⊎ (es ≡ [])
      → Covers es (replay_batch store json (ok (take (suc n) es)) rest)
  Covers-replay_batch n [] rest h = tt
  Covers-replay_batch n (e ∷ es) rest (inl h) = Covers-after_batch (suc n) (e ∷ es) rest h
  Covers-replay_batch n (e ∷ es) rest (inr h) = cc

  -- Where the store answers by limit and offset, batches of one event or more come to an end, with
  -- fuel for one batch more than there are events left, and every event's aggregate has been
  -- replayed, whether or not the replays of others have failed.
  pub replay_from-Covers :
      (all : List Event) (fuel batch_size offset : ℕ)
      → IsPaged store all
      → 1 ≤ batch_size
      → length (drop offset all) < fuel
      → Covers (drop offset all) (replay_from store json fuel batch_size offset)
  unfolding replay_from
  replay_from-Covers all zero n offset paged one enough = absurd (omega arith)
  replay_from-Covers all (suc fuel) zero offset paged one enough = absurd (omega arith)
  replay_from-Covers all (suc fuel) (suc n) offset paged one enough = rw (paged (suc n) offset) (
      Covers-replay_batch n (drop offset all) (replay_from store json fuel (suc n) (offset + suc n))
        (elim (List-cases (drop offset all)) [
          | inl e ↦ inr e
          | inr (y, ys, e) ↦ inl (
              subst (λ es. Covers es (replay_from store json fuel (suc n) (offset + suc n)))
                (drop-drop offset (suc n) all)
                (replay_from-Covers all fuel (suc n) (offset + suc n) paged one (
                  omega (
                    arith,
                    ap length (drop-drop offset (suc n) all),
                    ap length e,
                    length-drop_lt n (drop offset all),
                  ))))
        ]))
