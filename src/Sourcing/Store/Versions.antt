-- ===== src/Sourcing/Store/Versions.antt =====
-- Optimistic concurrency: the versions of the stored events.
use transaction_api.Prelude.{
  ℕ, ◌+◌, ◌≡◌, refl, ◌≢◌, arith, Option, none, some, String, ok, List, [], ◌∷◌, ◌++◌, length, All,
  ap, ◌∙◌, Bool-cases, inl, inr, ◌==◌, ==_iff,
}
use mathlib.Core.Path.{subst}
use native.Mathlib.Nat.{add-zero}
use mathlib.Core.List.{append-nil, append_assoc}
use transaction_api.Domain.Base.{Uuid, Time}
use transaction_api.Sourcing.Events.{Event}
use transaction_api.Sourcing.Store.{
  EventTable, IsEventTable, EventStoreModel, SaveError, concurrent_modification, version_unknown,
  not_saved, rolled_back, model_of, insert_all, save_events,
}

abbrev pub BelongsTo : Uuid → List Event → Type 0
BelongsTo id = All (λ e. e.base.aggregate_id ≡ id)

-- The rows of events after a version.
unfoldable pub models_of : Time → ℕ → List Event → List EventStoreModel
models_of now version [] = []
models_of now version (e ∷ es) = model_of now (version + 1) e ∷ models_of now (version + 1) es

-- The only error of the loop is that of an insertion.
abbrev IsInsertion : {S : Type 0} → Option SaveError × S → Type 0
IsInsertion (none, s) = Unit
IsInsertion (some (not_saved e), s) = Unit
IsInsertion (some _, s) = ⊥

insert_all-IsInsertion :
    {S : Type 0} (table : EventTable S) (now : Time) (v : ℕ) (es : List Event) (s : S)
    → IsInsertion (insert_all table now v es s)
unfolding insert_all
insert_all-IsInsertion {S} table now v [] s = tt
insert_all-IsInsertion {S} table now v (e ∷ es) s =
    let (o, s') = table.insert (model_of now (v + 1) e) s in
    step o (insert_all table now (v + 1) es s') s' (insert_all-IsInsertion table now (v + 1) es s')
  where
    step :
        (o : Option String) (rest : Option SaveError × S) (s' : S)
        → IsInsertion {S = S} rest
        → IsInsertion {S = S} (elim o [ none ↦ rest | some x ↦ (some (not_saved x), s') ])
    step none rest s' h = h
    step (some x) rest s' h = tt

-- The state of the store when `v` is the version of the aggregate and `ms` are its rows.
abbrev pub Stores : {S : Type 0} → EventTable S → Uuid → ℕ → List EventStoreModel → S → Type 0
Stores table id v ms s = (table.max_version id s ≡ ok v) × (table.find id s ≡ ok ms)

module _ {S : Type 0} (table : EventTable S) (law : IsEventTable table) (now : Time)
    (id : Uuid) where
  abbrev Inserts : ℕ → List EventStoreModel → List Event → Option SaveError × S → Type 0
  Inserts v ms es (none, s') = Stores table id (v + length es) (ms ++ models_of now v es) s'
  Inserts v ms es (some e, s') = Unit

  Stores-insert :
      (v : ℕ) (ms : List EventStoreModel) (e : Event) (s : S)
      → e.base.aggregate_id ≡ id
      → Stores table id v ms s
      → (table.insert (model_of now (v + 1) e) s).0 ≡ none
      → Stores table id
          (v + 1)
          (ms ++ model_of now (v + 1) e ∷ [])
          (table.insert (model_of now (v + 1) e) s).1
  Stores-insert v ms e s b h o =
      let m = model_of now (v + 1) e in
      (ground (arith, law.insert_version m s v), ground (arith, law.insert_find m s v ms))

  Inserts-shift :
      (v : ℕ) (ms : List EventStoreModel) (e : Event) (es : List Event) (r : Option SaveError × S)
      → Inserts (v + 1) (ms ++ model_of now (v + 1) e ∷ []) es r
      → Inserts v ms (e ∷ es) r
  unfolding models_of
  Inserts-shift v ms e es (none, s') h = (
    h.0 ∙ ap ok (omega arith),
    h.1 ∙ ap ok (append_assoc ms (model_of now (v + 1) e ∷ []) (models_of now (v + 1) es)),
  )
  Inserts-shift v ms e es (some x, s') h = tt

  Inserts-step :
      (v : ℕ) (ms : List EventStoreModel) (e : Event) (es : List Event) (o : Option String)
      (rest : Option SaveError × S) (s' : S)
      → (o ≡ none → Inserts (v + 1) (ms ++ model_of now (v + 1) e ∷ []) es rest)
      → Inserts v ms (e ∷ es) (elim o [ none ↦ rest | some x ↦ (some (not_saved x), s') ])
  Inserts-step v ms e es none rest s' h = Inserts-shift v ms e es rest (h refl)
  Inserts-step v ms e es (some x) rest s' h = tt

  insert_all-Inserts :
      (v : ℕ) (ms : List EventStoreModel) (es : List Event) (s : S)
      → BelongsTo id es
      → Stores table id v ms s
      → Inserts v ms es (insert_all table now v es s)
  unfolding insert_all models_of
  insert_all-Inserts v ms [] s b h = (rw add-zero h.0, rw append-nil h.1)
  insert_all-Inserts v ms (e ∷ es) s b h =
      let (o, s') = table.insert (model_of now (v + 1) e) s in
      Inserts-step v ms e es o (insert_all table now (v + 1) es s') s' (λ done.
        insert_all-Inserts (v + 1) (ms ++ model_of now (v + 1) e ∷ []) es s' b.1
          (Stores-insert v ms e s b.0 h done))

  -- How a saving ends, from a store at version `v` with the rows `ms`.
  abbrev pub Saves : ℕ → ℕ → List EventStoreModel → List Event → S → Option SaveError × S → Type 0
  Saves expected v ms es s (none, s') =
      (expected ≡ v) × Stores table id (v + length es) (ms ++ models_of now v es) s'
  Saves expected v ms es s (some (concurrent_modification a b), s') =
      (expected ≢ v) × (a ≡ expected) × (b ≡ v) × (s' ≡ s)
  Saves expected v ms es s (some (version_unknown e), s') = ⊥
  Saves expected v ms es s (some (not_saved e), s') = (expected ≡ v) × (s' ≡ s)

  Saves-insert_all :
      (v : ℕ) (ms : List EventStoreModel) (es : List Event) (s : S) (r : Option SaveError × S)
      → Inserts v ms es r
      → IsInsertion r
      → Saves v v ms es s (rolled_back s r)
  Saves-insert_all v ms es s (none, s') h n = (refl, h)
  Saves-insert_all v ms es s (some (not_saved e), s') h n = (refl, refl)
  Saves-insert_all v ms es s (some (version_unknown e), s') h n = absurd n
  Saves-insert_all v ms es s (some (concurrent_modification a b), s') h n = absurd n

  -- On a table that follows its laws, for events of the aggregate whose version and rows are
  -- given, `SaveEvents` stores the events after those rows, with consecutive versions after the
  -- expected one, only when that is the version of the aggregate; otherwise it reports both
  -- versions. Whenever it returns an error the store is as it was.
  pub save_events-Saves :
      (expected v : ℕ) (ms : List EventStoreModel) (es : List Event) (s : S)
      → BelongsTo id es
      → Stores table id v ms s
      → Saves expected v ms es s (save_events table now id es expected s)
  unfolding save_events
  save_events-Saves expected v ms es s b h = rw h.0 (elim (Bool-cases (v == expected)) [
    | inl same ↦ rw same (
        subst (λ x. Saves x v ms es s (rolled_back s (insert_all table now x es s)))
          ((==_iff v expected).0 same)
          (Saves-insert_all v ms es s (insert_all table now v es s)
            (insert_all-Inserts v ms es s b h) (insert_all-IsInsertion table now v es s)))
    | inr differs ↦ rw differs ((λ e. ground arith), refl, refl, refl)
  ])
