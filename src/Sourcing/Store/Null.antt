-- ===== src/Sourcing/Store/Null.antt =====
-- Events without data, which the table refuses: `EventSourcedTransaction.UpdateState` and the changes
-- of a balance record such events.
use transaction_api.Prelude.{
  ◌∙◌, ◌+◌, ◌≡◌, refl, ◌≢◌, arith, Option, none, some, String, ok, err, List, [], ◌∷◌, ◌++◌, ◌==◌,
  ℕ, ap, ◌⊎◌, inl, inr, Bool-cases, Result,
}
use transaction_api.Domain.Base.{Uuid, Time, Status}
use transaction_api.Sourcing.Events.{Event, new_transaction_state_changed_event}
use transaction_api.Sourcing.Aggregate.{
  BaseAggregate, EventSourcedTransaction, updated, update_state,
}
use transaction_api.Sourcing.Aggregate.Laws.{update_state_event}
use transaction_api.Sourcing.Store.{
  EventTable, RequiresData, SaveError, not_saved, rolled_back, model_of, insert_all, checked,
  save_events, save_some, save_by, save,
}

module _ {S : Type 0} (table : EventTable S) (required : RequiresData table) (now : Time) where
  inserted :
      (o : Option String) (rest : Option SaveError × S) (s : S)
      → (o ≢ none) ⊎ (rest.0 ≢ none)
      → (let r : Option SaveError × S = elim o [ none ↦ rest | some x ↦ (some (not_saved x), s) ] in
          r.0)
        ≢ none
  inserted none rest s (inl h) = absurd (h refl)
  inserted none rest s (inr h) = h
  inserted (some x) rest s h = λ e. ground arith

  insert_all-last :
      (v : ℕ) (es : List Event) (e : Event) (s : S)
      → e.base.payload ≡ none
      → (insert_all table now v (es ++ e ∷ []) s).0 ≢ none
  unfolding insert_all
  insert_all-last v [] e s h =
      let (o, s') = table.insert (model_of now (v + 1) e) s in
      inserted o (insert_all table now (v + 1) [] s') s'
        (inl (required (model_of now (v + 1) e) s h))
  insert_all-last v (x ∷ es) e s h =
      let (o, s') = table.insert (model_of now (v + 1) x) s in
      inserted o (insert_all table now (v + 1) (es ++ e ∷ []) s') s'
        (inr (insert_all-last (v + 1) es e s' h))

  -- The saving ends in an error, and neither the aggregate nor the store has changed.
  abbrev pub IsRefused : BaseAggregate → S → Type 0
  IsRefused a s = (e : SaveError) × (save table now a s ≡ (some e, a, s))

  rolled_back_error :
      (s : S) (r : Option SaveError × S)
      → r.0 ≢ none
      → (e : SaveError) × (rolled_back s r ≡ (some e, s))
  rolled_back_error s (none, s') h = absurd (h refl)
  rolled_back_error s (some e, s') h = (e, refl)

  checked_error :
      (v : ℕ) (es : List Event) (g : Result String ℕ) (s : S)
      → ((w : ℕ) → (insert_all table now w es s).0 ≢ none)
      → (checked table now v es g s).0 ≢ none
  unfolding checked
  checked_error v es (err x) s h = λ e. ground arith
  checked_error v es (ok w) s h = elim (Bool-cases (w == v)) [
    | inl same ↦ rw same (h v)
    | inr differs ↦ rw differs (λ e. ground arith)
  ]

  save_by-refused :
      (a : BaseAggregate) (es : List Event) (e : Event) (s : S) (x : SaveError)
      → save_events table now a.id (es ++ e ∷ []) a.version s ≡ (some x, s)
      → save_by table now a (es ++ e ∷ []) s ≡ (some x, a, s)
  unfolding save_by save_some
  save_by-refused a [] e s x h = rw h refl
  save_by-refused a (y ∷ es) e s x h = rw h refl

  save-last :
      (a : BaseAggregate) (es : List Event) (e : Event) (s : S)
      → e.base.payload ≡ none
      → a.uncommitted_events ≡ es ++ e ∷ []
      → IsRefused a s
  unfolding save save_events
  save-last a es e s h same =
      let l = es ++ e ∷ [] in
      let r = checked table now a.version l (table.max_version a.id s) s in
      let (x, back) = rolled_back_error s r (
        checked_error a.version l (table.max_version a.id s) s (λ w. insert_all-last w es e s h)) in
      (x, ap (λ events. save_by table now a events s) same ∙ save_by-refused a es e s x back)

  -- On a table that refuses a row with no data, a transaction whose state has changed can never be
  -- saved: the event of the change carries no data, so every saving ends in an error and leaves
  -- the transaction and the store as they were, whatever was recorded before.
  pub save-update_state :
      (event_id : Uuid) (changed event_now : Time) (to : Status) (reason : String)
      (t t' : EventSourcedTransaction) (s : S)
      → update_state event_id changed event_now to reason t ≡ updated t'
      → IsRefused t'.root s
  unfolding new_transaction_state_changed_event
  save-update_state event_id changed event_now to reason t t' s e =
      let (type_, _, last) = update_state_event event_id changed event_now to reason t t' e in
      save-last t'.root t.root.uncommitted_events _ s refl last
