-- ===== src/Sourcing/Store/Finding.antt =====
-- `EventRepository.Save` and `GetTransaction` together: a new transaction through the store.
use mathlib.Core.Path.{subst, sym}
use transaction_api.Prelude.{
  ap, ℕ, ◌+◌, ◌≡◌, refl, arith, Option, none, some, String, ok, err, [], ◌∷◌, pos,
}
use transaction_api.Domain.Base.{Uuid, Amount, Time}
use transaction_api.Sourcing.Events.{
  Json, ReadsBack, Event, Detail, transaction_created, new_transaction_created_event,
}
use transaction_api.Sourcing.Aggregate.{
  BaseAggregate, EventSourcedTransaction, snapshot, new_event_sourced_transaction,
  load_from_history, apply_event,
}
use transaction_api.Sourcing.Store.{
  EventTable, IsEventTable, SaveError, version_unknown, not_saved, concurrent_modification,
  model_of, save_events, save_some, save_by, save,
}
use transaction_api.Sourcing.Store.Versions.{Stores, Saves, save_events-Saves, models_of}
use transaction_api.Sourcing.Loading.{
  deserialize_event, deserialize_all, detail_of, no_rows, get_events, get_transaction,
}

abbrev blank : BaseAggregate
blank = record { id = 0; version = 0; uncommitted_events = [] }

-- A transaction that only its created event has made.
record IsNew (json : Json) (event_id : Uuid) (event_now : Time) (t : EventSourcedTransaction)
    : Type 0 where
  version : t.root.version ≡ 0
  events :
      t.root.uncommitted_events
      ≡ new_transaction_created_event json event_id event_now (snapshot t) ∷ []
  balance_after : t.balance_after ≡ pos 0

new_event_sourced_transaction-IsNew :
    (json : Json) (id : Uuid) (made changed : Time) (event_id : Uuid) (event_now : Time)
    (user : Uuid) (amount : Amount) (d : String) (t : EventSourcedTransaction)
    → new_event_sourced_transaction json id made changed event_id event_now user amount d ≡ ok t
    → IsNew json event_id event_now t
unfolding new_event_sourced_transaction
new_event_sourced_transaction-IsNew json id made changed event_id event_now user amount d t e =
    record { version = ground arith; events = ground arith; balance_after = ground arith }

module _ {S : Type 0} (table : EventTable S) (json : Json) (now : Time) (event_id : Uuid)
    (event_now : Time) (t : EventSourcedTransaction) where
  abbrev created : Event
  created = new_transaction_created_event json event_id event_now (snapshot t)

  get_transaction-created :
      (d : Detail) (v : ℕ) (s : S)
      → t.balance_after ≡ pos 0
      → ReadsBack json (snapshot t)
      → json.unmarshal_event transaction_created (some (json.marshal_transaction (snapshot t)))
        ≡ ok d
      → table.find t.root.id s ≡ ok (model_of now v created ∷ [])
      → get_transaction table json t.root.id s ≡ ok (record t { root = blank })
  unfolding get_transaction get_events deserialize_all deserialize_event detail_of
      new_transaction_created_event load_from_history apply_event
  get_transaction-created d v s z law reads found = ground arith

  get_transaction-nothing :
      (s : S)
      → table.find t.root.id s ≡ ok []
      → get_transaction table json t.root.id s ≡ err no_rows
  unfolding get_transaction get_events deserialize_all
  get_transaction-nothing s found = rw found refl

  -- What is found under the identifier of a new transaction after it was saved.
  abbrev pub IsFound : Option SaveError × BaseAggregate × S → Type 0
  IsFound (none, a, s) = get_transaction table json t.root.id s ≡ ok (record t { root = blank })
  IsFound (some e, a, s) = (a ≡ t.root) × (get_transaction table json t.root.id s ≡ err no_rows)

  IsFound-save_some :
      (d : Detail) (v : ℕ) (s : S) (r : Option SaveError × S)
      → IsNew json event_id event_now t
      → ReadsBack json (snapshot t)
      → json.unmarshal_event transaction_created (some (json.marshal_transaction (snapshot t)))
        ≡ ok d
      → (law : IsEventTable table) → Stores table t.root.id v [] s
      → Saves table law now t.root.id v v [] (created ∷ []) s r
      → IsFound (save_some table now t.root r)
  unfolding save_some models_of
  IsFound-save_some d v s (none, s') new back reads law h (e, stored) =
      get_transaction-created d (v + 1) s' new.balance_after back reads stored.1
  IsFound-save_some d v s (some (not_saved x), s') new back reads law h (e, same) =
      rw same (refl, get_transaction-nothing s h.1)
  IsFound-save_some d v s (some (version_unknown x), s') new back reads law h e = absurd e
  IsFound-save_some d v s (some (concurrent_modification a b), s') new back reads law h
        (ne, _, _, _) =
      absurd (ne refl)

  save_alone :
      (a : BaseAggregate) (e : Event) (s : S)
      → a.uncommitted_events ≡ e ∷ []
      → save table now a s ≡ save_some table now a (save_events table now a.id (e ∷ []) a.version s)
  unfolding save save_by
  save_alone a e s h = ap (λ es. save_by table now a es s) h

  IsFound-save :
      (d : Detail) (s : S)
      → IsNew json event_id event_now t
      → ReadsBack json (snapshot t)
      → json.unmarshal_event transaction_created (some (json.marshal_transaction (snapshot t)))
        ≡ ok d
      → IsEventTable table
      → Stores table t.root.id 0 [] s
      → IsFound (save table now t.root s)
  unfolding new_transaction_created_event
  IsFound-save d s new back reads law h =
      let v = t.root.version in
      let h' : Stores table t.root.id v [] s = rw new.version h in
      subst IsFound (sym (save_alone t.root created s new.events)) (
        IsFound-save_some d v s (save_events table now t.root.id (created ∷ []) v s) new back reads
          law h' (save_events-Saves table law now t.root.id v v [] (created ∷ []) s (refl, tt) h'))

-- On a table that follows its laws and holds no row of a new transaction, where its text is read
-- back as the transaction and as some event: when saving it succeeds, `GetTransaction` gives back
-- every field of it but the identifier, the version and the events not yet saved, which are blank;
-- when saving it fails, the transaction is as it was and no row is found.
pub save-IsFound :
    {S : Type 0} (table : EventTable S) (json : Json) (id : Uuid) (made changed : Time)
    (event_id : Uuid) (event_now now : Time) (user : Uuid) (amount : Amount) (description : String)
    (t : EventSourcedTransaction) (d : Detail) (s : S)
    → IsEventTable table
    → new_event_sourced_transaction json id made changed event_id event_now user amount description
      ≡ ok t
    → ReadsBack json (snapshot t)
    → json.unmarshal_event transaction_created (some (json.marshal_transaction (snapshot t))) ≡ ok d
    → Stores table t.root.id 0 [] s
    → IsFound table json now event_id event_now t (save table now t.root s)
save-IsFound table json id made changed event_id event_now now user amount description t d s law e
      back reads h =
    IsFound-save table json now event_id event_now t d s
      (new_event_sourced_transaction-IsNew json id made changed event_id event_now user amount
        description t e)
      back reads law h
