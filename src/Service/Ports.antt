-- ===== src/Service/Ports.antt =====
-- The repository interfaces of pkg/domain/interfaces.go that the services of scheduled and batch
-- transactions are given, the calls over them, and the three ways of moving money that both share.
pub mod Moves
use transaction_api.Prelude.{◌≡◌, refl, ◌≢◌, ℕ, Option, none, some, String, Result, ok, err, List}
use transaction_api.Domain.Base.{Uuid, Amount, Time, DomainError, Status, completed}
use transaction_api.Domain.Balance.{Balance, add, subtract}
use transaction_api.Domain.Transaction.{Transaction, update_state}
use transaction_api.Domain.Scheduled.{ScheduledTransaction, BatchTransaction}

pub record BatchTransactionItem : Type 0 where
  pub id : Uuid
  pub batch_id : Uuid
  pub transaction_id : Uuid
  pub amount : Amount
  pub description : String
  pub reference_id : String
  pub status : Status
  pub error_message : Option String
  pub processed_at : Option Time
  pub created_at : Time
  pub updated_at : Time

pub data ServiceError : Type 0 where
  domain : DomainError → ServiceError
  storage : String → ServiceError
  to_user_required : ServiceError
  transfers_not_implemented : ServiceError
  not_pending : ServiceError
  only_pending_cancelled : ServiceError

-- `uuid_id` is `uuid.UUID.ID`, the number by which these services look balances up.
pub record Ports (S : Type 0) : Type 0 where
  pub uuid_id : Uuid → ℕ
  pub get_balance : ℕ → S → Result String Balance
  pub update_balance : Balance → S → Option String × S
  pub create_transaction : Transaction → S → Option String × S
  pub create_scheduled : ScheduledTransaction → S → Option String × S
  pub get_scheduled : Uuid → S → Result String ScheduledTransaction
  pub pending_scheduled : S → Result String (List ScheduledTransaction)
  pub update_scheduled : ScheduledTransaction → S → Option String × S
  pub create_batch : BatchTransaction → S → Option String × S
  pub create_item : BatchTransactionItem → S → Option String × S
  pub get_batch : Uuid → S → Result String BatchTransaction
  pub update_batch : BatchTransaction → S → Option String × S
  pub items_of_batch : Uuid → S → Result String (List BatchTransactionItem)
  pub update_item : BatchTransactionItem → S → Option String × S
  pub error_text : ServiceError → String

-- The key, the owner and the amount of the balance that a number finds.
abbrev pub owned : {S : Type 0} → Ports S → S → ℕ → Option (Uuid × Uuid × Amount)
owned ports s n = elim (ports.get_balance n s) [
  | ok b ↦ some (b.id, b.user_id, b.amount)
  | err _ ↦ none
]

abbrev without_owner : Option (Uuid × Uuid × Amount) → Option (Uuid × Amount)
without_owner none = none
without_owner (some (key, owner, amount)) = some (key, amount)

-- The key and the amount of that balance.
abbrev pub row : {S : Type 0} → Ports S → S → ℕ → Option (Uuid × Amount)
row ports s n = without_owner (owned ports s n)

pub owned_of :
    {S : Type 0} (ports : Ports S) (n : ℕ) (s : S) (b : Balance)
    → ports.get_balance n s ≡ ok b
    → owned ports s n ≡ some (b.id, b.user_id, b.amount)
owned_of ports n s b e = rw (owned, e) refl

-- `Update` of a balance that is stored, with its owner unchanged, writes that one and no other; a
-- write that reports an error has not been made; the tables are separate.
pub record IsStorage {S : Type 0} (ports : Ports S) : Type 0 where
  pub update_own :
      (b : Balance) (s : S) (n : ℕ) (a : Amount)
      → owned ports s n ≡ some (b.id, b.user_id, a)
      → (ports.update_balance b s).0 ≡ none
      → owned ports (ports.update_balance b s).1 n ≡ some (b.id, b.user_id, b.amount)
  pub update_other :
      (b : Balance) (s : S) (m n : ℕ) (key owner : Uuid) (old a : Amount)
      → owned ports s m ≡ some (b.id, b.user_id, old)
      → owned ports s n ≡ some (key, owner, a)
      → key ≢ b.id
      → owned ports (ports.update_balance b s).1 n ≡ some (key, owner, a)
  pub update_error :
      (b : Balance) (s : S) → (ports.update_balance b s).0 ≢ none → (ports.update_balance b s).1 ≡ s
  pub create_transaction_row :
      (t : Transaction) (s : S) (n : ℕ)
      → owned ports (ports.create_transaction t s).1 n ≡ owned ports s n

-- A call: a value or an error, and the state of the storage after it.
abbrev pub Action : Type 0 → Type 0 → Type 0
Action S A = S → Result ServiceError A × S

infixl 5 ◌>>=◌ ◌>>◌
abbrev pub ◌>>=◌ : {S A B : Type 0} → Action S A → (A → Action S B) → Action S B
◌>>=◌ m f s = let (r, s') = m s in elim r [ ok a ↦ f a s' | err e ↦ (err e, s') ]

abbrev pub ◌>>◌ : {S B : Type 0} → Action S (Unit {0}) → Action S B → Action S B
m >> k = m >>= λ _. k

abbrev pub fails : {S A : Type 0} → ServiceError → Action S A
fails e s = (err e, s)

abbrev stored : {A : Type 0} → Result String A → Result ServiceError A
stored (ok a) = ok a
stored (err e) = err (storage e)

abbrev pub written : Option String → Result ServiceError (Unit {0})
written none = ok tt
written (some e) = err (storage e)

abbrev pub reads : {S A : Type 0} → (S → Result String A) → Action S A
reads f s = (stored (f s), s)

abbrev pub writes : {S : Type 0} → (S → Option String × S) → Action S (Unit {0})
writes f s = let (e, s') = f s in (written e, s')

-- A write whose error the source drops.
abbrev pub writes_blindly : {S : Type 0} → (S → Option String × S) → Action S (Unit {0})
writes_blindly f s = (ok tt, (f s).1)

abbrev checked_balance : Option DomainError × Balance → Result ServiceError Balance
checked_balance (none, b) = ok b
checked_balance (some e, b) = err (domain e)

-- A method of a balance that may refuse.
abbrev changes : {S : Type 0} → Option DomainError × Balance → Action S Balance
changes r s = (checked_balance r, s)

-- The readings of the clock of `Add`, `Subtract` and `UpdateState`.
pub record MoveTimes : Type 0 where
  pub subtracted : Time
  pub added : Time
  pub stated : Time

-- The tail of all three: the balance after, the state "completed" (its error is dropped), the row.
abbrev completed_at : MoveTimes → Amount → Transaction → Transaction
completed_at at after t = (update_state at.stated completed (record t { balance_after = after })).1

module _ {S : Type 0} (ports : Ports S) where
  unfoldable pub process_credit_transaction : MoveTimes → Transaction → Action S (Unit {0})
  unfolding add update_state
  process_credit_transaction at t = do
    balance ← reads (ports.get_balance (ports.uuid_id t.user_id))
    balance' ← changes (add at.added t.amount balance)
    writes (ports.update_balance balance')
    writes (ports.create_transaction (completed_at at balance'.amount t))

  unfoldable pub process_debit_transaction : MoveTimes → Transaction → Action S (Unit {0})
  unfolding subtract update_state
  process_debit_transaction at t = do
    balance ← reads (ports.get_balance (ports.uuid_id t.user_id))
    balance' ← changes (subtract at.subtracted t.amount balance)
    writes (ports.update_balance balance')
    writes (ports.create_transaction (completed_at at balance'.amount t))

  unfoldable pub process_transfer_transaction : MoveTimes → Transaction → Uuid → Action S (Unit {0})
  unfolding add subtract update_state
  process_transfer_transaction at t to_user = do
    source ← reads (ports.get_balance (ports.uuid_id t.user_id))
    target ← reads (ports.get_balance (ports.uuid_id to_user))
    source' ← changes (subtract at.subtracted t.amount source)
    target' ← changes (add at.added t.amount target)
    writes (ports.update_balance source')
    writes (ports.update_balance target')
    writes (ports.create_transaction (completed_at at source'.amount t))
