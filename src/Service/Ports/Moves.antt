-- ===== src/Service/Ports/Moves.antt =====
-- Where the money goes when a scheduled or batch transaction is processed.
use transaction_api.Prelude.{◌≡◌, ◌≢◌, ◌⊎◌, pos, ◌+ℤ◌, ◌-ℤ◌, ◌≤ℤ◌, arith, some, Result, ok, err, ℕ}
use transaction_api.Domain.Base.{Uuid, Amount, completed, insufficient_balance, invalid_amount}
use transaction_api.Domain.Balance.{Balance}
use transaction_api.Domain.Transaction.{Transaction, update_state}
use transaction_api.Service.Ports.{
  Ports, IsStorage, row, owned_of, ServiceError, domain, MoveTimes, process_credit_transaction,
  process_transfer_transaction,
}

module _ {S : Type 0} (ports : Ports S) (law : IsStorage ports) where
  -- How a processed credit of `x` ends, from the row `(key, a)` of its account.
  abbrev pub Credits : ℕ → Uuid → Amount → Amount → S → Result ServiceError (Unit {0}) × S → Type 0
  Credits n key a x s (ok _, s') = row ports s' n ≡ some (key, a +ℤ x)
  Credits n key a x s (err (domain e), s') = (¬ (pos 1 ≤ℤ x)) × (e ≡ invalid_amount) × (s' ≡ s)
  Credits n key a x s (err _, s') =
      (row ports s' n ≡ some (key, a)) ⊎ (row ports s' n ≡ some (key, a +ℤ x))

  -- On a storage that follows its laws, a processed credit of an account that exists raises the
  -- row by its amount; refused, because the amount is not positive, it changes nothing; where a
  -- write fails, the amount may already have been added though no transaction is stored.
  pub process_credit_transaction-Credits :
      (at : MoveTimes) (t : Transaction) (s : S) (b : Balance)
      → ports.get_balance (ports.uuid_id t.user_id) s ≡ ok b
      → Credits
          (ports.uuid_id t.user_id)
          b.id
          b.amount
          t.amount
          s
          (process_credit_transaction ports at t s)
  unfolding process_credit_transaction
  process_credit_transaction-Credits at t s b e =
      let n = ports.uuid_id t.user_id in
      let b' = record b { amount = b.amount +ℤ t.amount; updated_at = at.added } in
      let s' = (ports.update_balance b' s).1 in
      let t' = (update_state at.stated completed (record t { balance_after = b'.amount })).1 in
      ground (
        arith,
        owned_of ports n s b e,
        law.update_own b' s n b.amount,
        law.update_error b' s,
        law.create_transaction_row t' s' n,
      )

  -- How a processed transfer of `x` ends, from the rows `(i, a)` and `(j, c)`.
  abbrev pub Moves :
      ℕ
      → ℕ
      → Uuid
      → Uuid
      → Amount
      → Amount
      → Amount
      → S
      → Result ServiceError (Unit {0}) × S
      → Type 0
  Moves m n i j a c x s (ok _, s') =
      (pos 1 ≤ℤ x)
      × (x ≤ℤ a)
      × (row ports s' m ≡ some (i, a -ℤ x))
      × (row ports s' n ≡ some (j, c +ℤ x))
  Moves m n i j a c x s (err (domain e), s') =
      (s' ≡ s)
      × (((¬ (pos 1 ≤ℤ x)) × (e ≡ invalid_amount)) ⊎ ((¬ (x ≤ℤ a)) × (e ≡ insufficient_balance)))
  Moves m n i j a c x s (err _, s') =
      ((row ports s' m ≡ some (i, a)) × (row ports s' n ≡ some (j, c)))
      ⊎ ((row ports s' m ≡ some (i, a -ℤ x)) × (row ports s' n ≡ some (j, c)))
      ⊎ ((row ports s' m ≡ some (i, a -ℤ x)) × (row ports s' n ≡ some (j, c +ℤ x)))

  -- On a storage that follows its laws, a processed transfer between accounts that exist and have
  -- different keys moves exactly its amount, which is positive and covered; a refused one changes
  -- nothing; where a write fails, none, the first or both of the two rows have been written.
  pub process_transfer_transaction-Moves :
      (at : MoveTimes) (t : Transaction) (to : Uuid) (s : S) (b c : Balance)
      → ports.get_balance (ports.uuid_id t.user_id) s ≡ ok b
      → ports.get_balance (ports.uuid_id to) s ≡ ok c
      → b.id ≢ c.id
      → Moves
          (ports.uuid_id t.user_id)
          (ports.uuid_id to)
          b.id
          c.id
          b.amount
          c.amount
          t.amount
          s
          (process_transfer_transaction ports at t to s)
  unfolding process_transfer_transaction
  process_transfer_transaction-Moves at t to s b c e f ne =
      let m = ports.uuid_id t.user_id in
      let n = ports.uuid_id to in
      let x = t.amount in
      let b' = record b { amount = b.amount -ℤ x; updated_at = at.subtracted } in
      let s₁ = (ports.update_balance b' s).1 in
      let c' = record c { amount = c.amount +ℤ x; updated_at = at.added } in
      let s₂ = (ports.update_balance c' s₁).1 in
      let t' = (update_state at.stated completed (record t { balance_after = b'.amount })).1 in
      ground (
        arith,
        owned_of ports m s b e,
        owned_of ports n s c f,
        law.update_own b' s m b.amount,
        law.update_other b' s m n c.id c.user_id b.amount c.amount,
        law.update_error b' s,
        law.update_own c' s₁ n c.amount,
        law.update_other c' s₁ n m b.id b.user_id c.amount b'.amount,
        law.update_error c' s₁,
        law.create_transaction_row t' s₂ m,
        law.create_transaction_row t' s₂ n,
      )
