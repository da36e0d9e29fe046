-- ===== src/Service/Transaction/Money.antt =====
-- Where the money goes: the rows of the accounts after a debit, a credit and a transfer.
use transaction_api.Prelude.{
  ◌≡◌, ◌≢◌, ◌⊎◌, inl, inr, ◌+ℤ◌, ◌-ℤ◌, ◌≤ℤ◌, arith, Option-cases, none, some, String, ok,
}
use transaction_api.Domain.Base.{Uuid, Amount, TransactionType}
use transaction_api.Domain.Balance.{Balance}
use transaction_api.Domain.Transaction.{Transaction}
use transaction_api.Repository.Store.{Database, IsDatabase, row, owned_of}
use transaction_api.Service.Transaction.{
  Reply, done, fail, panics, insufficient, repository, Fresh, posting, transfer, debit,
}

module _ {S : Type 0} (db : Database S) (law : IsDatabase db) where
  -- How a debit ends, from the row `(key, a)` of its account.
  abbrev pub Debits : String → Uuid → Amount → Amount → S → Reply Transaction × S → Type 0
  Debits user key a x s (done t, s') =
      (x ≤ℤ a) × (row db s' user ≡ some (key, a -ℤ x)) × (t.balance_after ≡ a -ℤ x)
  Debits user key a x s (fail insufficient, s') = (¬ (x ≤ℤ a)) × (s' ≡ s)
  Debits user key a x s (fail (repository _), s') = row db s' user ≡ some (key, a)
  Debits user key a x s (panics, s') = (db.parse_uuid user ≡ none) × (s' ≡ s)

  -- On a database that follows its laws, a debit of an account that exists, if it is done, was
  -- covered and lowered the row by its amount, which the transaction records; any other leaves
  -- the account as it was, whichever step fails.
  pub debit-Debits :
      (fresh : Fresh) (user : String) (x : Amount) (d : String) (s : S) (b : Balance)
      → db.first_balance user s ≡ ok b
      → Debits user b.id b.amount x s (debit db fresh user x d s)
  unfolding debit
  debit-Debits fresh user x d s b e = elim (Option-cases (db.parse_uuid user)) [
    | inl bad ↦ ground (arith, owned_of db user s b e)
    | inr (u, good) ↦
        let t = posting fresh u TransactionType.debit x d (b.amount -ℤ x) in
        let s' = (db.create_transaction t s).1 in
        let b' = record b { amount = b.amount -ℤ x } in
        ground (
          arith,
          owned_of db user s b e,
          law.create_transaction_row t s user,
          law.save_own b' s' user b.amount,
          law.save_error b' s',
        )
  ]

  -- How a transfer between two rows ends: `(i, a)` of the source and `(j, c)` of the target.
  abbrev pub Transfers :
      String → String → Uuid → Uuid → Amount → Amount → Amount → S → Reply Transaction × S → Type 0
  Transfers from to i j a c x s (done t, s') =
      (x ≤ℤ a)
      × (row db s' from ≡ some (i, a -ℤ x))
      × (row db s' to ≡ some (j, c +ℤ x))
      × (t.balance_after ≡ a -ℤ x)
  Transfers from to i j a c x s (fail insufficient, s') = (¬ (x ≤ℤ a)) × (s' ≡ s)
  Transfers from to i j a c x s (fail (repository _), s') =
      (row db s' to ≡ some (j, c))
      × ((row db s' from ≡ some (i, a)) ⊎ (row db s' from ≡ some (i, a -ℤ x)))
  Transfers from to i j a c x s (panics, s') = (db.parse_uuid from ≡ none) × (s' ≡ s)

  -- On a database that follows its laws, a transfer between two users whose rows have different
  -- keys, if it is done, was covered and moved exactly its amount from one row to the other. One
  -- that fails leaves the target as it was, but may have taken the amount from the source: the
  -- two writes are not one database transaction.
  pub transfer-Transfers :
      (fresh : Fresh) (from to : String) (x : Amount) (d : String) (s : S) (b c : Balance)
      → db.first_balance from s ≡ ok b
      → db.first_balance to s ≡ ok c
      → b.id ≢ c.id
      → Transfers from to b.id c.id b.amount c.amount x s (transfer db fresh from to x d s)
  unfolding transfer
  transfer-Transfers fresh from to x d s b c e f ne = elim (Option-cases (db.parse_uuid from)) [
    | inl bad ↦ ground arith
    | inr (u, good) ↦
        let t = posting fresh u TransactionType.transfer x d (b.amount -ℤ x) in
        let s₁ = (db.create_transaction t s).1 in
        let b' = record b { amount = b.amount -ℤ x } in
        let s₂ = (db.save_balance b' s₁).1 in
        let c' = record c { amount = c.amount +ℤ x } in
        ground (
          arith,
          owned_of db from s b e,
          owned_of db to s c f,
          law.create_transaction_row t s from,
          law.create_transaction_row t s to,
          law.save_own b' s₁ from b.amount,
          law.save_error b' s₁,
          law.save_other b' s₁ from to c.id c.user_id b.amount c.amount,
          law.save_own c' s₂ to c.amount,
          law.save_other c' s₂ to from b.id b.user_id c.amount (b.amount -ℤ x),
          law.save_error c' s₂,
        )
  ]

  -- How a transfer of an account to itself ends.
  abbrev pub Mints : String → Uuid → Amount → Amount → Reply Transaction × S → Type 0
  Mints user key a x (done t, s') = row db s' user ≡ some (key, a +ℤ x)
  Mints user key a x (fail _, s') =
      (row db s' user ≡ some (key, a)) ⊎ (row db s' user ≡ some (key, a -ℤ x))
  Mints user key a x (panics, s') = row db s' user ≡ some (key, a)

  -- On a database that follows its laws, a transfer of an account to itself, if it is done,
  -- raises the balance by the amount: both rows are read before either is written, and the second
  -- write wins. One that fails has lowered the balance or left it.
  pub transfer_self :
      (fresh : Fresh) (user : String) (x : Amount) (d : String) (s : S) (b : Balance)
      → db.first_balance user s ≡ ok b
      → Mints user b.id b.amount x (transfer db fresh user user x d s)
  unfolding transfer
  transfer_self fresh user x d s b e = elim (Option-cases (db.parse_uuid user)) [
    | inl bad ↦ ground (arith, owned_of db user s b e)
    | inr (u, good) ↦
        let t = posting fresh u TransactionType.transfer x d (b.amount -ℤ x) in
        let s₁ = (db.create_transaction t s).1 in
        let b' = record b { amount = b.amount -ℤ x } in
        let s₂ = (db.save_balance b' s₁).1 in
        let c' = record b { amount = b.amount +ℤ x } in
        ground (
          arith,
          owned_of db user s b e,
          law.create_transaction_row t s user,
          law.save_own b' s₁ user b.amount,
          law.save_error b' s₁,
          law.save_own c' s₂ user (b.amount -ℤ x),
          law.save_error c' s₂,
        )
  ]
