-- ===== src/Service/Transaction/Credit.antt =====
-- Credits, to an account that exists and to one that does not; and when a transfer goes through.
use transaction_api.Prelude.{
  ◌≡◌, pos, ◌+ℤ◌, ◌-ℤ◌, ◌≤ℤ◌, arith, none, some, String, ok, err, Option-cases, inl, inr,
}
use transaction_api.Domain.Base.{Uuid, Amount, TransactionType}
use transaction_api.Domain.Balance.{Balance}
use transaction_api.Domain.Transaction.{Transaction}
use transaction_api.Repository.Store.{Database, IsDatabase, row, owned_of, DbError}
use transaction_api.Service.Transaction.{
  Reply, done, fail, panics, repository, insufficient, Fresh, posting, transfer, credit,
  empty_balance,
}

module _ {S : Type 0} (db : Database S) (law : IsDatabase db) where
  -- How a credit ends, from the row `(key, a)` of its account.
  abbrev pub Credits : String → Uuid → Amount → Amount → S → Reply Transaction × S → Type 0
  Credits user key a x s (done t, s') =
      (row db s' user ≡ some (key, a +ℤ x)) × (t.balance_after ≡ a +ℤ x)
  Credits user key a x s (fail insufficient, s') = ⊥
  Credits user key a x s (fail (repository _), s') = row db s' user ≡ some (key, a)
  Credits user key a x s (panics, s') = (db.parse_uuid user ≡ none) × (s' ≡ s)

  -- On a database that follows its laws, a credit to an account that exists raises its row by the
  -- amount, which the transaction records, or leaves the row as it was, whichever step fails.
  pub credit-Credits :
      (fresh : Fresh) (user : String) (x : Amount) (d : String) (s : S) (b : Balance)
      → db.first_balance user s ≡ ok b
      → Credits user b.id b.amount x s (credit db fresh user x d s)
  unfolding credit
  credit-Credits fresh user x d s b e = elim (Option-cases (db.parse_uuid user)) [
    | inl bad ↦ ground (arith, owned_of db user s b e)
    | inr (u, good) ↦
        let t = posting fresh u TransactionType.credit x d (b.amount +ℤ x) in
        let s' = (db.create_transaction t s).1 in
        let b' = record b { amount = b.amount +ℤ x } in
        ground (
          arith,
          owned_of db user s b e,
          law.create_transaction_row t s user,
          law.save_own b' s' user b.amount,
          law.save_error b' s',
        )
  ]

  -- How a credit ends when the lookup of its account fails.
  abbrev pub Opens : String → Uuid → Amount → S → Reply Transaction × S → Type 0
  Opens user key x s (done t, s') =
      (row db s' user ≡ some (key, pos 0 +ℤ x)) × (t.balance_after ≡ pos 0 +ℤ x)
  Opens user key x s (fail insufficient, s') = ⊥
  Opens user key x s (fail (repository _), s') = Unit
  Opens user key x s (panics, s') = (db.parse_uuid user ≡ none) × (s' ≡ s)

  -- On a database that follows its laws, when the lookup fails, for whatever reason, a credit
  -- that is done has opened an account that holds exactly the amount; it panics only on a text
  -- that is no identifier.
  pub credit-Opens :
      (fresh : Fresh) (user : String) (x : Amount) (d : String) (s : S) (e : DbError)
      → db.first_balance user s ≡ err e
      → Opens user fresh.balance_id x s (credit db fresh user x d s)
  unfolding credit
  credit-Opens fresh user x d s e h = elim (Option-cases (db.parse_uuid user)) [
    | inl bad ↦ ground arith
    | inr (u, good) ↦
        let b = empty_balance fresh u in
        let s₁ = (db.create_balance b s).1 in
        let t = posting fresh u TransactionType.credit x d (pos 0 +ℤ x) in
        let s₂ = (db.create_transaction t s₁).1 in
        let b' = record b { amount = pos 0 +ℤ x } in
        ground (
          arith,
          law.create_own b s user good,
          law.create_transaction_row t s₁ user,
          law.save_own b' s₂ user (pos 0),
        )
  ]

-- While the database reports no error on a write, a covered transfer between accounts that exist,
-- from a user whose text is an identifier, is done; no law about the rows is needed.
pub transfer-done :
    {S : Type 0} (db : Database S) (fresh : Fresh) (from to : String) (x : Amount) (d : String)
    (s : S) (b c : Balance) (u : Uuid)
    → ((t : Transaction) (r : S) → (db.create_transaction t r).0 ≡ none)
    → ((a : Balance) (r : S) → (db.save_balance a r).0 ≡ none)
    → db.first_balance from s ≡ ok b
    → db.first_balance to s ≡ ok c
    → db.parse_uuid from ≡ some u
    → x ≤ℤ b.amount
    → (transfer db fresh from to x d s).0
      ≡ done (posting fresh u TransactionType.transfer x d (b.amount -ℤ x))
unfolding transfer
transfer-done db fresh from to x d s b c u created saved e f p le =
    let t = posting fresh u TransactionType.transfer x d (b.amount -ℤ x) in
    let s₁ = (db.create_transaction t s).1 in
    let b' = record b { amount = b.amount -ℤ x } in
    let c' = record c { amount = c.amount +ℤ x } in
    ground (arith, created t s, saved b' s₁, saved c' (db.save_balance b' s₁).1)
