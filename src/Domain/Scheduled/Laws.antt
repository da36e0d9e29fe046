-- ===== src/Domain/Scheduled/Laws.antt =====
-- What the constructors of scheduled and batch transactions accept, and what they build.
use transaction_api.Prelude.{
  ◌≤◌, ◌≡◌, ◌⊎◌, pos, ◌+ℤ◌, ◌≤ℤ◌, Result, ok, err, arith, List, [], ◌∷◌, length, All, int_laws,
  leb_ℤ, ltb, ltb→lt, ==_iff, ◌==◌, Bool-cases, inl, inr, true, false, if◌then◌else◌, refl,
}
use transaction_api.Domain.Base.{
  Uuid, Amount, Time, DomainError, invalid_amount, batch_size_exceeded, invalid_batch_items,
  pending,
}
use transaction_api.Domain.Scheduled.{
  BatchItem, BatchTransactionRequest, BatchTransaction, total_of, new_batch_transaction, batch_of,
}

abbrev pub IsPositive : BatchItem → Type 0
IsPositive item = pos 1 ≤ℤ item.amount

pub sum_amounts : List BatchItem → Amount
sum_amounts [] = pos 0
sum_amounts (item ∷ items) = item.amount +ℤ sum_amounts items

-- The outcome of the loop: the sum if every amount is positive, and the error if one is not.
abbrev Totals : Amount → List BatchItem → Result DomainError Amount → Type 0
Totals total items (ok r) = All IsPositive items × (r ≡ total +ℤ sum_amounts items)
Totals total items (err e) = (¬ All IsPositive items) × (e ≡ invalid_amount)

leb_ℤ→≤ℤ : (a : Amount) → leb_ℤ a (pos 0) ≡ true → ¬ (pos 1 ≤ℤ a)
leb_ℤ→≤ℤ a h = ground arith

leb_ℤ→pos : (a : Amount) → leb_ℤ a (pos 0) ≡ false → pos 1 ≤ℤ a
leb_ℤ→pos a h = ground arith

Totals-cons :
    (total : Amount) (item : BatchItem) (items : List BatchItem) (r : Result DomainError Amount)
    → Totals (total +ℤ item.amount) items r
    → Totals total (item ∷ items) (if leb_ℤ item.amount (pos 0) then err invalid_amount else r)
unfolding sum_amounts
Totals-cons total item items r h = elim (Bool-cases (leb_ℤ item.amount (pos 0))) [
  | inl bad ↦ rw bad ((λ all. leb_ℤ→≤ℤ item.amount bad all.0), refl)
  | inr good ↦ rw good (go r h (leb_ℤ→pos item.amount good))
]
  where
    go :
        (r : Result DomainError Amount)
        → Totals (total +ℤ item.amount) items r
        → pos 1 ≤ℤ item.amount
        → Totals total (item ∷ items) r
    go (ok t) (all, e) p = ((p, all), rw e (omega int_laws))
    go (err x) (bad, e) p = ((λ all. bad all.1), e)

total_of-Totals :
    (total : Amount) (items : List BatchItem) → Totals total items (total_of total items)
unfolding total_of sum_amounts
total_of-Totals total [] = (tt, omega int_laws)
total_of-Totals total (item ∷ items) =
    Totals-cons total item items (total_of (total +ℤ item.amount) items)
      (total_of-Totals (total +ℤ item.amount) items)

-- What a request for a batch gives.
abbrev pub Batches : BatchTransactionRequest → Result DomainError BatchTransaction → Type 0
Batches req (ok b) =
    (1 ≤ length req.items)
    × (length req.items ≤ 1000)
    × All IsPositive req.items
    × (b.item_count ≡ length req.items)
    × (b.total_amount ≡ sum_amounts req.items)
    × (b.status ≡ pending)
Batches req (err e) =
    ((length req.items ≡ 0) × (e ≡ invalid_batch_items))
    ⊎ ((1001 ≤ length req.items) × (e ≡ batch_size_exceeded))
    ⊎ ((¬ All IsPositive req.items) × (e ≡ invalid_amount))

batch_of-Batches :
    (id : Uuid) (created updated : Time) (user : Uuid) (req : BatchTransactionRequest)
    (r : Result DomainError Amount)
    → Totals (pos 0) req.items r
    → 1 ≤ length req.items
    → length req.items ≤ 1000
    → Batches req (batch_of id created updated user req r)
batch_of-Batches id created updated user req (ok total) (all, e) lo hi =
    (lo, hi, all, refl, rw e (omega int_laws), refl)
batch_of-Batches id created updated user req (err x) h lo hi = inr (inr h)

-- `NewBatchTransaction` accepts only 1 to 1000 items with positive amounts, and then its total is
-- the sum of the amounts; otherwise it names the first of the three conditions that fails.
pub new_batch_transaction-Batches :
    (id : Uuid) (created updated : Time) (user : Uuid) (req : BatchTransactionRequest)
    → Batches req (new_batch_transaction id created updated user req)
unfolding new_batch_transaction
new_batch_transaction-Batches id created updated user req =
    elim (Bool-cases (length req.items == 0)) [
      | inl empty ↦ rw empty (inl ((==_iff _ _).0 empty, refl))
      | inr some_items ↦ rw some_items (elim (Bool-cases (ltb 1000 (length req.items))) [
        | inl many ↦ rw many (inr (inl (ltb→lt _ _ many, refl)))
        | inr few ↦ rw few (
            batch_of-Batches id created updated user req (total_of (pos 0) req.items)
              (total_of-Totals (pos 0) req.items) (ground arith) (ground arith))
      ])
    ]
