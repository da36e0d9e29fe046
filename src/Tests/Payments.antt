-- ===== src/Tests/Payments.antt =====
-- Tests of the service of transactions on the database in memory.
use transaction_api.Prelude.{◌≡◌, refl, pos, ◌+ℤ◌, ◌-ℤ◌, some, arith}
use transaction_api.Repository.Store.{row}
use transaction_api.Service.Transaction.{Fresh, credit, debit, transfer}
use transaction_api.Service.Transaction.Money.{
  Debits, debit-Debits, Transfers, transfer-Transfers, Mints, transfer_self,
}
use transaction_api.Service.Transaction.Credit.{Credits, credit-Credits}
use transaction_api.Tests.Memory.{memory, memory-IsDatabase, accounts, alice, bob}

abbrev fresh : Fresh
fresh = record {
  balance_id = 13;
  balance_created = 5;
  balance_updated = 5;
  transaction_id = 20;
  created = 6;
  updated = 6;
}

transfer_moves :
    let s = (transfer memory fresh "alice" "bob" (pos 3) "rent" accounts).1 in
    (row memory s "alice" ≡ some (11, pos 7)) × (row memory s "bob" ≡ some (12, pos 7))
unfolding transfer ◌-ℤ◌ ◌+ℤ◌
transfer_moves = (refl, refl)

transfer_mints :
    row memory (transfer memory fresh "alice" "alice" (pos 3) "rent" accounts).1 "alice"
    ≡ some (11, pos 13)
unfolding transfer ◌+ℤ◌
transfer_mints = refl

transfer-Transfers_example :
    Transfers memory memory-IsDatabase "alice" "bob" 11 12
      (pos 10)
      (pos 4)
      (pos 3)
      accounts
      (transfer memory fresh "alice" "bob" (pos 3) "rent" accounts)
transfer-Transfers_example =
    transfer-Transfers memory memory-IsDatabase fresh "alice" "bob" (pos 3) "rent" accounts alice
      bob refl refl (λ e. omega arith)

transfer_self_example :
    Mints memory memory-IsDatabase "alice" 11
      (pos 10)
      (pos 3)
      (transfer memory fresh "alice" "alice" (pos 3) "rent" accounts)
transfer_self_example =
    transfer_self memory memory-IsDatabase fresh "alice" (pos 3) "rent" accounts alice refl

debit-Debits_example :
    Debits memory memory-IsDatabase "alice" 11
      (pos 10)
      (pos 3)
      accounts
      (debit memory fresh "alice" (pos 3) "fee" accounts)
debit-Debits_example =
    debit-Debits memory memory-IsDatabase fresh "alice" (pos 3) "fee" accounts alice refl

credit-Credits_example :
    Credits memory memory-IsDatabase "bob" 12
      (pos 4)
      (pos 3)
      accounts
      (credit memory fresh "bob" (pos 3) "gift" accounts)
credit-Credits_example =
    credit-Credits memory memory-IsDatabase fresh "bob" (pos 3) "gift" accounts bob refl
