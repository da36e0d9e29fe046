-- ===== src/Tests/Workers.antt =====
-- Tests of the batch processor: a service that has money for one withdrawal.
use transaction_api.Prelude.{ℕ, zero, suc, ◌≡◌, refl, pos, none, some, String, Option, [], ◌∷◌}
use transaction_api.Worker.{BatchJob, BalanceService, withdraw, unknown, process_batch}
use transaction_api.Worker.Pool.{TransactionJob, TransactionWorker, handle_jobs}
use transaction_api.Worker.Pool.Tally.{Tallies, handle_jobs-Tallies}

abbrev withdrawn : ℕ → Option String × ℕ
withdrawn zero = (some "insufficient balance", zero)
withdrawn (suc n) = (none, n)

abbrev service : BalanceService ℕ
service = record {
  add_funds = λ user amount n. (none, suc n);
  withdraw_funds = λ user amount n. withdrawn n;
}

abbrev fees : BatchJob
fees = record { user_ids = 1 ∷ 2 ∷ []; amount = pos 5; description = "fees"; operation = withdraw }

abbrev typo : BatchJob
typo = record fees { operation = unknown "withdrew" }

-- An operation that is not known moves nothing and counts as a success.
typo_succeeds :
    let (r, s) = process_batch service typo (1 ∷ 2 ∷ []) 1 in
    (r.success_count ≡ 2) × (r.failed_count ≡ 0) × (s ≡ 1)
unfolding process_batch
typo_succeeds = (refl, refl, refl)

abbrev payment : TransactionJob
payment = record {
  transaction_id = 20;
  from_user_id = 1;
  to_user_id = 2;
  amount = pos 3;
  description = "rent";
}

abbrev idle : TransactionWorker
idle = record {
  processed_count = 0;
  failed_count = 0;
  stats = record { total_processed = 0; total_failed = 0; total_amount = pos 0 };
}

handle_jobs-Tallies_example :
    Tallies 2 1 idle
      (handle_jobs ((payment, none) ∷ (payment, some "locked") ∷ (payment, none) ∷ []) idle)
handle_jobs-Tallies_example =
    handle_jobs-Tallies ((payment, none) ∷ (payment, some "locked") ∷ (payment, none) ∷ []) idle
