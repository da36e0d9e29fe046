-- ===== src/Domain/Base.antt =====
-- What the entities of pkg/domain share: identifiers, amounts, statuses and the errors of
-- pkg/domain/errors.go.
use transaction_api.Prelude.{ℕ, ℤ, String}

-- `uuid.UUID`, which the program only compares.
abbrev pub Uuid : Type 0
Uuid = ℕ

-- A `float64` of a `decimal(19,4)` column, in units of 0.0001.
abbrev pub Amount : Type 0
Amount = ℤ

-- `time.Time`, in nanoseconds.
abbrev pub Time : Type 0
Time = ℕ

pub data DomainError : Type 0 where
  invalid_name invalid_email invalid_password : DomainError
  invalid_transaction_status invalid_state : DomainError
  insufficient_balance invalid_amount : DomainError
  invalid_scheduled_time invalid_batch_items batch_size_exceeded invalid_limit : DomainError
  transaction_limit_exceeded daily_limit_exceeded daily_count_exceeded : DomainError

-- The texts of a status column; `other` is a text that is none of those named.
pub data Status : Type 0 where
  pending processing completed failed partial cancelled rolled_back : Status
  other : String → Status

-- `TransactionType`; `other_type` is a text that is none of the three.
pub data TransactionType : Type 0 where
  credit debit transfer : TransactionType
  other_type : String → TransactionType
