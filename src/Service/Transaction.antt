-- ===== src/Service/Transaction.antt =====
-- pkg/service/transaction.go: credit, debit and transfer over the repositories. Identifiers and
-- readings of the clock are arguments.
pub mod Money
pub mod Credit
use transaction_api.Prelude.{
  pos, ◌+ℤ◌, ◌-ℤ◌, ltb_ℤ, Option, none, some, String, Result, ok, err, Bool, true, false,
  if◌then◌else◌,
}
use transaction_api.Domain.Base.{Uuid, Amount, Time, TransactionType, Status, other}
use transaction_api.Domain.Balance.{Balance}
use transaction_api.Domain.Transaction.{Transaction}
use transaction_api.Repository.{
  RepoError, get_by_user_id, create_balance, update_balance, create_transaction,
}
use transaction_api.Repository.Store.{Database}

pub data ServiceError : Type 0 where
  insufficient : ServiceError
  repository : RepoError → ServiceError

-- A call returns a value, returns an error, or panics (`uuid.MustParse`).
pub data Reply (A : Type 0) : Type 0 where
  done : A → Reply A
  fail : ServiceError → Reply A
  panics : Reply A

abbrev pub Action : Type 0 → Type 0 → Type 0
Action S A = S → Reply A × S

infixl 5 ◌>>=◌ ◌>>◌
abbrev pub ◌>>=◌ : {S A B : Type 0} → Action S A → (A → Action S B) → Action S B
◌>>=◌ m f s =
    let (r, s') = m s in elim r [ done a ↦ f a s' | fail e ↦ (fail e, s') | panics ↦ (panics, s') ]

abbrev pub ◌>>◌ : {S B : Type 0} → Action S (Unit {0}) → Action S B → Action S B
m >> k = m >>= λ _. k

abbrev pub pure : {S A : Type 0} → A → Action S A
pure a s = (done a, s)

abbrev fail_if : {S : Type 0} → Bool → ServiceError → Action S (Unit {0})
fail_if t e s = (if t then fail e else done tt, s)

abbrev reply_of : {A : Type 0} → Result RepoError A → Reply A
reply_of (ok a) = done a
reply_of (err e) = fail (repository e)

abbrev written : Option RepoError → Reply (Unit {0})
written none = done tt
written (some e) = fail (repository e)

-- A repository's read, and a repository's write, as steps of a call.
abbrev reads : {S A : Type 0} → (S → Result RepoError A) → Action S A
reads f s = (reply_of (f s), s)

abbrev writes : {S : Type 0} → (S → Option RepoError × S) → Action S (Unit {0})
writes f s = let (e, s') = f s in (written e, s')

-- What one call takes from the clock and from `uuid.New`.
pub record Fresh : Type 0 where
  pub balance_id : Uuid
  pub balance_created : Time
  pub balance_updated : Time
  pub transaction_id : Uuid
  pub created : Time
  pub updated : Time

-- The literals of `Credit`, `Debit` and `Transfer`, which leave the status the empty text.
abbrev pub posting : Fresh → Uuid → TransactionType → Amount → String → Amount → Transaction
posting fresh user type_ amount description after = record {
  id = fresh.transaction_id;
  user_id = user;
  type_ = type_;
  amount = amount;
  description = description;
  reference_id = "";
  balance_after = after;
  status = other "";
  created_at = fresh.created;
  updated_at = fresh.updated;
}

abbrev pub empty_balance : Fresh → Uuid → Balance
empty_balance fresh user = record {
  id = fresh.balance_id;
  user_id = user;
  amount = pos 0;
  currency = "TRY";
  created_at = fresh.balance_created;
  updated_at = fresh.balance_updated;
}

module _ {S : Type 0} (db : Database S) where
  -- `uuid.MustParse`
  abbrev must_parse : String → Action S Uuid
  must_parse text s = (elim (db.parse_uuid text) [ some u ↦ done u | none ↦ panics ], s)

  -- The balance that `Credit` works on: any error of the lookup makes it create one.
  abbrev balance_or_new : Fresh → String → Result RepoError Balance → Action S Balance
  balance_or_new fresh user (ok b) = pure b
  balance_or_new fresh user (err e) = do
    u ← must_parse user
    let b = empty_balance fresh u
    writes (create_balance db b)
    pure b

  abbrev found : String → Action S (Result RepoError Balance)
  found user s = (done (get_by_user_id db user s), s)

  unfoldable pub credit : Fresh → String → Amount → String → Action S Transaction
  credit fresh user amount description = do
    lookup ← found user
    b ← balance_or_new fresh user lookup
    u ← must_parse user
    let t = posting fresh u TransactionType.credit amount description (b.amount +ℤ amount)
    writes (create_transaction db t)
    writes (update_balance db (record b { amount = b.amount +ℤ amount }))
    pure t

  unfoldable pub debit : Fresh → String → Amount → String → Action S Transaction
  debit fresh user amount description = do
    b ← reads (get_by_user_id db user)
    fail_if (ltb_ℤ b.amount amount) insufficient
    u ← must_parse user
    let t = posting fresh u TransactionType.debit amount description (b.amount -ℤ amount)
    writes (create_transaction db t)
    writes (update_balance db (record b { amount = b.amount -ℤ amount }))
    pure t

  unfoldable pub transfer : Fresh → String → String → Amount → String → Action S Transaction
  transfer fresh from to amount description = do
    source ← reads (get_by_user_id db from)
    fail_if (ltb_ℤ source.amount amount) insufficient
    target ← reads (get_by_user_id db to)
    u ← must_parse from
    let t = posting fresh u TransactionType.transfer amount description (source.amount -ℤ amount)
    writes (create_transaction db t)
    writes (update_balance db (record source { amount = source.amount -ℤ amount }))
    writes (update_balance db (record target { amount = target.amount +ℤ amount }))
    pure t
