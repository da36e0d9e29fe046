-- ===== src/Tests/Tables.antt =====
-- A table of events in memory, which the tests of the event store run on: the rows of each
-- aggregate, in the order of their insertion; a row with no data is refused.
use transaction_api.Prelude.{
  ℕ, ◌≡◌, ◌==◌, if◌then◌else◌, Option, String, some, none, ok, List, [], ◌∷◌, ◌++◌, arith,
}
use Prim.Native.Nat.{max}
use transaction_api.Domain.Base.{Uuid}
use transaction_api.Sourcing.Store.{EventStoreModel, EventTable, IsEventTable, RequiresData}

abbrev pub Rows : Type 0
Rows = Uuid → List EventStoreModel

abbrev pub max_of : List EventStoreModel → ℕ
max_of [] = 0
max_of (m ∷ ms) = max m.version (max_of ms)

max_of-append :
    (ms : List EventStoreModel) (m : EventStoreModel)
    → max_of (ms ++ m ∷ []) ≡ max (max_of ms) m.version
max_of-append [] m = omega arith
max_of-append (x ∷ ms) m = omega (arith, max_of-append ms m)

abbrev inserted : EventStoreModel → Option String → Rows → Option String × Rows
inserted m none s = (some "the data is null", s)
inserted m (some _) s = (none, λ id. if id == m.aggregate_id then s id ++ m ∷ [] else s id)

abbrev pub table : EventTable Rows
table = record {
  max_version = λ id s. ok (max_of (s id));
  insert = λ m s. inserted m m.payload s;
  find = λ id s. ok (s id);
}

pub table-IsEventTable : IsEventTable table
table-IsEventTable = record {
  insert_version = λ m s v done h. ground (arith, max_of-append (s m.aggregate_id) m);
  insert_find = λ m s v ms done h lt e. ground arith;
}

pub table-RequiresData : RequiresData table
table-RequiresData m s null = ground arith

abbrev pub no_rows : Rows
no_rows _ = []
