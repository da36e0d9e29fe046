-- ===== src/Domain/Transaction/Laws.antt =====
-- The states of a transaction under any sequence of updates.
use transaction_api.Prelude.{◌≡◌, refl, ◌⊎◌, ◌↔◌, none, arith, List, [], ◌∷◌, true}
use transaction_api.Domain.Base.{Time, Status, pending, completed, failed, cancelled}
use transaction_api.Domain.Transaction.{Transaction, update_state, is_final}

-- The requested updates in turn; what is refused is skipped, as the callers ignore the error.
pub update_all : List (Time × Status) → Transaction → Transaction
update_all [] t = t
update_all ((now, to) ∷ us) t = update_all us (update_state now to t).1

abbrev pub IsSettled : Transaction → Type 0
IsSettled t = (t.status ≡ completed) ⊎ (t.status ≡ failed)

-- A completed or failed transaction refuses every sequence of updates and stays as it is.
pub update_all-IsSettled :
    (us : List (Time × Status)) (t : Transaction) → IsSettled t → update_all us t ≡ t
unfolding update_all update_state
update_all-IsSettled [] t h = refl
update_all-IsSettled ((now, to) ∷ us) t h = ground (arith, update_all-IsSettled us t h)

-- From "pending" an update is accepted exactly when it asks for "completed", "failed" or
-- "cancelled".
pub update_state_pending :
    (now : Time) (to : Status) (t : Transaction)
    → t.status ≡ pending
    → ((update_state now to t).0 ≡ none) ↔ ((to ≡ completed) ⊎ (to ≡ failed) ⊎ (to ≡ cancelled))
unfolding update_state
update_state_pending now to t h = ground arith

-- A cancelled transaction is not final: it can be made pending again, and then be settled in any of
-- the three states that may follow.
pub update_all-cancelled :
    (now later : Time) (to : Status) (t : Transaction)
    → t.status ≡ cancelled
    → is_final to ≡ true
    → (update_all ((now, pending) ∷ (later, to) ∷ []) t).status ≡ to
unfolding update_all update_state
update_all-cancelled now later to t h f = ground arith
