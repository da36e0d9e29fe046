-- ===== src/Sourcing/Balance/Laws.antt =====
-- The record of a balance: its events account for its amount.
use transaction_api.Prelude.{
  ◌≡◌, refl, ◌⊎◌, inl, inr, pos, ◌+ℤ◌, ◌-ℤ◌, ◌≤ℤ◌, leb_ℤ, ltb_ℤ, Bool-cases, false, arith, List, [],
  ◌∷◌, ◌++◌,
}
use transaction_api.Domain.Base.{Uuid, Amount}
use transaction_api.Sourcing.Events.{Event, Detail, updated_balance, BalanceUpdate}
use transaction_api.Sourcing.Balance.{EventSourcedBalance, Stamp, add, subtract}

-- A recorded change says by its operation how the new amount comes from the old.
abbrev Changes : BalanceUpdate → Type 0
Changes u =
    ((u.operation ≡ "credit") × (u.new_amount ≡ u.old_amount +ℤ u.change))
    ⊎ ((u.operation ≡ "debit") × (u.new_amount ≡ u.old_amount -ℤ u.change))

abbrev Links : Amount → Detail → Amount → Type 0
Links a (updated_balance u) b =
    (u.old_amount ≡ a) × (u.new_amount ≡ b) × (pos 1 ≤ℤ u.change) × Changes u
Links a _ b = ⊥

-- Events that lead from one amount to another, each from where the one before it ended.
pub data Chain (a : Amount) : List Event → Amount → Type 0 where
  start : Chain a [] a
  link :
      {es : List Event} {b c : Amount} (e : Event)
      → Chain a es b
      → Links b e.detail c
      → Chain a (es ++ e ∷ []) c

-- One call of a method on the balance.
pub data Change : Type 0 where
  adding subtracting : Stamp → Amount → Uuid → Change

pub make : Change → EventSourcedBalance → EventSourcedBalance
make (adding s x t) b = (add s x t b).1
make (subtracting s x t) b = (subtract s x t b).1

pub make_all : List Change → EventSourcedBalance → EventSourcedBalance
make_all [] b = b
make_all (c ∷ cs) b = make_all cs (make c b)

abbrev pub IsRecorded : Amount → EventSourcedBalance → Type 0
IsRecorded a b = Chain a b.root.uncommitted_events b.amount × (pos 0 ≤ℤ b.amount)

-- From 0 on, a positive amount keeps a balance from falling below 0, and so does a covered one.
add_nonneg :
    (a x : Amount) → pos 0 ≤ℤ a → leb_ℤ x (pos 0) ≡ false → (pos 1 ≤ℤ x) × (pos 0 ≤ℤ a +ℤ x)
unfolding ◌+ℤ◌
add_nonneg a x h p = ground arith

sub_nonneg :
    (a x : Amount) → leb_ℤ x (pos 0) ≡ false → ltb_ℤ a x ≡ false → (pos 1 ≤ℤ x) × (pos 0 ≤ℤ a -ℤ x)
unfolding ◌-ℤ◌
sub_nonneg a x p q = ground arith

add-IsRecorded :
    (a : Amount) (s : Stamp) (x : Amount) (t : Uuid) (b : EventSourcedBalance)
    → IsRecorded a b
    → IsRecorded a (add s x t b).1
unfolding add
add-IsRecorded a s x t b h = elim (Bool-cases (leb_ℤ x (pos 0))) [
  | inl bad ↦ rw bad h
  | inr good ↦
      let (p, q) = add_nonneg b.amount x h.1 good in
      rw good (link _ h.0 (refl, refl, p, inl (refl, refl)), q)
]

subtract-IsRecorded :
    (a : Amount) (s : Stamp) (x : Amount) (t : Uuid) (b : EventSourcedBalance)
    → IsRecorded a b
    → IsRecorded a (subtract s x t b).1
unfolding subtract
subtract-IsRecorded a s x t b h = elim (Bool-cases (leb_ℤ x (pos 0))) [
  | inl bad ↦ rw bad h
  | inr good ↦ rw good (elim (Bool-cases (ltb_ℤ b.amount x)) [
    | inl short ↦ rw short h
    | inr covered ↦
        let (p, q) = sub_nonneg b.amount x good covered in
        rw covered (link _ h.0 (refl, refl, p, inr (refl, refl)), q)
  ])
]

-- From a balance that is not negative and whose uncommitted events form a chain from an amount to
-- its own, any sequence of credits and debits leads to such a balance again: the events form a
-- chain from that first amount, each step a positive credit or debit, and the balance is not
-- negative.
pub make_all-IsRecorded :
    (a : Amount) (cs : List Change) (b : EventSourcedBalance)
    → IsRecorded a b
    → IsRecorded a (make_all cs b)
unfolding make_all make
make_all-IsRecorded a [] b h = h
make_all-IsRecorded a (adding s x t ∷ cs) b h =
    make_all-IsRecorded a cs (add s x t b).1 (add-IsRecorded a s x t b h)
make_all-IsRecorded a (subtracting s x t ∷ cs) b h =
    make_all-IsRecorded a cs (subtract s x t b).1 (subtract-IsRecorded a s x t b h)
