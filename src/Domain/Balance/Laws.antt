-- ===== src/Domain/Balance/Laws.antt =====
-- A balance under any sequence of its methods.
use transaction_api.Prelude.{
  ◌≡◌, ◌↔◌, pos, ◌+ℤ◌, ◌-ℤ◌, ◌≤ℤ◌, int_laws, Option, none, some, List, [], ◌∷◌, arith,
}
use transaction_api.Domain.Base.{Amount, Time, DomainError}
use transaction_api.Domain.Balance.{Balance, add, subtract}

-- One call of a method, with its reading of the clock.
pub data Posting : Type 0 where
  adding subtracting : Time → Amount → Posting

pub post : Posting → Balance → Option DomainError × Balance
post (adding t a) b = add t a b
post (subtracting t a) b = subtract t a b

-- What a posting that was accepted adds to the balance.
abbrev posted : Posting → Option DomainError → Amount
posted (adding t a) none = a
posted (subtracting t a) none = pos 0 -ℤ a
posted _ (some e) = pos 0

-- A sequence of calls: the balance after it, and the sum of what was accepted.
pub post_all : List Posting → Balance → Amount × Balance
post_all [] b = (pos 0, b)
post_all (p ∷ ps) b =
    let (e, b') = post p b in let (net, b'') = post_all ps b' in (posted p e +ℤ net, b'')

post_lem :
    (p : Posting) (b : Balance)
    → pos 0 ≤ℤ b.amount
    → (pos 0 ≤ℤ (post p b).1.amount) × ((post p b).1.amount ≡ b.amount +ℤ posted p (post p b).0)
unfolding post add subtract
post_lem (adding t a) b h = grind int_laws
post_lem (subtracting t a) b h = grind int_laws

-- After any sequence of calls of `Add` and `Subtract` on a balance that is not negative, it is not
-- negative, and it has moved by exactly the sum of the amounts that were accepted.
pub post_all_sum :
    (ps : List Posting) (b : Balance)
    → pos 0 ≤ℤ b.amount
    → (pos 0 ≤ℤ (post_all ps b).1.amount)
      × ((post_all ps b).1.amount ≡ b.amount +ℤ (post_all ps b).0)
unfolding post_all
post_all_sum [] b h = (h, omega int_laws)
post_all_sum (p ∷ ps) b h =
    let (n, m) = post_lem p b h in
    let (n', m') = post_all_sum ps (post p b).1 n in (n', rw (m', m) (omega int_laws))

-- A positive amount that is covered can be taken out and put back: both calls succeed, and the
-- amount is what it was.
pub add-subtract :
    (t u : Time) (a : Amount) (b : Balance)
    → pos 1 ≤ℤ a
    → a ≤ℤ b.amount
    → let (e, b') = subtract t a b in
      let (e', b'') = add u a b' in (e ≡ none) × (e' ≡ none) × (b''.amount ≡ b.amount)
unfolding add subtract
add-subtract t u a b p c = grind int_laws

-- `Subtract` succeeds exactly on a positive amount that the balance covers.
pub subtract_accepts :
    (t : Time) (a : Amount) (b : Balance)
    → ((subtract t a b).0 ≡ none) ↔ ((pos 1 ≤ℤ a) × (a ≤ℤ b.amount))
unfolding subtract
subtract_accepts t a b = ground arith
