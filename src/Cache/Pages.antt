-- ===== src/Cache/Pages.antt =====
-- The pages of a user's transactions: which one is read, and when the slice panics.
use transaction_api.Prelude.{
  ℕ, zero, suc, ◌+◌, ◌-◌, ◌≤◌, ◌<◌, ◌≡◌, refl, sym, ap, ◌∙◌, ◌↔◌, ◌⊎◌, inl, inr, ℤ, pos, negsuc,
  ◌+ℤ◌, ◌-ℤ◌, pos_part, neg_part, none, some, ok, err, List, [], ◌∷◌, length, take, drop, arith,
  leb, true, ◌&&◌,
}
use native.Mathlib.Decide.{dec_le}
use transaction_api.Domain.Base.{Uuid}
use transaction_api.Domain.Transaction.{Transaction}
use transaction_api.Cache.{Redis, Codec, CacheError, get}
use transaction_api.Cache.Keys.{Formats, user_transactions_key}
use transaction_api.Cache.Service.{
  Repositories, paginate, wrap, at_most, get_user_transactions, page_from,
}

module _ {A : Type 0} where
  drop_past : (n : ℕ) (xs : List A) → length xs ≤ n → drop n xs ≡ []
  drop_past zero [] h = refl
  drop_past zero (x ∷ xs) h = absurd (omega arith)
  drop_past (suc n) [] h = refl
  drop_past (suc n) (x ∷ xs) h = drop_past n xs (omega arith)

  take_past : (n : ℕ) (xs : List A) → length xs ≤ n → take n xs ≡ xs
  take_past zero [] h = refl
  take_past zero (x ∷ xs) h = absurd (omega arith)
  take_past (suc n) [] h = refl
  take_past (suc n) (x ∷ xs) h = ap (λ l. x ∷ l) (take_past n xs (omega arith))

abbrev pub max_int : ℕ
max_int = 9223372036854775807

wrap_small : (l o : ℕ) → o + l ≤ max_int → wrap (pos o +ℤ pos l) ≡ pos (o + l)
unfolding ◌+ℤ◌
wrap_small l o h = ground arith

module _ {A : Type 0} where
  -- The slice panics for a 64-bit limit and offset exactly where the offset is negative, or their
  -- sum overflows, or the limit is negative and the sum lies before the end of the list.
  pub paginate-none_iff :
      (limit offset : ℤ) (xs : List A)
      → length xs ≤ max_int
      → (neg_part limit ≤ suc max_int) × (pos_part limit ≤ max_int)
      → (neg_part offset ≤ suc max_int) × (pos_part offset ≤ max_int)
      → (paginate limit offset xs ≡ none) ↔ (
          (1 ≤ neg_part offset)
          ⊎ (max_int < pos_part offset + pos_part limit)
          ⊎ (1 ≤ neg_part limit) × (pos_part offset < length xs + neg_part limit))
  unfolding paginate ◌+ℤ◌ ◌-ℤ◌
  paginate-none_iff (pos l) (pos o) xs n hl ho = ground arith
  paginate-none_iff (negsuc l) (pos o) xs n hl ho = ground arith
  paginate-none_iff limit (negsuc o) xs n hl ho = ground arith

  take_nil : (n : ℕ) → take {A = A} n [] ≡ []
  take_nil zero = refl
  take_nil (suc n) = refl

  length_after : (n : ℕ) (xs : List A) → length (drop n xs) + n ≡ length xs ⊎ (length xs < n)
  length_after zero xs = inl (omega arith)
  length_after (suc n) [] = inr (omega arith)
  length_after (suc n) (x ∷ xs) = elim (length_after n xs) [
    | inl e ↦ inl (omega arith)
    | inr lt ↦ inr (omega arith)
  ]

  -- The middle of the slice, where the page starts within the list.
  take_within :
      (l o : ℕ) (xs : List A)
      → o ≤ length xs
      → length xs < o + l
      → take (length xs - o) (drop o xs) ≡ take l (drop o xs)
  take_within l o xs h k =
      let e : length (drop o xs) + o ≡ length xs = elim (length_after o xs) [
        | inl e ↦ e
        | inr lt ↦ absurd (omega arith)
      ] in
      take_past (length xs - o) (drop o xs) (omega arith)
      ∙ sym (take_past l (drop o xs) (omega arith))

  paginate_page :
      (l o : ℕ) (xs : List A)
      → o + l ≤ max_int
      → paginate (pos l) (pos o) xs ≡ some (take l (drop o xs))
  unfolding paginate
  paginate_page l o xs h = elim (dec_le o (length xs)) [
    | yes le ↦ elim (dec_le (o + l) (length xs)) [
      | yes le' ↦
          let e : (o + l) - o ≡ l = omega arith in
          let e1 : at_most (pos (length xs)) (pos (o + l)) ≡ pos (o + l) = ground arith in
          let e2 : at_most (pos (length xs)) (pos o) ≡ pos o = ground arith in
          let e3 : (leb o (o + l) && leb (o + l) (length xs)) ≡ true = ground arith in
          rw (wrap_small l o h, e1, e2, e3, e) refl
      | no gt ↦
          let e1 : at_most (pos (length xs)) (pos (o + l)) ≡ pos (length xs) = ground arith in
          let e2 : at_most (pos (length xs)) (pos o) ≡ pos o = ground arith in
          let e3 : (leb o (length xs) && leb (length xs) (length xs)) ≡ true = ground arith in
          rw (wrap_small l o h, e1, e2, e3, take_within l o xs le (omega arith)) refl
    ]
    | no gt ↦
        let e1 : at_most (pos (length xs)) (pos (o + l)) ≡ pos (length xs) = ground arith in
        let e2 : at_most (pos (length xs)) (pos o) ≡ pos (length xs) = ground arith in
        let e3 : (leb (length xs) (length xs) && leb (length xs) (length xs)) ≡ true =
          ground arith in
        let e4 : length xs - length xs ≡ 0 = omega arith in
        rw (wrap_small l o h, e1, e2, e3, e4, drop_past o xs (omega arith))
          (ap some (sym (take_nil l)))
  ]

-- Where the cache gives no page and the sum of the limit and the offset fits an `int`, the call
-- returns as many transactions of the repository as the limit says, from the offset on, or those
-- that there are: it does not panic, and the page is what the repository has.
pub get_user_transactions-page :
    {S B D : Type 0} (redis : Redis S B) (f : Formats) (repos : Repositories D)
    (codec : Codec (List Transaction) B) (u : Uuid) (limit offset : ℕ) (d : D) (s : S)
    (e : CacheError) (all : List Transaction)
    → (get redis codec (user_transactions_key f u (pos limit) (pos offset)) s).0 ≡ err e
    → repos.transactions_by_user_id (f.uuid_id u) d ≡ ok all
    → offset + limit ≤ max_int
    → (get_user_transactions redis f repos codec u (pos limit) (pos offset) d s).0
      ≡ some (ok (take limit (drop offset all)))
unfolding get_user_transactions page_from
get_user_transactions-page redis f repos codec u limit offset d s e all miss fetched fits =
    rw (miss, fetched, paginate_page limit offset all fits) refl
