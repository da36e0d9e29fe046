-- ===== src/Cache/Requests.antt =====
-- A run of reads through the cache, of users, transactions and balances in any order.
use text.Mathlib.TextLemmas.{append_cancel_left}
use transaction_api.Prelude.{
  ◌≡◌, sym, ◌∙◌, pos, Bool, Option, Result, String, List, [], ◌∷◌, inl, inr,
}
use transaction_api.Domain.Base.{Uuid}
use transaction_api.Domain.User.{User}
use transaction_api.Domain.Balance.{Balance}
use transaction_api.Domain.Transaction.{Transaction}
use transaction_api.Cache.{Redis, Codec}
use transaction_api.Cache.Keys.{Formats, user_key, transaction_key, balance_key}
use transaction_api.Cache.Server.{IsRedis}
use transaction_api.Cache.Service.{
  Repositories, read_through, get_user, get_transaction, get_balance,
}
use transaction_api.Cache.Reading.{ReadsBack, Answers, read_through-right}
use transaction_api.Cache.Coherence.{
  Injective, Coherent, Coherent-others, Coherent-read, users_balances, users_transactions,
  balances_transactions,
}

pub data Request : Type 0 where
  ask_user ask_transaction ask_balance : Uuid → Request

pub data Reply : Type 0 where
  user_reply : Result String User → Reply
  transaction_reply : Result String Transaction → Reply
  balance_reply : Result String Balance → Reply

abbrev pub same : {A : Type 0} → A → A
same x = x

-- JSON leaves the password of a user out.
abbrev pub without_password : User → User
without_password u = record u { password = "" }

module _ {S B D : Type 0} (redis : Redis S B) (f : Formats) (repos : Repositories D)
    (users : Codec User B) (transactions : Codec Transaction B) (balances : Codec Balance B) where
  abbrev pub ask : D → Request → S → Reply × S
  ask d (ask_user u) s = let (r, s') = get_user redis f repos users u d s in (user_reply r, s')
  ask d (ask_transaction t) s =
      let (r, s') = get_transaction redis f repos transactions t d s in (transaction_reply r, s')
  ask d (ask_balance u) s =
      let (r, s') = get_balance redis f repos balances u d s in (balance_reply r, s')

  pub ask_all : D → List Request → S → List Reply
  ask_all d [] s = []
  ask_all d (q ∷ qs) s = let (r, s') = ask d q s in r ∷ ask_all d qs s'

  -- The reply is the repository's; a user may come without the password.
  abbrev pub IsRight : D → Request → Reply → Type 0
  IsRight d (ask_user u) (user_reply r) =
      Answers users without_password (repos.user_by_id (f.uuid_id u) d) r
  IsRight d (ask_transaction t) (transaction_reply r) = r ≡ repos.transaction_by_id (f.uuid_id t) d
  IsRight d (ask_balance u) (balance_reply r) = r ≡ repos.balance_by_user_id (f.uuid_id u) d
  IsRight d _ _ = ⊥

  abbrev pub AreRight : D → List Request → List Reply → Type 0
  AreRight d [] [] = Unit
  AreRight d (q ∷ qs) (r ∷ rs) = IsRight d q r × AreRight d qs rs
  AreRight d _ _ = ⊥

  abbrev pub IsCoherent : (String → S → Option B) → D → S → Type 0
  IsCoherent find d s =
      Coherent find users without_password (user_key f) (λ u. repos.user_by_id (f.uuid_id u) d) s
      × Coherent find transactions same (transaction_key f)
          (λ t. repos.transaction_by_id (f.uuid_id t) d) s
      × Coherent find balances same (balance_key f) (λ u. repos.balance_by_user_id (f.uuid_id u) d)
          s

  module _ (find : String → S → Option B) (matches : String → String → Bool)
      (laws : IsRedis redis find matches) (inj : Injective f)
      (user_back : ReadsBack users without_password)
      (transaction_back : ReadsBack transactions same) (balance_back : ReadsBack balances same)
      (d : D) where
    Answers-same :
        {A : Type 0} (codec : Codec A B) (fetched r : Result String A)
        → Answers codec same fetched r
        → r ≡ fetched
    Answers-same codec fetched r (inl e) = e
    Answers-same codec fetched r (inr (v, e, q)) = q ∙ sym e

    ask_user-IsRight :
        (u : Uuid) (s : S)
        → IsCoherent find d s
        → IsRight d (ask_user u) (ask d (ask_user u) s).0
          × IsCoherent find d (ask d (ask_user u) s).1
    unfolding get_user
    ask_user-IsRight u s (hu, ht, hb) =
        let t = pos 1800000000000 in
        let s' =
          (read_through redis users (user_key f u) t (repos.user_by_id (f.uuid_id u) d) s).1 in
        let (a, l) =
          read_through-right redis find matches laws users without_password user_back
            (repos.user_by_id (f.uuid_id u) d) (user_key f u) t s (hu u) in
        (
          a,
          (
            Coherent-read redis find matches laws users without_password user_back (user_key f)
                (λ v. repos.user_by_id (f.uuid_id v) d) u s s'
                (λ v w p. inj v w (append_cancel_left "user:" (f.uuid_text v) (f.uuid_text w) p)) l
                hu,
            Coherent-others find transactions same (transaction_key f)
                (λ v. repos.transaction_by_id (f.uuid_id v) d) s s'
                (λ v. l.1 (transaction_key f v) (λ p. users_transactions f u v (sym p))) ht,
            Coherent-others find balances same (balance_key f)
                (λ v. repos.balance_by_user_id (f.uuid_id v) d) s s'
                (λ v. l.1 (balance_key f v) (λ p. users_balances f u v (sym p))) hb,
          ),
        )

    ask_transaction-IsRight :
        (t : Uuid) (s : S)
        → IsCoherent find d s
        → IsRight d (ask_transaction t) (ask d (ask_transaction t) s).0
          × IsCoherent find d (ask d (ask_transaction t) s).1
    unfolding get_transaction
    ask_transaction-IsRight t s (hu, ht, hb) =
        let time = pos 1800000000000 in
        let s' =
          (read_through redis transactions (transaction_key f t) time
            (repos.transaction_by_id (f.uuid_id t) d) s).1 in
        let (a, l) =
          read_through-right redis find matches laws transactions same transaction_back
            (repos.transaction_by_id (f.uuid_id t) d) (transaction_key f t) time s (ht t) in
        (
          Answers-same transactions _ _ a,
          (
            Coherent-others find users without_password (user_key f)
                (λ v. repos.user_by_id (f.uuid_id v) d) s s'
                (λ v. l.1 (user_key f v) (users_transactions f v t)) hu,
            Coherent-read redis find matches laws transactions same transaction_back
                (transaction_key f) (λ v. repos.transaction_by_id (f.uuid_id v) d) t s s'
                (λ v w p.
                  inj v w (append_cancel_left "transaction:" (f.uuid_text v) (f.uuid_text w) p))
                l ht,
            Coherent-others find balances same (balance_key f)
                (λ v. repos.balance_by_user_id (f.uuid_id v) d) s s'
                (λ v. l.1 (balance_key f v) (balances_transactions f v t)) hb,
          ),
        )

    ask_balance-IsRight :
        (u : Uuid) (s : S)
        → IsCoherent find d s
        → IsRight d (ask_balance u) (ask d (ask_balance u) s).0
          × IsCoherent find d (ask d (ask_balance u) s).1
    unfolding get_balance
    ask_balance-IsRight u s (hu, ht, hb) =
        let time = pos 900000000000 in
        let s' =
          (read_through redis balances (balance_key f u) time
            (repos.balance_by_user_id (f.uuid_id u) d) s).1 in
        let (a, l) =
          read_through-right redis find matches laws balances same balance_back
            (repos.balance_by_user_id (f.uuid_id u) d) (balance_key f u) time s (hb u) in
        (
          Answers-same balances _ _ a,
          (
            Coherent-others find users without_password (user_key f)
                (λ v. repos.user_by_id (f.uuid_id v) d) s s'
                (λ v. l.1 (user_key f v) (users_balances f v u)) hu,
            Coherent-others find transactions same (transaction_key f)
                (λ v. repos.transaction_by_id (f.uuid_id v) d) s s'
                (λ v. l.1 (transaction_key f v) (λ p. balances_transactions f u v (sym p))) ht,
            Coherent-read redis find matches laws balances same balance_back (balance_key f)
                (λ v. repos.balance_by_user_id (f.uuid_id v) d) u s s'
                (λ v w p. inj v w (append_cancel_left "balance:" (f.uuid_text v) (f.uuid_text w) p))
                l hb,
          ),
        )

    ask-IsRight :
        (q : Request) (s : S)
        → IsCoherent find d s
        → IsRight d q (ask d q s).0 × IsCoherent find d (ask d q s).1
    ask-IsRight (ask_user u) s h = ask_user-IsRight u s h
    ask-IsRight (ask_transaction u) s h = ask_transaction-IsRight u s h
    ask-IsRight (ask_balance u) s h = ask_balance-IsRight u s h

    -- Reading through the cache is reading the repositories: from a cache whose entries are right,
    -- as an empty one is, any run of reads of users, transactions and balances answers as the
    -- repositories do while their rows stay, but that a user may come without the password. The
    -- server may fail at any command and drop any entry at any time.
    pub ask_all-AreRight :
        (qs : List Request) (s : S) → IsCoherent find d s → AreRight d qs (ask_all d qs s)
    unfolding ask_all
    ask_all-AreRight [] s h = tt
    ask_all-AreRight (q ∷ qs) s h =
        let (r, h') = ask-IsRight q s h in (r, ask_all-AreRight qs (ask d q s).1 h')
