-- ===== src/Cache/Coherence.antt =====
-- Families of keys, and that a read through the cache keeps the entries of each right.
use Prim.Native.Char.{Char, code}
use Prim.Native.String.{◌++◌}
use text.Mathlib.Text.{◌==◌ as str_eq}
use text.Mathlib.TextEquality.{eq_iff}
use text.Mathlib.TextLemmas.{cons-append}
use transaction_api.Prelude.{
  ◌≡◌, sym, ap, ◌∙◌, ◌≢◌, inl, inr, ℕ, Bool, Option, Result, String, Bool-cases, arith,
}
use transaction_api.Domain.Base.{Uuid}
use transaction_api.Cache.{Redis, Codec}
use transaction_api.Cache.Keys.{Formats, user_key, transaction_key, balance_key}
use transaction_api.Cache.Server.{Fades, IsRedis}
use transaction_api.Cache.Reading.{ReadsBack, Stored, Stored-Fades, Leaves}

-- The code of a text's first character.
abbrev first : String → ℕ
first String.[] = 0
first (String.◌∷◌ c s) = code c

first-append : (c : Char) (l t : String) → first ((String.◌∷◌ c l) ++ t) ≡ code c
first-append c l t = ap first (cons-append c l t)

differ :
    (a b : Char) (l m s t : String)
    → code a ≢ code b
    → (String.◌∷◌ a l) ++ s ≢ (String.◌∷◌ b m) ++ t
differ a b l m s t ne = λ p. ne (sym (first-append a l s) ∙ ap first p ∙ first-append b m t)

-- Texts of identifiers are different for different identifiers.
abbrev pub Injective : Formats → Type 0
Injective f = (u v : Uuid) → f.uuid_text u ≡ f.uuid_text v → u ≡ v

pub users_balances : (f : Formats) (u v : Uuid) → user_key f u ≢ balance_key f v
users_balances f u v =
    differ "u" "b" "ser:" "alance:" (f.uuid_text u) (f.uuid_text v) (λ e. absurd (omega arith))

pub users_transactions : (f : Formats) (u v : Uuid) → user_key f u ≢ transaction_key f v
users_transactions f u v =
    differ "u" "t" "ser:" "ransaction:" (f.uuid_text u) (f.uuid_text v) (λ e. absurd (omega arith))

pub balances_transactions : (f : Formats) (u v : Uuid) → balance_key f u ≢ transaction_key f v
balances_transactions f u v =
    differ "b" "t" "alance:" "ransaction:" (f.uuid_text u) (f.uuid_text v)
      (λ e. absurd (omega arith))

-- The entries of a family of keys are right.
abbrev pub Coherent :
    {S A B : Type 0}
    → (String → S → Option B)
    → Codec A B
    → (A → A)
    → (Uuid → String)
    → (Uuid → Result String A)
    → S
    → Type 0
Coherent find codec view key fetch s = (u : Uuid) → Stored codec view (fetch u) (find (key u) s)

module _ {S A B : Type 0} (find : String → S → Option B) (codec : Codec A B) (view : A → A)
    (key : Uuid → String) (fetch : Uuid → Result String A) where
  pub Coherent-others :
      (s s' : S)
      → ((u : Uuid) → Fades (find (key u) s) (find (key u) s'))
      → Coherent find codec view key fetch s
      → Coherent find codec view key fetch s'
  Coherent-others s s' f h u = Stored-Fades codec view (fetch u) _ _ (f u) (h u)

module _ {S B : Type 0} (redis : Redis S B) (find : String → S → Option B)
    (matches : String → String → Bool) (laws : IsRedis redis find matches) where
  pub Coherent-read :
      {A : Type 0} (codec : Codec A B) (view : A → A) (back : ReadsBack codec view)
      (key : Uuid → String) (fetch : Uuid → Result String A) (u : Uuid) (s s' : S)
      → ((v w : Uuid) → key v ≡ key w → v ≡ w)
      → Leaves redis find matches laws codec view back (fetch u) (key u) s s'
      → Coherent find codec view key fetch s
      → Coherent find codec view key fetch s'
  Coherent-read codec view back key fetch u s s' inj (keeps, others) h v =
      elim (Bool-cases (str_eq (key v) (key u))) [
        | inl e ↦ let same = inj v u ((eq_iff (key v) (key u)).0 e) in rw same (keeps (h u))
        | inr e ↦
            Stored-Fades codec view (fetch v) (find (key v) s) (find (key v) s')
              (others (key v) (λ p. let q = (eq_iff (key v) (key u)).1 p in cc)) (h v)
      ]
