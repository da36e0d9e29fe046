-- ===== src/Tests/Server.antt =====
-- A server of the cache in memory, in place of Redis: an association list.
use Prim.Native.String.{◌++◌ as str_append, len, slice}
use text.Mathlib.Text.{◌==◌ as str_eq, starts_with}
use text.Mathlib.TextEquality.{eq_iff}
use text.Mathlib.TextLemmas.{tail-eq_of_cons-eq, nil≢cons, cons≢nil}
use text.Mathlib.TextPositions.{eq_refl, len-append, slice-append_left, starts_with-append}
use transaction_api.Prelude.{
  ℕ, zero, suc, ◌+◌, ◌-◌, ◌≡◌, refl, sym, ap, ◌∙◌, ◌≢◌, inl, inr, pos, Bool, true, false, ◌||◌,
  Option, none, some, Result, ok, err, String, List, [], ◌∷◌, Among, Bool-cases, arith,
  if◌then◌else◌,
}
use transaction_api.Domain.User.{User}
use transaction_api.Domain.Balance.{Balance}
use transaction_api.Domain.Transaction.{Transaction}
use transaction_api.Cache.{Redis, Codec, Found, found, nil}
use transaction_api.Cache.Keys.{Formats}
use transaction_api.Cache.Server.{Fades, IsRedis, IsGlob}
use transaction_api.Cache.Coherence.{Injective}
use transaction_api.Cache.Reading.{ReadsBack}
use transaction_api.Cache.Requests.{without_password, same}

pub data Bytes : Type 0 where
  user_bytes : User → Bytes
  transaction_bytes : Transaction → Bytes
  balance_bytes : Balance → Bytes

abbrev pub Entries : Type 0
Entries = List (String × Bytes)

abbrev pub lookup : String → Entries → Option Bytes
lookup j [] = none
lookup j ((k, b) ∷ s) = if str_eq k j then some b else lookup j s

abbrev found_of : Option Bytes → Found Bytes
found_of none = nil
found_of (some b) = found b

abbrev listed : String → List String → Bool
listed j [] = false
listed j (k ∷ ks) = str_eq j k || listed j ks

abbrev without : List String → Entries → Entries
without ks [] = []
without ks ((k, b) ∷ s) = let rest = without ks s in if listed k ks then rest else (k, b) ∷ rest

-- A pattern is a text and a star.
abbrev pub begins_with : String → String → Bool
begins_with p k = starts_with k (slice p 0 (len p - 1))

abbrev keys_of : String → Entries → List String
keys_of p [] = []
keys_of p ((k, b) ∷ s) = let rest = keys_of p s in if begins_with p k then k ∷ rest else rest

abbrev pub in_memory : Redis Entries Bytes
in_memory = record {
  ping = λ s. (none, s);
  set_key = λ k b t s. (none, (k, b) ∷ s);
  get_key = λ k s. (found_of (lookup k s), s);
  del = λ ks s. (none, without ks s);
  scan = λ p s. ((keys_of p s, none), s);
  exists_key = λ k s. (ok (pos 0), s);
  set_key_nx = λ k b t s. (ok false, s);
  incr_by = λ k n s. (ok n, s);
  ttl = λ k s. (ok (pos 0), s);
  flush = λ s. (none, []);
  info = λ s. (ok "", s);
  db_size = λ s. (ok (pos 0), s);
}

found_of-some : (o : Option Bytes) (b : Bytes) → found_of o ≡ found b → o ≡ some b
found_of-some none b e = cc
found_of-some (some x) b e = cc

unlike : (s t : String) → s ≢ t → str_eq s t ≡ false
unlike s t h = elim (Bool-cases (str_eq s t)) [ inl e ↦ absurd (h ((eq_iff s t).0 e)) | inr e ↦ e ]

listed-Among : (j : String) (ks : List String) → Among j ks → listed j ks ≡ true
listed-Among j [] m = absurd m
listed-Among j (k ∷ ks) (inl e) = rw (e, eq_refl k) refl
listed-Among j (k ∷ ks) (inr m) = elim (Bool-cases (str_eq j k)) [
  | inl e ↦ rw e refl
  | inr e ↦ rw (e, listed-Among j ks m) refl
]

lookup-without-listed :
    (j : String) (ks : List String) (s : Entries)
    → listed j ks ≡ true
    → lookup j (without ks s) ≡ none
lookup-without-listed j ks [] h = refl
lookup-without-listed j ks ((k, b) ∷ s) h =
    grind (arith, eq_iff k j, lookup-without-listed j ks s h)

lookup-without_unlisted :
    (j : String) (ks : List String) (s : Entries)
    → listed j ks ≡ false
    → lookup j (without ks s) ≡ lookup j s
lookup-without_unlisted j ks [] h = refl
lookup-without_unlisted j ks ((k, b) ∷ s) h =
    grind (arith, eq_iff k j, lookup-without_unlisted j ks s h)

keys_of-Among :
    (p : String) (s : Entries) (j : String)
    → lookup j s ≢ none
    → begins_with p j ≡ true
    → Among j (keys_of p s)
keys_of-Among p [] j h m = absurd (h refl)
keys_of-Among p ((k, b) ∷ s) j h m = elim (Bool-cases (str_eq k j)) [
  | inl e ↦
      let same_key : k ≡ j = (eq_iff k j).0 e in
      let taken : begins_with p k ≡ true = ap (begins_with p) same_key ∙ m in
      rw taken (inl (sym same_key))
  | inr e ↦
      let later = keys_of-Among p s j (λ z. h (rw e z)) m in
      elim (Bool-cases (begins_with p k)) [ inl f ↦ rw f (inr later) | inr f ↦ rw f later ]
]

without-Fades :
    (j : String) (ks : List String) (s : Entries) → Fades (lookup j s) (lookup j (without ks s))
without-Fades j ks s = elim (Bool-cases (listed j ks)) [
  | inl e ↦ inl (lookup-without-listed j ks s e)
  | inr e ↦ inr (lookup-without_unlisted j ks s e)
]

pub in_memory-IsRedis : IsRedis in_memory lookup begins_with
in_memory-IsRedis = record {
  got = λ k d s e. found_of-some (lookup k s) d e;
  get_fades = λ k j s. inr refl;
  set_others = λ k d t s j ne. let e = unlike k j (λ p. ne (sym p)) in rw e (inr refl);
  set_value = λ k d t s. let e = eq_refl k in rw e (inl (inr refl));
  del_fades = λ ks s j. without-Fades j ks s;
  del_gone = λ ks s j e m. lookup-without-listed j ks s (listed-Among j ks m);
  scan_fades = λ p s j. inr refl;
  scan_all = λ p s j e h m. keys_of-Among p s j h m;
}

abbrev pub AnyText : String → Type 0
AnyText p = Unit

begins_with-append : (p rest : String) → begins_with (str_append p "*") (str_append p rest) ≡ true
begins_with-append p rest =
    let one : len (str_append p "*") ≡ len p + 1 = len-append p "*" in
    let e : len (str_append p "*") - 1 ≡ len p = omega (arith, one) in
    rw (e, slice-append_left p "*") (starts_with-append p rest)

pub begins_with-IsGlob : IsGlob begins_with AnyText
begins_with-IsGlob = record { begins = λ p rest h. begins_with-append p rest }

-- The text of a number: as many letters.
abbrev letters : ℕ → String
letters zero = ""
letters (suc n) = String.◌∷◌ "a" (letters n)

abbrev pub formats : Formats
formats = record { uuid_text = letters; uuid_id = λ u. u; int_text = λ n. "0" }

letters_inj : (m n : ℕ) → letters m ≡ letters n → m ≡ n
letters_inj zero zero p = refl
letters_inj zero (suc n) p = absurd (nil≢cons p)
letters_inj (suc m) zero p = absurd (cons≢nil p)
letters_inj (suc m) (suc n) p = ap suc (letters_inj m n (tail-eq_of_cons-eq p))

pub formats-Injective : Injective formats
formats-Injective = letters_inj

abbrev read_user : Bytes → Result String User
read_user (user_bytes u) = ok (without_password u)
read_user _ = err "not a user"

abbrev read_transaction : Bytes → Result String Transaction
read_transaction (transaction_bytes t) = ok t
read_transaction _ = err "not a transaction"

abbrev read_balance : Bytes → Result String Balance
read_balance (balance_bytes b) = ok b
read_balance _ = err "not a balance"

abbrev pub user_codec : Codec User Bytes
user_codec = record { marshal = λ u. ok (user_bytes u); unmarshal = read_user }

abbrev pub transaction_codec : Codec Transaction Bytes
transaction_codec = record { marshal = λ t. ok (transaction_bytes t); unmarshal = read_transaction }

abbrev pub balance_codec : Codec Balance Bytes
balance_codec = record { marshal = λ b. ok (balance_bytes b); unmarshal = read_balance }

pub user_codec-ReadsBack : ReadsBack user_codec without_password
user_codec-ReadsBack = record { reads_back = λ v d e. cc }

pub transaction_codec-ReadsBack : ReadsBack transaction_codec same
transaction_codec-ReadsBack = record { reads_back = λ v d e. cc }

pub balance_codec-ReadsBack : ReadsBack balance_codec same
balance_codec-ReadsBack = record { reads_back = λ v d e. cc }
