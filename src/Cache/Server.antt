-- ===== src/Cache/Server.antt =====
-- What the documentation of Redis says of the commands, as far as the cache relies on it.
use Prim.Native.String.{◌++◌}
use transaction_api.Prelude.{
  ◌≡◌, ◌≢◌, ◌∙◌, ◌⊎◌, inl, inr, ℤ, Option, none, some, String, List, Among, Bool, true,
}
use transaction_api.Cache.{Redis, found}

-- An entry stays as it is, or it has expired or was evicted.
abbrev pub Fades : {B : Type 0} → Option B → Option B → Type 0
Fades before after = (after ≡ none) ⊎ (after ≡ before)

pub Fades-trans : {B : Type 0} (a b c : Option B) → Fades a b → Fades b c → Fades a c
Fades-trans a b c h (inl e) = inl e
Fades-trans a b c (inl d) (inr e) = inl (e ∙ d)
Fades-trans a b c (inr d) (inr e) = inr (e ∙ d)

-- `find` gives the bytes that are stored under a key, and `matches` says which keys a pattern takes.
-- Any command may fail, and any entry may go at any time.
pub record IsRedis {S B : Type 0} (redis : Redis S B) (find : String → S → Option B)
    (matches : String → String → Bool) : Type 0 where
  pub got : (k : String) (d : B) (s : S) → (redis.get_key k s).0 ≡ found d → find k s ≡ some d
  pub get_fades : (k j : String) (s : S) → Fades (find j s) (find j (redis.get_key k s).1)
  pub set_others :
      (k : String) (d : B) (t : ℤ) (s : S) (j : String)
      → j ≢ k
      → Fades (find j s) (find j (redis.set_key k d t s).1)
  pub set_value :
      (k : String) (d : B) (t : ℤ) (s : S)
      → Fades (some d) (find k (redis.set_key k d t s).1)
        ⊎ Fades (find k s) (find k (redis.set_key k d t s).1)
  pub del_fades :
      (ks : List String) (s : S) (j : String) → Fades (find j s) (find j (redis.del ks s).1)
  pub del_gone :
      (ks : List String) (s : S) (j : String)
      → (redis.del ks s).0 ≡ none
      → Among j ks
      → find j (redis.del ks s).1 ≡ none
  pub scan_fades : (p : String) (s : S) (j : String) → Fades (find j s) (find j (redis.scan p s).1)
  pub scan_all :
      (p : String) (s : S) (j : String)
      → (redis.scan p s).0.1 ≡ none
      → find j (redis.scan p s).1 ≢ none
      → matches p j ≡ true
      → Among j (redis.scan p s).0.0

-- The patterns of Redis: a literal text, one with no character that is special in a pattern, and a
-- star take every key that begins with the text.
pub record IsGlob (matches : String → String → Bool) (literal : String → Type 0) : Type 0 where
  pub begins : (p rest : String) → literal p → matches (p ++ "*") (p ++ rest) ≡ true
