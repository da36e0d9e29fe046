-- ===== src/Cache/Invalidation/Laws.antt =====
-- What the invalidation removes, and that a batch does what single invalidations do.
use Prim.Native.String.{◌++◌ as str_append}
use text.Mathlib.TextLemmas.{append-nil, append_assoc}
use transaction_api.Prelude.{
  ◌≡◌, refl, sym, ap, ◌∙◌, inl, inr, ℤ, Bool, true, Option, none, String, List, [], ◌∷◌, Among,
  Option-cases,
}
use transaction_api.Domain.Base.{Uuid}
use transaction_api.Cache.{Redis, delete_pattern, delete_found}
use transaction_api.Cache.Keys.{
  Formats, user_key, user_transactions_key, balance_key, user_pattern, user_transactions_pattern,
  balance_pattern,
}
use transaction_api.Cache.Server.{Fades, Fades-trans, IsRedis, IsGlob}
use transaction_api.Cache.Invalidation.{delete_patterns, invalidate_pattern, invalidate_user}

module _ (matches : String → String → Bool) (literal : String → Type 0)
    (glob : IsGlob matches literal) where
  takes_whole : (p : String) → literal p → matches (str_append p "*") p ≡ true
  takes_whole p h = ap (matches (str_append p "*")) (sym (append-nil p)) ∙ glob.begins p "" h

  takes_more :
      (p q rest : String)
      → literal (str_append p q)
      → matches (str_append (str_append p q) "*") (str_append p (str_append q rest)) ≡ true
  takes_more p q rest h =
      ap (matches (str_append (str_append p q) "*")) (sym (append_assoc p q rest))
      ∙ glob.begins (str_append p q) rest h

module _ {S B : Type 0} (redis : Redis S B) (find : String → S → Option B)
    (matches : String → String → Bool) (laws : IsRedis redis find matches) where
  delete_found-Fades :
      (p : String) (keys : List String) (s : S) (j : String)
      → Fades (find j s) (find j (delete_found redis p keys s).1)
  delete_found-Fades p [] s j = inr refl
  delete_found-Fades p (k ∷ ks) s j = laws.del_fades (k ∷ ks) s j

  delete_pattern-Fades :
      (p : String) (s : S) (j : String) → Fades (find j s) (find j (delete_pattern redis p s).1)
  unfolding delete_pattern
  delete_pattern-Fades p s j =
      Fades-trans (find j s) (find j (redis.scan p s).1) _ (laws.scan_fades p s j)
        (delete_found-Fades p (redis.scan p s).0.0 (redis.scan p s).1 j)

  -- What is gone stays gone.
  gone : (a b : Option B) → Fades a b → a ≡ none → b ≡ none
  gone a b (inl e) h = e
  gone a b (inr e) h = e ∙ h

  delete_patterns-gone :
      (ps : List String) (s : S) (j : String)
      → find j s ≡ none
      → find j (delete_patterns redis ps s) ≡ none
  unfolding delete_patterns
  delete_patterns-gone [] s j h = h
  delete_patterns-gone (p ∷ ps) s j h =
      delete_patterns-gone ps (delete_pattern redis p s).1 j
        (gone (find j s) _ (delete_pattern-Fades p s j) h)

  -- No scan ends early and no delete fails.
  abbrev pub Succeeds : Type 0
  Succeeds =
      ((p : String) (s : S) → (redis.scan p s).0.1 ≡ none)
      × ((ks : List String) (s : S) → (redis.del ks s).0 ≡ none)

  delete_found-gone :
      (p : String) (keys : List String) (s : S) (j : String)
      → Succeeds
      → Among j keys
      → find j (delete_found redis p keys s).1 ≡ none
  delete_found-gone p [] s j h m = absurd m
  delete_found-gone p (k ∷ ks) s j h m = laws.del_gone (k ∷ ks) s j (h.1 (k ∷ ks) s) m

  delete_pattern-clears :
      (p : String) (s : S) (j : String)
      → Succeeds
      → matches p j ≡ true
      → find j (delete_pattern redis p s).1 ≡ none
  unfolding delete_pattern
  delete_pattern-clears p s j h m =
      let keys = (redis.scan p s).0.0 in
      let s' = (redis.scan p s).1 in
      elim (Option-cases (find j s')) [
        | inl e ↦ gone (find j s') _ (delete_found-Fades p keys s' j) e
        | inr (d, e) ↦
            delete_found-gone p keys s' j h
              (laws.scan_all p s j (h.0 p s) (λ q. let z = sym e ∙ q in cc) m)
      ]

  delete_patterns-clears :
      (ps : List String) (p : String) (s : S) (j : String)
      → Succeeds
      → Among p ps
      → matches p j ≡ true
      → find j (delete_patterns redis ps s) ≡ none
  unfolding delete_patterns
  delete_patterns-clears [] p s j h m t = absurd m
  delete_patterns-clears (q ∷ ps) p s j h (inl e) t =
      delete_patterns-gone ps (delete_pattern redis q s).1 j
        (delete_pattern-clears q s j h (rw (sym e) t))
  delete_patterns-clears (q ∷ ps) p s j h (inr m) t =
      delete_patterns-clears ps p (delete_pattern redis q s).1 j h m t

  -- While no command fails, nothing that was cached of a user can be read after `InvalidateUser`:
  -- the user, the balance, and the pages of transactions of every limit and offset are gone.
  pub invalidate_user-clears :
      (f : Formats) (literal : String → Type 0)
      → IsGlob matches literal
      → (u : Uuid) (s : S) → Succeeds
      → literal (str_append "user:" (f.uuid_text u))
      → literal (str_append "user_transactions:" (f.uuid_text u))
      → literal (str_append "balance:" (f.uuid_text u))
      → (find (user_key f u) (invalidate_user redis f u s).1 ≡ none)
        × (find (balance_key f u) (invalidate_user redis f u s).1 ≡ none)
        × ((limit offset : ℤ)
            → find (user_transactions_key f u limit offset) (invalidate_user redis f u s).1 ≡ none)
  unfolding invalidate_user invalidate_pattern
  invalidate_user-clears f literal glob u s h lu lt lb =
      let ps = user_pattern f u ∷ user_transactions_pattern f u ∷ balance_pattern f u ∷ [] in
      (
        delete_patterns-clears ps (user_pattern f u) s (user_key f u) h (inl refl)
            (takes_whole matches literal glob _ lu),
        delete_patterns-clears ps (balance_pattern f u) s (balance_key f u) h (inr (inr (inl refl)))
            (takes_whole matches literal glob _ lb),
        λ limit offset.
            delete_patterns-clears ps (user_transactions_pattern f u) s
              (user_transactions_key f u limit offset) h (inr (inl refl))
              (takes_more matches literal glob _ _ _ lt),
      )
