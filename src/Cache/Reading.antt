-- ===== src/Cache/Reading.antt =====
-- One read through the cache: what it answers, and which entries it leaves.
use transaction_api.Prelude.{
  ◌≡◌, refl, ap, ◌≢◌, ◌⊎◌, inl, inr, ℤ, Bool, Option, none, some, Result, ok, err, String,
}
use transaction_api.Cache.{
  Redis, Codec, CacheError, Found, found, nil, failed, set, get, store, read, wrapped_value,
  not_unmarshalled,
}
use transaction_api.Cache.Server.{Fades, Fades-trans, IsRedis}
use transaction_api.Cache.Service.{read_through, answered, filled}

-- What is marshalled is read back, as a value of its view: a field that JSON leaves out is lost.
pub record ReadsBack {A B : Type 0} (codec : Codec A B) (view : A → A) : Type 0 where
  pub reads_back : (v : A) (d : B) → codec.marshal v ≡ ok d → codec.unmarshal d ≡ ok (view v)

module _ {A B : Type 0} (codec : Codec A B) (view : A → A) (fetched : Result String A) where
  -- An entry of the cache, if there is one, is what the repository gives, in its view.
  abbrev pub Stored : Option B → Type 0
  Stored none = Unit
  Stored (some d) = (v : A) × (fetched ≡ ok v) × (codec.unmarshal d ≡ ok (view v))

  -- The repository's answer, or the view of it.
  abbrev pub Answers : Result String A → Type 0
  Answers r = (r ≡ fetched) ⊎ (v : A) × (fetched ≡ ok v) × (r ≡ ok (view v))

  pub Stored-Fades : (a b : Option B) → Fades a b → Stored a → Stored b
  Stored-Fades a b (inl e) h = rw e tt
  Stored-Fades a b (inr e) h = rw e h

module _ {S A B : Type 0} (redis : Redis S B) (find : String → S → Option B)
    (matches : String → String → Bool) (laws : IsRedis redis find matches) (codec : Codec A B)
    (view : A → A) (back : ReadsBack codec view) (fetched : Result String A) where
  read_same :
      (key : String) (d : B) (y x : A)
      → codec.unmarshal d ≡ ok y
      → read redis codec key (found d) ≡ ok x
      → x ≡ y
  read_same key d y x e r = let q : wrapped_value not_unmarshalled (ok y) ≡ ok x = rw e at r in cc

  read_found :
      (key : String) (s : S) (f : Found B)
      → (redis.get_key key s).0 ≡ f
      → Stored codec view fetched (find key s)
      → (x : A) → read redis codec key f ≡ ok x
      → (v : A) × (fetched ≡ ok v) × (x ≡ view v)
  read_found key s nil e h x r = cc
  read_found key s (failed m) e h x r = cc
  read_found key s (found d) e h x r =
      let (v, is, un) = rw (laws.got key d s e) at h in (v, is, read_same key d (view v) x un r)

  get-found :
      (key : String) (s : S)
      → Stored codec view fetched (find key s)
      → (x : A) → (get redis codec key s).0 ≡ ok x
      → (v : A) × (fetched ≡ ok v) × (x ≡ view v)
  unfolding get
  get-found key s h x r = read_found key s (redis.get_key key s).0 refl h x r

  get-Fades : (key j : String) (s : S) → Fades (find j s) (find j (get redis codec key s).1)
  unfolding get
  get-Fades key j s = laws.get_fades key j s

  store-others :
      (key : String) (t : ℤ) (r : Result String B) (s : S) (j : String)
      → j ≢ key
      → Fades (find j s) (find j (store redis key t r s).1)
  store-others key t (err e) s j ne = inr refl
  store-others key t (ok d) s j ne = laws.set_others key d t s j ne

  store-Stored :
      (key : String) (t : ℤ) (v : A) (r : Result String B) (s : S)
      → codec.marshal v ≡ r
      → fetched ≡ ok v
      → Stored codec view fetched (find key s)
      → Stored codec view fetched (find key (store redis key t r s).1)
  store-Stored key t v (err e) s m is h = h
  store-Stored key t v (ok d) s m is h = elim (laws.set_value key d t s) [
    | inl f ↦
        Stored-Fades codec view fetched (some d) (find key (redis.set_key key d t s).1) f
          (v, is, back.reads_back v d m)
    | inr f ↦
        Stored-Fades codec view fetched (find key s) (find key (redis.set_key key d t s).1) f h
  ]

  -- The entry of the key stays right, and the others only fade.
  abbrev pub Leaves : String → S → S → Type 0
  Leaves key s s' =
      (Stored codec view fetched (find key s) → Stored codec view fetched (find key s'))
      × ((j : String) → j ≢ key → Fades (find j s) (find j s'))

  Leaves-trans : (key : String) (a b c : S) → Leaves key a b → Leaves key b c → Leaves key a c
  Leaves-trans key a b c (k1, o1) (k2, o2) =
      (λ h. k2 (k1 h), λ j ne. Fades-trans (find j a) (find j b) (find j c) (o1 j ne) (o2 j ne))

  get-Leaves : (key : String) (s : S) → Leaves key s (get redis codec key s).1
  get-Leaves key s = (
    λ h.
        Stored-Fades codec view fetched (find key s) (find key (get redis codec key s).1)
          (get-Fades key key s) h,
    λ j ne. get-Fades key j s,
  )

  filled-Leaves :
      (key : String) (t : ℤ) (r : Result String A) (s : S)
      → fetched ≡ r
      → Leaves key s (filled redis codec key t r s).1
  unfolding set
  filled-Leaves key t (err e) s is = ((λ h. h), λ j ne. inr refl)
  filled-Leaves key t (ok v) s is = (
    λ h. store-Stored key t v (codec.marshal v) s refl is h,
    λ j ne. store-others key t (codec.marshal v) s j ne,
  )

  filled-same :
      (key : String) (t : ℤ) (r : Result String A) (s : S) → (filled redis codec key t r s).0 ≡ r
  filled-same key t (ok v) s = refl
  filled-same key t (err e) s = refl

  answered-right :
      (key : String) (t : ℤ) (r : Result CacheError A × S)
      → ((x : A) → r.0 ≡ ok x → (v : A) × (fetched ≡ ok v) × (x ≡ view v))
      → Answers codec view fetched (answered redis codec key t fetched r).0
        × Leaves key r.1 (answered redis codec key t fetched r).1
  unfolding answered
  answered-right key t (ok x, s) h =
      let (v, is, e) = h x refl in (inr (v, is, ap ok e), ((λ k. k), λ j ne. inr refl))
  answered-right key t (err e, s) h =
      (inl (filled-same key t fetched s), filled-Leaves key t fetched s refl)

  -- A read through the cache answers as the repository does, or with the view of its value, if the
  -- entry of the key is right; the entry stays right, and other entries only fade.
  pub read_through-right :
      (key : String) (t : ℤ) (s : S)
      → Stored codec view fetched (find key s)
      → Answers codec view fetched (read_through redis codec key t fetched s).0
        × Leaves key s (read_through redis codec key t fetched s).1
  unfolding read_through
  read_through-right key t s h =
      let first = get redis codec key s in
      let (a, l) = answered-right key t first (λ x e. get-found key s h x e) in
      (
        a,
        Leaves-trans key s first.1 (answered redis codec key t fetched first).1 (get-Leaves key s)
            l,
      )
