-- ===== src/LoadBalancer/Least.antt =====
-- The strategy of the least latency.
use transaction_api.Prelude.{
  ◌≡◌, refl, ◌⊎◌, inl, inr, ℤ, ◌≤ℤ◌, ltb_ℤ, Bool, true, false, Option, none, some, List, [], ◌∷◌,
  All, Among, arith,
}
use transaction_api.LoadBalancer.{
  Backend, Selection, selected, nothing, panics, max_latency, least_from, or_nothing, select_least,
}

abbrev Bounds : ℤ → List Backend → Type 0
Bounds l bs = All (λ b. l ≤ℤ b.latency) bs

-- What the loop gives from a best so far and its latency.
abbrev Finds : Option Backend → ℤ → List Backend → Option Backend → Type 0
Finds best l bs none = (best ≡ none) × Bounds l bs
Finds best l bs (some x) = ((best ≡ some x) ⊎ Among x bs) × (x.latency ≤ℤ l) × Bounds x.latency bs

abbrev Fits : Option Backend → ℤ → Type 0
Fits none l = Unit
Fits (some b) l = b.latency ≡ l

Finds-better :
    (best : Option Backend) (l : ℤ) (b : Backend) (bs : List Backend) (r : Option Backend)
    → ltb_ℤ b.latency l ≡ true
    → Finds (some b) b.latency bs r
    → Finds best l (b ∷ bs) r
Finds-better best l b bs none lt h = cc (h.0)
Finds-better best l b bs (some x) lt (from, le, bound) = (among from, ground arith, (le, bound))
  where
    among : (some b ≡ some x) ⊎ Among x bs → (best ≡ some x) ⊎ (x ≡ b) ⊎ Among x bs
    among (inl e) = inr (inl cc)
    among (inr m) = inr (inr m)

Finds-worse :
    (best : Option Backend) (l : ℤ) (b : Backend) (bs : List Backend) (r : Option Backend)
    → ltb_ℤ b.latency l ≡ false
    → Finds best l bs r
    → Finds best l (b ∷ bs) r
Finds-worse best l b bs none ge (e, bound) = (e, (ground arith, bound))
Finds-worse best l b bs (some x) ge (from, le, bound) = (among from, le, (ground arith, bound))
  where
    among : (best ≡ some x) ⊎ Among x bs → (best ≡ some x) ⊎ (x ≡ b) ⊎ Among x bs
    among (inl e) = inl e
    among (inr m) = inr (inr m)

Finds-cons :
    (best : Option Backend) (l : ℤ) (b : Backend) (bs : List Backend)
    (better worse : Option Backend) (t : Bool)
    → ltb_ℤ b.latency l ≡ t
    → Finds (some b) b.latency bs better
    → Finds best l bs worse
    → Finds best l (b ∷ bs) (elim t [ true ↦ better | false ↦ worse ])
Finds-cons best l b bs better worse true e p q = Finds-better best l b bs better e p
Finds-cons best l b bs better worse false e p q = Finds-worse best l b bs worse e q

least_from-Finds :
    (best : Option Backend) (l : ℤ) (bs : List Backend)
    → Fits best l
    → Finds best l bs (least_from best l bs)
unfolding least_from
least_from-Finds none l [] h = (refl, tt)
least_from-Finds (some b) l [] h = (inl refl, ground arith, tt)
least_from-Finds best l (b ∷ bs) h =
    Finds-cons best l b bs (least_from (some b) b.latency bs) (least_from best l bs)
      (ltb_ℤ b.latency l) refl (least_from-Finds (some b) b.latency bs refl)
      (least_from-Finds best l bs h)

-- What a selection by least latency is.
abbrev pub IsLeast : List Backend → Selection → Type 0
IsLeast bs nothing = Bounds max_latency bs
IsLeast bs panics = ⊥
IsLeast bs (selected x) = Among x bs × (x.latency ≤ℤ max_latency) × Bounds x.latency bs

-- The strategy of least latency selects one of the backends, and none has a smaller latency; it
-- selects nothing only if no latency is below the largest duration, and it never panics.
pub select_least-IsLeast : (bs : List Backend) → IsLeast bs (select_least bs)
unfolding select_least
select_least-IsLeast [] = tt
select_least-IsLeast (b ∷ bs) =
    IsLeast-of (least_from none max_latency (b ∷ bs))
      (least_from-Finds none max_latency (b ∷ bs) tt)
  where
    IsLeast-of :
        (r : Option Backend) → Finds none max_latency (b ∷ bs) r → IsLeast (b ∷ bs) (or_nothing r)
    IsLeast-of none (e, bound) = bound
    IsLeast-of (some x) (inl e, le, bound) = cc
    IsLeast-of (some x) (inr m, le, bound) = (m, le, bound)
