-- ===== src/Fallback/Expiry.antt =====
-- The cache under its clock: what an entry answers, and what a cleanup may remove.
use transaction_api.Prelude.{ℕ, ◌+◌, ◌≤◌, ◌≡◌, refl, arith, some, String, Option-cases, inl, inr}
use transaction_api.Fallback.{Cache, get, set, cleanup}
use text.Mathlib.TextPositions.{eq_refl}

-- A cleanup changes no answer: at its time and later, every key is answered as without it.
pub get-cleanup :
    {A : Type 0} (now later : ℕ) (key : String) (c : Cache A)
    → now ≤ later
    → (get later key (cleanup now c)).0 ≡ (get later key c).0
unfolding get cleanup
get-cleanup now later key c h = elim (Option-cases (c key)) [
  | inl e ↦ rw e refl
  | inr (x, e) ↦ rw e (ground arith)
]

-- A key that was set is answered with its value until its time has passed, and the cache stays.
pub get-set :
    {A : Type 0} (now at : ℕ) (key : String) (a : A) (ttl : ℕ) (c : Cache A)
    → now ≤ at + ttl
    → get now key (set at key a ttl c) ≡ (some a, set at key a ttl c)
unfolding get set
get-set now at key a ttl c h = ground (arith, eq_refl key)
