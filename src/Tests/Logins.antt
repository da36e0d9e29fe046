-- ===== src/Tests/Logins.antt =====
-- Tests of the logins, with a toy signature: a token is a digit and the key.
use Prim.Native.Char.{code}
use Prim.Native.String.{◌++◌}
use text.Mathlib.Text.{◌==◌ as str_eq}
use text.Mathlib.TextEquality.{eq_iff}
use text.Mathlib.TextLemmas.{append_cancel_left, head-eq_of_cons-eq, cons-append}
use text.Mathlib.TextPositions.{eq_refl}
use transaction_api.Prelude.{
  ℕ, ◌+◌, ◌<◌, ◌==◌, ==_iff, ◌≡◌, refl, sym, ap, ◌∙◌, ◌≢◌, ◌⊎◌, inl, inr, Bool, true, false, ◌&&◌,
  Option, none, some, Result, ok, err, String, List, [], ◌∷◌, Bool-cases, arith, if◌then◌else◌,
}
use transaction_api.Domain.User.{User, user_role}
use transaction_api.Auth.{UserTable, Bcrypt, Claims, Jwt, LoginRequest, AuthService, login}
use transaction_api.Auth.Middleware.{
  next, aborted, auth_middleware, admin_route, server_secret, handle_login, login_route,
}
use transaction_api.Auth.Laws.{IsJwt, login-auth_middleware, login-admin_route, login_route-after}

abbrev ann : User
ann = record {
  id = 7;
  email = "ann@example.org";
  password = "hash";
  first_name = "Ann";
  last_name = "Lee";
  role = user_role;
  created_at = 0;
  updated_at = 0;
}

abbrev ids : ℕ → String
ids _ = "7"

abbrev access : Claims
access = record { texts = ("user_id", "7") ∷ ("email", "ann@example.org") ∷ []; exp = 3600 }

abbrev renewal : Claims
renewal = record { texts = ("user_id", "7") ∷ []; exp = 604801 }

-- Only these two claims are signed.
abbrev signed_texts : List (String × String) → ℕ → String → Result String String
signed_texts ((a, b) ∷ (c, d) ∷ []) n key =
    if str_eq a "user_id"
      && (str_eq b "7" && (str_eq c "email" && (str_eq d "ann@example.org" && n == 3600)))
    then ok ("1" ++ key)
    else err "unknown claims"
signed_texts ((a, b) ∷ []) n key =
    if str_eq a "user_id" && (str_eq b "7" && n == 604801)
    then ok ("2" ++ key)
    else err "unknown claims"
signed_texts _ n key = err "unknown claims"

abbrev toy_parse : String → String → ℕ → Result String Claims
toy_parse t key now =
    if str_eq t ("1" ++ key)
    then ok access
    else if str_eq t ("2" ++ key)
    then ok renewal
    else err "signature is invalid"

abbrev toy : Jwt
toy = record {
  sign = λ c key. signed_texts c.texts c.exp key;
  is_hmac = λ t. true;
  parse = toy_parse;
}

-- A token is one of the two.
abbrev IsSigned : Claims → String → String → Type 0
IsSigned c key t = (c ≡ access) × (t ≡ "1" ++ key) ⊎ (c ≡ renewal) × (t ≡ "2" ++ key)

both : (p q : Bool) → (p && q) ≡ true → (p ≡ true) × (q ≡ true)
both p q h = ground arith

same_text : (a b : String) → str_eq a b ≡ true → a ≡ b
same_text a b h = (eq_iff a b).0 h

signed_texts-IsSigned :
    (texts : List (String × String)) (n : ℕ) (key t : String)
    → signed_texts texts n key ≡ ok t
    → IsSigned (record { texts = texts; exp = n }) key t
signed_texts-IsSigned [] n key t e = cc
signed_texts-IsSigned ((a, b) ∷ []) n key t e =
    let test = str_eq a "user_id" && (str_eq b "7" && n == 604801) in
    elim (Bool-cases test) [
      | inl h ↦
          let (p, rest) = both (str_eq a "user_id") (str_eq b "7" && n == 604801) h in
          let (q, r) = both (str_eq b "7") (n == 604801) rest in
          let signed : ok ("2" ++ key) ≡ ok t = rw h at e in
          let p' : a ≡ "user_id" = same_text a "user_id" p in
          let q' : b ≡ "7" = same_text b "7" q in
          let r' : n ≡ 604801 = (==_iff n 604801).0 r in rw (p', q', r') (inr (refl, cc))
      | inr h ↦
          let no : ◌≡◌ {A = Result String String} (err "unknown claims") (ok t) = rw h at e in cc
    ]
signed_texts-IsSigned ((a, b) ∷ (c, d) ∷ []) n key t e =
    let last = str_eq d "ann@example.org" && n == 3600 in
    let third = str_eq c "email" && last in
    let second = str_eq b "7" && third in
    let test = str_eq a "user_id" && second in
    elim (Bool-cases test) [
      | inl h ↦
          let (p, rest) = both (str_eq a "user_id") second h in
          let (q, rest') = both (str_eq b "7") third rest in
          let (r, rest'') = both (str_eq c "email") last rest' in
          let (u, v) = both (str_eq d "ann@example.org") (n == 3600) rest'' in
          let signed : ok ("1" ++ key) ≡ ok t = rw h at e in
          let p' : a ≡ "user_id" = same_text a "user_id" p in
          let q' : b ≡ "7" = same_text b "7" q in
          let r' : c ≡ "email" = same_text c "email" r in
          let u' : d ≡ "ann@example.org" = same_text d "ann@example.org" u in
          let v' : n ≡ 3600 = (==_iff n 3600).0 v in rw (p', q', r', u', v') (inl (refl, cc))
      | inr h ↦
          let no : ◌≡◌ {A = Result String String} (err "unknown claims") (ok t) = rw h at e in cc
    ]
signed_texts-IsSigned ((a, b) ∷ (c, d) ∷ x ∷ xs) n key t e = cc

differ : (s t : String) → s ≢ t → str_eq s t ≡ false
differ s t h = elim (Bool-cases (str_eq s t)) [ inl e ↦ absurd (h (same_text s t e)) | inr e ↦ e ]

one_two : (s t : String) → "1" ++ s ≢ "2" ++ t
one_two s t = λ p.
    let q = head-eq_of_cons-eq (sym (cons-append "1" "" s) ∙ p ∙ cons-append "2" "" t) in
    let r : ◌≡◌ {A = ℕ} 49 50 = ap code q in absurd (omega arith)

toy-parses : (c : Claims) (key t : String) (now : ℕ) → IsSigned c key t → toy_parse t key now ≡ ok c
toy-parses c key t now (inl (e, f)) = rw (e, f, eq_refl ("1" ++ key)) refl
toy-parses c key t now (inr (e, f)) =
    rw (e, f, differ ("2" ++ key) ("1" ++ key) (λ p. one_two key key (sym p)), eq_refl ("2" ++ key))
      refl

toy-refuses :
    (c : Claims) (key other t : String) (now : ℕ)
    → IsSigned c key t
    → other ≢ key
    → toy_parse t other now ≡ err "signature is invalid"
toy-refuses c key other t now (inl (e, f)) ne =
    rw
      (
        f,
        differ ("1" ++ key) ("1" ++ other) (λ p. ne (sym (append_cancel_left "1" key other p))),
        differ ("1" ++ key) ("2" ++ other) (one_two key other),
      )
      refl
toy-refuses c key other t now (inr (e, f)) ne =
    rw
      (
        f,
        differ ("2" ++ key) ("1" ++ other) (λ p. one_two other key (sym p)),
        differ ("2" ++ key) ("2" ++ other) (λ p. ne (sym (append_cancel_left "2" key other p))),
      )
      refl

toy-IsJwt : IsJwt toy
toy-IsJwt = record {
  hmac = λ c key t e. refl;
  parses = λ c key t now e lt. toy-parses c key t now (signed_texts-IsSigned c.texts c.exp key t e);
  wrong_key = λ c key other t now e ne. (
    "signature is invalid",
    toy-refuses c key other t now (signed_texts-IsSigned c.texts c.exp key t e) ne,
  );
}

abbrev people : UserTable Unit
people = record {
  create = λ u s. (none, s);
  first_by_id = λ id s. ok ann;
  first_by_email = λ email s. ok ann;
  save = λ u s. (none, s);
  delete_by_id = λ id s. (none, s);
  find_all = λ s. ok (ann ∷ []);
}

abbrev hashing : Bcrypt
hashing = record {
  generate = λ p salt. ok "hash";
  compare = λ h p. if str_eq p "secret" then none else some "mismatch";
}

abbrev service : AuthService
service = record { jwt_secret = server_secret; refresh_secret = "other" }

-- It splits the one header that the tests send.
abbrev split : String → List String
split header =
    if str_eq header "Bearer 1your-secret-key"
    then "Bearer" ∷ "1your-secret-key" ∷ []
    else header ∷ []

login-auth_middleware_example :
    (login people hashing ids toy service 0 1 "ann@example.org" "secret" tt
      ≡ ok (record {
        access_token = "1your-secret-key";
        refresh_token = "2other";
        token_type = "Bearer";
        expires_in = 3600;
      }))
    × (auth_middleware split toy server_secret 5 ("Bearer " ++ "1your-secret-key")
        ≡ next (record { user_id = some "7"; email = some "ann@example.org"; role = none }))
login-auth_middleware_example =
    login-auth_middleware people hashing ids toy toy-IsJwt service split 0 1 5 "ann@example.org"
      "secret" tt ann "1your-secret-key" "2other" (refl, refl, refl, refl) refl (omega arith)

login-admin_route_example :
    (service.jwt_secret ≡ server_secret
      → 5 < 0 + 3600
      → admin_route split toy 5 ("Bearer " ++ "1your-secret-key")
        ≡ next (record { user_id = some "7"; email = some "ann@example.org"; role = none }))
    × (server_secret ≢ service.jwt_secret
        → admin_route split toy 5 ("Bearer " ++ "1your-secret-key") ≡ aborted 401 "Invalid token")
login-admin_route_example =
    login-admin_route people hashing ids toy toy-IsJwt service split 0 1 5 "ann@example.org"
      "secret" tt ann "1your-secret-key" "2other" (refl, refl, refl, refl) refl

-- A body has an address, and perhaps a password.
abbrev Body : Type 0
Body = String × Option String

abbrev decode : Body → LoginRequest → Option String × LoginRequest
decode (email, none) schema = (none, record schema { email = email })
decode (email, some password) schema = (none, record { email = email; password = password })

abbrev anns : LoginRequest
anns = record { email = "ann@example.org"; password = "secret" }

abbrev no_error : LoginRequest → Option String
no_error req = none

abbrev blank : LoginRequest
blank = record { email = ""; password = "" }

login_route-after_example :
    ((login_route people hashing ids toy service decode no_error no_error 0 1
        ("ann@example.org", some "secret")
        tt
        blank).0
      ≡ handle_login people hashing ids toy service 0 1 anns tt)
    × ((login_route people hashing ids toy service decode no_error no_error 2 3
          ("ann@example.org", none)
          tt
          (login_route people hashing ids toy service decode no_error no_error 0 1
            ("ann@example.org", some "secret")
            tt
            blank).1).0
        ≡ handle_login people hashing ids toy service 2 3 anns tt)
login_route-after_example =
    login_route-after people hashing ids toy service decode no_error no_error
      ("ann@example.org", some "secret") ("ann@example.org", none) anns blank tt 0 1 2 3
      (λ schema. refl) (λ schema. refl) refl refl
