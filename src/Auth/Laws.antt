-- ===== src/Auth/Laws.antt =====
-- What a login is good for, and what the shared schema of the login route leaves behind.
use Prim.Native.String.{◌++◌}
use text.Mathlib.Text.{◌==◌ as str_eq}
use text.Mathlib.TextEquality.{eq_iff}
use text.Mathlib.TextLemmas.{cons-append, cons≢nil}
use transaction_api.Prelude.{
  ℕ, ◌+◌, ◌<◌, ◌≡◌, refl, sym, ap, ◌∙◌, ◌≢◌, true, false, Option, none, some, Result, ok, err,
  String, List, [], ◌∷◌, Bool-cases, inl, inr,
}
use transaction_api.Domain.Base.{Uuid}
use transaction_api.Domain.User.{User}
use transaction_api.Auth.{
  UserTable, Bcrypt, Claims, Jwt, LoginRequest, AuthService, claim, access_claims, refresh_claims,
  generate_access_token, generate_refresh_token, tokens_for, checked_tokens, login_of, login,
}
use transaction_api.Auth.Middleware.{
  Context, aborted, next, context_of, authorized, auth_middleware, role_middleware, allows,
  admin_route, and_then, server_secret, validation_middleware, handle_login, login_route, answered,
}

-- What the documentation of jwt says of a token that HS256 signed: it names an HMAC method, parses
-- with its key to its claims before it expires, and with no other key.
pub record IsJwt (jwt : Jwt) : Type 0 where
  pub hmac : (c : Claims) (key t : String) → jwt.sign c key ≡ ok t → jwt.is_hmac t ≡ true
  pub parses :
      (c : Claims) (key t : String) (now : ℕ)
      → jwt.sign c key ≡ ok t
      → now < c.exp
      → jwt.parse t key now ≡ ok c
  pub wrong_key :
      (c : Claims) (key other t : String) (now : ℕ)
      → jwt.sign c key ≡ ok t
      → other ≢ key
      → (e : String) × (jwt.parse t other now ≡ err e)

-- A header of the scheme and a token, which has no space, splits into the two.
abbrev pub Splits : (String → List String) → String → Type 0
Splits split t = split ("Bearer " ++ t) ≡ "Bearer" ∷ t ∷ []

header_present : (t : String) → str_eq ("Bearer " ++ t) "" ≡ false
header_present t = elim (Bool-cases (str_eq ("Bearer " ++ t) "")) [
  | inl e ↦ absurd (cons≢nil (sym (cons-append "B" "earer " t) ∙ (eq_iff ("Bearer " ++ t) "").0 e))
  | inr e ↦ e
]

module _ {S : Type 0} (table : UserTable S) (bcrypt : Bcrypt) (text : Uuid → String) (jwt : Jwt)
    (laws : IsJwt jwt) (service : AuthService) (split : String → List String) where
  -- A user whose password matches, and the tokens that are signed for the login.
  abbrev pub LogsIn : ℕ → ℕ → String → String → S → User → String → String → Type 0
  LogsIn now later email password s u access refresh =
      (table.first_by_email email s ≡ ok u)
      × (bcrypt.compare u.password password ≡ none)
      × (jwt.sign (access_claims text jwt service now u) service.jwt_secret ≡ ok access)
      × (jwt.sign (refresh_claims text jwt service later u) service.refresh_secret ≡ ok refresh)

  login_gives :
      (now later : ℕ) (email password : String) (s : S) (u : User) (access refresh : String)
      → LogsIn now later email password s u access refresh
      → login table bcrypt text jwt service now later email password s
        ≡ ok (record {
          access_token = access;
          refresh_token = refresh;
          token_type = "Bearer";
          expires_in = 3600;
        })
  unfolding login login_of checked_tokens tokens_for generate_access_token generate_refresh_token
  login_gives now later email password s u access refresh (row, right, a, r) =
      rw (row, right, a, r) refl

  auth_middleware-parsed :
      (secret t : String) (now : ℕ) (r : Result String Claims)
      → Splits split t
      → jwt.is_hmac t ≡ true
      → jwt.parse t secret now ≡ r
      → auth_middleware split jwt secret now ("Bearer " ++ t) ≡ context_of split jwt secret r
  unfolding auth_middleware authorized
  auth_middleware-parsed secret t now r sp h e = rw (header_present t, sp, h, e) refl

  -- What the middleware puts into the context for a user.
  abbrev pub context_for : User → Context
  context_for u = record { user_id = some (text u.id); email = some u.email; role = none }

  -- A user whose password matches gets the two tokens, and for an hour the access token passes
  -- `AuthMiddleware` under the same secret as that user.
  pub login-auth_middleware :
      (now later at_request : ℕ) (email password : String) (s : S) (u : User)
      (access refresh : String)
      → LogsIn now later email password s u access refresh
      → Splits split access
      → at_request < now + 3600
      → (login table bcrypt text jwt service now later email password s
          ≡ ok (record {
            access_token = access;
            refresh_token = refresh;
            token_type = "Bearer";
            expires_in = 3600;
          }))
        × (auth_middleware split jwt service.jwt_secret at_request ("Bearer " ++ access)
            ≡ next (context_for u))
  unfolding context_of claim
  login-auth_middleware now later at_request email password s u access refresh h sp lt =
      let claims = access_claims text jwt service now u in
      (
        login_gives now later email password s u access refresh h,
        auth_middleware-parsed service.jwt_secret access at_request (ok claims) sp
            (laws.hmac claims service.jwt_secret access h.2)
            (laws.parses claims service.jwt_secret access at_request h.2 lt),
      )

  -- The routes that are meant for administrators, which the server guards with a secret of its own:
  -- a user of any role that logs in passes them for an hour where the secret of the service is that
  -- one, and where it is another, no user that logs in passes them at any time.
  pub login-admin_route :
      (now later at_request : ℕ) (email password : String) (s : S) (u : User)
      (access refresh : String)
      → LogsIn now later email password s u access refresh
      → Splits split access
      → (service.jwt_secret ≡ server_secret
          → at_request < now + 3600
          → admin_route split jwt at_request ("Bearer " ++ access) ≡ next (context_for u))
        × (server_secret ≢ service.jwt_secret
            → admin_route split jwt at_request ("Bearer " ++ access) ≡ aborted 401 "Invalid token")
  unfolding admin_route role_middleware allows context_of claim
  login-admin_route now later at_request email password s u access refresh h sp = (
    (λ e lt.
        let passed =
          (login-auth_middleware now later at_request email password s u access refresh h sp
            lt).1 in
        ap (λ r. and_then r (role_middleware ("admin" ∷ []))) (rw e at passed)),
    (λ ne.
        let claims = access_claims text jwt service now u in
        let (x, bad) =
          laws.wrong_key claims service.jwt_secret server_secret access at_request h.2 ne in
        let refused =
          auth_middleware-parsed server_secret access at_request (err x) sp
            (laws.hmac claims service.jwt_secret access h.2) bad in
        ap (λ r. and_then r (role_middleware ("admin" ∷ []))) refused),
  )

module _ {S : Type 0} (table : UserTable S) (bcrypt : Bcrypt) (text : Uuid → String) (jwt : Jwt)
    (service : AuthService) {Body : Type 0}
    (decode : Body → LoginRequest → Option String × LoginRequest)
    (bound validate : LoginRequest → Option String) where
  -- A body with both fields sets both; one without a password leaves the one that was there.
  abbrev pub Full : Body → LoginRequest → Type 0
  Full body req = (schema : LoginRequest) → decode body schema ≡ (none, req)

  abbrev pub NoPassword : Body → String → Type 0
  NoPassword body email =
      (schema : LoginRequest) → decode body schema ≡ (none, record schema { email = email })

  -- A login with both fields is answered for these, whatever requests came before. A request
  -- without a password is answered as that of the last login would be: after a user has logged in,
  -- a request with the address alone gets what the user would get.
  pub login_route-after :
      (body bare : Body) (req : LoginRequest) (schema : LoginRequest) (s : S)
      (now later now' later' : ℕ)
      → Full body req
      → NoPassword bare req.email
      → bound req ≡ none
      → validate req ≡ none
      → ((login_route table bcrypt text jwt service decode bound validate now later body s schema).0
          ≡ handle_login table bcrypt text jwt service now later req s)
        × ((login_route table bcrypt text jwt service decode bound validate now' later' bare s
              (login_route table bcrypt text jwt service decode bound validate now later body s
                schema).1).0
            ≡ handle_login table bcrypt text jwt service now' later' req s)
  unfolding login_route validation_middleware answered
  login_route-after body bare req schema s now later now' later' full part fits valid = (
    rw (full schema, fits, valid) refl,
    rw (full schema, fits, valid, part req, fits, valid) refl,
  )
