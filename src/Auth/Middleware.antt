-- ===== src/Auth/Middleware.antt =====
-- pkg/middleware/auth.go, authorization.go and validation.go, and pkg/server/handlers/auth.go. What
-- gin reads of a request is an argument.
use transaction_api.Prelude.{
  ℕ, Bool, true, false, Option, none, some, Result, ok, err, String, List, [], ◌∷◌, if◌then◌else◌,
}
use text.Mathlib.Text.{◌==◌ as str_eq}
use transaction_api.Domain.Base.{Uuid, Time}
use transaction_api.Domain.User.{other_role}
use transaction_api.Auth.{
  UserTable, Bcrypt, Claims, Jwt, AuthError, TokenResponse, LoginRequest, RegisterRequest,
  RefreshTokenRequest, AuthService, claim, register, login, refresh_token,
}

-- The keys that `AuthMiddleware` sets in the context, where the claims have them.
pub record Context : Type 0 where
  pub user_id : Option String
  pub email : Option String
  pub role : Option String

-- A middleware answers with a status and an error, or goes on.
pub data Outcome (A : Type 0) : Type 0 where
  aborted : ℕ → String → Outcome A
  next : A → Outcome A

module _ (split : String → List String) (jwt : Jwt) (secret : String) where
  -- The parsing with its key function, which refuses a method that is not HMAC.
  abbrev pub parsed : ℕ → String → Result String Claims
  parsed now token =
      if jwt.is_hmac token then jwt.parse token secret now else err "unexpected signing method"

  unfoldable pub context_of : Result String Claims → Outcome Context
  unfolding claim
  context_of (err e) = aborted 401 "Invalid token"
  context_of (ok claims) = next (record {
    user_id = claim "user_id" claims.texts;
    email = claim "email" claims.texts;
    role = claim "role" claims.texts;
  })

  unfoldable pub authorized : ℕ → List String → Outcome Context
  unfolding context_of
  authorized now (scheme ∷ token ∷ []) =
      if str_eq scheme "Bearer"
      then context_of (parsed now token)
      else aborted 401 "Invalid authorization header format"
  authorized now _ = aborted 401 "Invalid authorization header format"

  unfoldable pub auth_middleware : ℕ → String → Outcome Context
  unfolding authorized
  auth_middleware now header =
      if str_eq header ""
      then aborted 401 "Authorization header is required"
      else authorized now (split header)

-- `userRole := "admin"`: the context is not asked.
unfoldable pub allows : List String → Bool
allows [] = false
allows (role ∷ roles) = if str_eq role "admin" then true else allows roles

unfoldable pub role_middleware : List String → Context → Outcome Context
unfolding allows
role_middleware roles c =
    if allows roles then next c else aborted 403 "You don't have permission to access this resource"

abbrev pub and_then : {A B : Type 0} → Outcome A → (A → Outcome B) → Outcome B
and_then (aborted status e) f = aborted status e
and_then (next x) f = f x

-- `api.Use(AuthMiddleware)` and a group with `Use(RoleMiddleware("admin"))` in pkg/server/server.go,
-- with the secret that `NewServer` sets.
abbrev pub server_secret : String
server_secret = "your-secret-key"

unfoldable pub admin_route : (String → List String) → Jwt → ℕ → String → Outcome Context
unfolding auth_middleware role_middleware
admin_route split jwt now header =
    and_then (auth_middleware split jwt server_secret now header) (role_middleware ("admin" ∷ []))

-- The schema is one value, made with the middleware and shared by all requests: binding a body
-- decodes it into that value and validates it, and the validator validates it again.
module _ {Body A : Type 0} (decode : Body → A → Option String × A) (bound : A → Option String)
    (validate : A → Option String) where
  abbrev pub validated : A → Option String → Outcome A × A
  validated x (some e) = (aborted 400 e, x)
  validated x none = (next x, x)

  abbrev pub bound_then : A → Option String → Outcome A × A
  bound_then x (some e) = (aborted 400 e, x)
  bound_then x none = validated x (validate x)

  abbrev pub decoded_then : Option String × A → Outcome A × A
  decoded_then (some e, x) = (aborted 400 e, x)
  decoded_then (none, x) = bound_then x (bound x)

  unfoldable pub validation_middleware : Body → A → Outcome A × A
  validation_middleware body schema = decoded_then (decode body schema)

-- What a handler answers: a status with an error, or with tokens.
pub data Answer : Type 0 where
  refused : ℕ → String → Answer
  created : Answer
  tokens : TokenResponse → Answer

abbrev pub token_answer : String → Result AuthError TokenResponse → Answer
token_answer e (ok t) = tokens t
token_answer e (err _) = refused 401 e

module _ {S : Type 0} (table : UserTable S) (bcrypt : Bcrypt) (text : Uuid → String) (jwt : Jwt)
    (service : AuthService) where
  abbrev pub handle_registered : (AuthError → String) → Option AuthError × S → Answer × S
  handle_registered message (none, s) = (created, s)
  handle_registered message (some e, s) = (refused 500 (message e), s)

  -- The role is the empty text.
  unfoldable pub handle_register :
      (AuthError → String) → Uuid → Time → Time → ℕ → RegisterRequest → S → Answer × S
  unfolding register
  handle_register message id at_created at_updated salt req s = handle_registered message (
      register table bcrypt salt
        (record {
          id = id;
          email = req.email;
          password = req.password;
          first_name = req.first_name;
          last_name = req.last_name;
          role = other_role "";
          created_at = at_created;
          updated_at = at_updated;
        })
        s)

  unfoldable pub handle_login : ℕ → ℕ → LoginRequest → S → Answer
  unfolding login
  handle_login now later req s =
      token_answer "Invalid credentials"
        (login table bcrypt text jwt service now later req.email req.password s)

  unfoldable pub handle_refresh : ℕ → ℕ → ℕ → RefreshTokenRequest → S → Answer
  unfolding refresh_token
  handle_refresh at_parse now later req s =
      token_answer "Invalid refresh token"
        (refresh_token table bcrypt text jwt service at_parse now later req.refresh_token s)

  -- The route of the login: the middleware of its schema, then the handler.
  unfoldable pub answered : ℕ → ℕ → S → Outcome LoginRequest → Answer
  unfolding handle_login
  answered now later s (aborted status e) = refused status e
  answered now later s (next req) = handle_login now later req s

  unfoldable pub login_route :
      {Body : Type 0}
      → (Body → LoginRequest → Option String × LoginRequest)
      → (LoginRequest → Option String)
      → (LoginRequest → Option String)
      → ℕ
      → ℕ
      → Body
      → S
      → LoginRequest
      → Answer × LoginRequest
  unfolding validation_middleware answered
  login_route decode bound validate now later body s schema =
      let (r, schema') = validation_middleware decode bound validate body schema in
      (answered now later s r, schema')
