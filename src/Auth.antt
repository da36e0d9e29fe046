-- ===== src/Auth.antt =====
-- pkg/service/auth.go, pkg/domain/auth.go and pkg/repository/user.go. The database, bcrypt and jwt
-- are parameters; the clock is read in seconds.
pub mod Middleware
pub mod Laws
use transaction_api.Prelude.{
  ℕ, ◌+◌, ℤ, pos, Bool, true, false, Option, none, some, Result, ok, err, String, List, [], ◌∷◌,
  if◌then◌else◌,
}
use text.Mathlib.Text.{◌==◌ as str_eq}
use transaction_api.Domain.Base.{Uuid}
use transaction_api.Domain.User.{User}
use transaction_api.Repository.Store.{DbError, record_not_found, db_failure}

-- What the repository of users calls of gorm.
pub record UserTable (S : Type 0) : Type 0 where
  pub create : User → S → Option String × S
  pub first_by_id : String → S → Result DbError User
  pub first_by_email : String → S → Result DbError User
  pub save : User → S → Option String × S
  pub delete_by_id : String → S → Option String × S
  pub find_all : S → Result String (List User)

-- bcrypt: a hash for a password and a salt, and its comparison with a password.
pub record Bcrypt : Type 0 where
  pub generate : String → ℕ → Result String String
  pub compare : String → String → Option String

-- jwt.MapClaims: the claims that are texts, and the time of expiry.
pub record Claims : Type 0 where
  pub texts : List (String × String)
  pub exp : ℕ

-- Signing by HS256, whether a token names an HMAC method, and parsing with a key at a time, which
-- fails where the token is not valid.
pub record Jwt : Type 0 where
  pub sign : Claims → String → Result String String
  pub is_hmac : String → Bool
  pub parse : String → String → ℕ → Result String Claims

pub data AuthError : Type 0 where
  user_not_found wrong_password invalid_refresh_token invalid_user_id : AuthError
  failure : String → AuthError

pub record TokenResponse : Type 0 where
  pub access_token : String
  pub refresh_token : String
  pub token_type : String
  pub expires_in : ℕ

pub record LoginRequest : Type 0 where
  pub email : String
  pub password : String

pub record RegisterRequest : Type 0 where
  pub email : String
  pub password : String
  pub first_name : String
  pub last_name : String

pub record RefreshTokenRequest : Type 0 where
  pub refresh_token : String

pub record AuthService : Type 0 where
  pub jwt_secret : String
  pub refresh_secret : String

-- The value of a claim, if it is a text.
unfoldable pub claim : String → List (String × String) → Option String
claim name [] = none
claim name ((k, v) ∷ claims) = if str_eq k name then some v else claim name claims

abbrev pub user_error : DbError → AuthError
user_error record_not_found = user_not_found
user_error (db_failure e) = failure e

abbrev pub found_user : Result DbError User → Result AuthError User
found_user (ok u) = ok u
found_user (err e) = err (user_error e)

module _ {S : Type 0} (table : UserTable S) where
  abbrev pub get_by_id : String → S → Result AuthError User
  get_by_id id s = found_user (table.first_by_id id s)

  abbrev pub get_by_email : String → S → Result AuthError User
  get_by_email email s = found_user (table.first_by_email email s)

  abbrev pub create_user : User → S → Option String × S
  create_user u s = table.create u s

  abbrev update_user : User → S → Option String × S
  update_user u s = table.save u s

  abbrev delete_user : String → S → Option String × S
  delete_user id s = table.delete_by_id id s

  abbrev list_users : S → Result String (List User)
  list_users s = table.find_all s

module _ (text : Uuid → String) (jwt : Jwt) (service : AuthService) where
  abbrev pub access_claims : ℕ → User → Claims
  access_claims now u = record {
    texts = ("user_id", text u.id) ∷ ("email", u.email) ∷ [];
    exp = now + 3600;
  }

  abbrev pub refresh_claims : ℕ → User → Claims
  refresh_claims now u = record { texts = ("user_id", text u.id) ∷ []; exp = now + 604800 }

  unfoldable pub generate_access_token : ℕ → User → Result String String
  generate_access_token now u = jwt.sign (access_claims now u) service.jwt_secret

  unfoldable pub generate_refresh_token : ℕ → User → Result String String
  generate_refresh_token now u = jwt.sign (refresh_claims now u) service.refresh_secret

  abbrev pub both_tokens :
      Result String String → Result String String → Result AuthError TokenResponse
  both_tokens (err e) refresh = err (failure e)
  both_tokens (ok access) (err e) = err (failure e)
  both_tokens (ok access) (ok refresh) = ok (record {
    access_token = access;
    refresh_token = refresh;
    token_type = "Bearer";
    expires_in = 3600;
  })

  -- The two tokens of `Login` and `RefreshToken`, each at its reading of the clock.
  unfoldable pub tokens_for : ℕ → ℕ → User → Result AuthError TokenResponse
  unfolding generate_access_token generate_refresh_token
  tokens_for now later u =
      both_tokens (generate_access_token now u) (generate_refresh_token later u)

module _ {S : Type 0} (table : UserTable S) (bcrypt : Bcrypt) where
  abbrev pub register_hashed : User → Result String String → S → Option AuthError × S
  register_hashed u (err e) s = (some (failure e), s)
  register_hashed u (ok hash) s =
      let (e, s') = create_user table (record u { password = hash }) s in
      (elim e [ none ↦ none | some x ↦ some (failure x) ], s')

  unfoldable pub register : ℕ → User → S → Option AuthError × S
  register salt u s = register_hashed u (bcrypt.generate u.password salt) s

  module _ (text : Uuid → String) (jwt : Jwt) (service : AuthService) where
    unfoldable pub checked_tokens : ℕ → ℕ → User → Option String → Result AuthError TokenResponse
    unfolding tokens_for
    checked_tokens now later u (some e) = err wrong_password
    checked_tokens now later u none = tokens_for text jwt service now later u

    -- Every error of the lookup is answered alike.
    unfoldable pub login_of :
        ℕ → ℕ → String → Result AuthError User → Result AuthError TokenResponse
    unfolding checked_tokens
    login_of now later password (err e) = err user_not_found
    login_of now later password (ok u) =
        checked_tokens now later u (bcrypt.compare u.password password)

    unfoldable pub login : ℕ → ℕ → String → String → S → Result AuthError TokenResponse
    unfolding login_of
    login now later email password s = login_of now later password (get_by_email table email s)

    unfoldable pub refreshed : ℕ → ℕ → Result AuthError User → Result AuthError TokenResponse
    unfolding tokens_for
    refreshed now later (err e) = err user_not_found
    refreshed now later (ok u) = tokens_for text jwt service now later u

    unfoldable pub refresh_claimed : ℕ → ℕ → Option String → S → Result AuthError TokenResponse
    unfolding refreshed
    refresh_claimed now later none s = err invalid_user_id
    refresh_claimed now later (some id) s = refreshed now later (get_by_id table id s)

    unfoldable pub refresh_parsed :
        ℕ → ℕ → Result String Claims → S → Result AuthError TokenResponse
    unfolding refresh_claimed claim
    refresh_parsed now later (err e) s = err invalid_refresh_token
    refresh_parsed now later (ok claims) s =
        refresh_claimed now later (claim "user_id" claims.texts) s

    -- `RefreshToken`, with the time of the parsing and those of the two new tokens.
    unfoldable pub refresh_token : ℕ → ℕ → ℕ → String → S → Result AuthError TokenResponse
    unfolding refresh_parsed
    refresh_token at_parse now later token s =
        refresh_parsed now later (jwt.parse token service.refresh_secret at_parse) s
