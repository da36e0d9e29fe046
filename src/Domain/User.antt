-- ===== src/Domain/User.antt =====
-- pkg/domain/user.go.
use transaction_api.Prelude.{
  Option, none, some, Bool, true, false, Result, ok, err, String, if◌then◌else◌,
}
use text.Mathlib.Text.{◌==◌ as str_eq}
use transaction_api.Domain.Base.{
  Uuid, Time, DomainError, invalid_name, invalid_email, invalid_password,
}

-- `Role`, a text that the code compares with "user" and "admin".
pub data Role : Type 0 where
  user_role admin_role : Role
  other_role : String → Role

pub record User : Type 0 where
  pub id : Uuid
  pub email : String
  pub password : String
  pub first_name : String
  pub last_name : String
  pub role : Role
  pub created_at : Time
  pub updated_at : Time

abbrev is_empty : String → Bool
is_empty s = str_eq s ""

unfoldable pub new_user :
    Uuid → Time → Time → String → String → String → String → Result DomainError User
new_user id created updated email password first_name last_name =
    if is_empty email
    then err invalid_email
    else if is_empty password
    then err invalid_password
    else if is_empty first_name
    then err invalid_name
    else if is_empty last_name
    then err invalid_name
    else ok (record {
      id = id;
      email = email;
      password = password;
      first_name = first_name;
      last_name = last_name;
      role = user_role;
      created_at = created;
      updated_at = updated;
    })

unfoldable pub update : String → String → Time → User → Option DomainError × User
update first_name last_name now u =
    if is_empty first_name
    then (some invalid_name, u)
    else if is_empty last_name
    then (some invalid_name, u)
    else (none, record u { first_name = first_name; last_name = last_name; updated_at = now })

unfoldable pub change_password : String → Time → User → Option DomainError × User
change_password new_password now u =
    if is_empty new_password
    then (some invalid_password, u)
    else (none, record u { password = new_password; updated_at = now })

unfoldable pub validate : User → Option DomainError
validate u =
    if is_empty u.first_name
    then some invalid_name
    else if is_empty u.last_name
    then some invalid_name
    else if is_empty u.email
    then some invalid_email
    else if is_empty u.password
    then some invalid_password
    else none

abbrev same_role : Role → Role → Bool
same_role user_role user_role = true
same_role admin_role admin_role = true
same_role (other_role a) (other_role b) = str_eq a b
same_role _ _ = false

unfoldable pub has_role : Role → User → Bool
has_role role u = same_role u.role role
