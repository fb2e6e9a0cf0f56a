-- ===== src/Auth/Roles.antt =====
-- `RBACAuthorizer` of pkg/auth/rbac.go, with the users, roles and permissions of
-- pkg/types/user.go. A role and a permission are strings, as in the source; a nil user is none.
pub mod Grants
mod Tests
use text.Mathlib.Text.{◌==◌ as str_eq}
use zenlive.Common.{ℕ, String, Bool, true, false, List, [], ◌∷◌, Option, none, some, if◌then◌else◌}

abbrev pub UserRole : Type 0
UserRole = String

abbrev pub Permission : Type 0
Permission = String

pub record User (Value : Type 0) : Type 0 where
  pub id : String
  pub username : String
  pub email : String
  pub role : UserRole
  pub created_at : ℕ
  pub updated_at : ℕ
  pub is_active : Bool
  pub metadata : List (String × Value)

abbrev pub admin_permissions : List Permission
admin_permissions =
    "stream:create" ∷ "stream:delete" ∷ "stream:update" ∷ "stream:view" ∷ "stream:publish"
    ∷ "chat:send" ∷ "chat:moderate" ∷ "user:manage" ∷ []

abbrev pub moderator_permissions : List Permission
moderator_permissions = "stream:view" ∷ "chat:send" ∷ "chat:moderate" ∷ []

abbrev pub streamer_permissions : List Permission
streamer_permissions =
    "stream:create" ∷ "stream:update" ∷ "stream:view" ∷ "stream:publish" ∷ "chat:send" ∷ []

abbrev pub viewer_permissions : List Permission
viewer_permissions = "stream:view" ∷ "chat:send" ∷ []

unfoldable pub get_role_permissions : UserRole → List Permission
get_role_permissions role =
    if str_eq role "admin"
    then admin_permissions
    else if str_eq role "moderator"
    then moderator_permissions
    else if str_eq role "streamer"
    then streamer_permissions
    else if str_eq role "viewer"
    then viewer_permissions
    else []

-- `for _, p := range list { if p == x { return true } }; return false`
unfoldable pub contains : String → List String → Bool
contains x [] = false
contains x (p ∷ list) = if str_eq p x then true else contains x list

pub data AuthError : Type 0 where
  not_authenticated insufficient_permissions insufficient_role : AuthError

module _ {Value : Type 0} where
  unfoldable pub has_permission : Option (User Value) → Permission → Bool
  has_permission none permission = false
  has_permission (some user) permission = contains permission (get_role_permissions user.role)

  unfoldable pub authorize : Option (User Value) → Permission → String → Option AuthError
  authorize none permission resource_id = some not_authenticated
  authorize (some user) permission resource_id =
      if has_permission (some user) permission then none else some insufficient_permissions

  unfoldable pub has_role : Option (User Value) → UserRole → Bool
  has_role none role = false
  has_role (some user) role = str_eq user.role role

  -- The loop compares the user's role with each of the roles.
  unfoldable pub has_any_role : Option (User Value) → List UserRole → Bool
  has_any_role none roles = false
  has_any_role (some user) [] = false
  has_any_role (some user) (role ∷ roles) =
      let rest = has_any_role (some user) roles in if str_eq user.role role then true else rest

  unfoldable pub require_permission : Option (User Value) → Permission → Option AuthError
  require_permission user permission =
      if has_permission user permission then none else some insufficient_permissions

  unfoldable pub require_role : Option (User Value) → UserRole → Option AuthError
  require_role user role = if has_role user role then none else some insufficient_role

  unfoldable pub require_any_role : Option (User Value) → List UserRole → Option AuthError
  require_any_role user roles = if has_any_role user roles then none else some insufficient_role
