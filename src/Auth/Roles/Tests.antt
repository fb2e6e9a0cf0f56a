-- ===== src/Auth/Roles/Tests.antt =====
-- A streamer and an administrator.
use zenlive.Common.{ℕ, ◌≡◌, refl, true, [], none, some}
use zenlive.Auth.Roles.{
  User, UserRole, get_role_permissions, contains, has_permission, authorize,
  insufficient_permissions,
}

abbrev member : UserRole → User ℕ
member role = record {
  id = "u1";
  username = "anna";
  email = "anna@example.org";
  role = role;
  created_at = 0;
  updated_at = 0;
  is_active = true;
  metadata = [];
}

streamer_publishes : authorize (some (member "streamer")) "stream:publish" "s1" ≡ none
unfolding get_role_permissions contains has_permission authorize
streamer_publishes = refl

viewer_refused :
    authorize (some (member "viewer")) "stream:publish" "s1" ≡ some insufficient_permissions
unfolding get_role_permissions contains has_permission authorize
viewer_refused = refl
