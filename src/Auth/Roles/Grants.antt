-- ===== src/Auth/Roles/Grants.antt =====
-- Who may do what, by the authorizer of rbac.go.
use text.Mathlib.Text.{◌==◌ as str_eq}
use text.Mathlib.TextEquality.{eq_iff}
use mathlib.Core.Logic.{◌↔◌}
use zenlive.Common.{
  ◌≡◌, ◌⊎◌, refl, String, true, List, [], ◌∷◌, none, some, if_cases, Bool-cases, inl, inr,
}
use zenlive.Auth.Roles.{
  User, Permission, admin_permissions, moderator_permissions, streamer_permissions,
  viewer_permissions, get_role_permissions, contains, has_permission, authorize,
}

-- The string is one of the list.
abbrev IsIn : String → List String → Type 0
IsIn x [] = ⊥
IsIn x (p ∷ list) = (p ≡ x) ⊎ IsIn x list

contains-IsIn : (x : String) (list : List String) → (contains x list ≡ true) ↔ IsIn x list
unfolding contains
contains-IsIn x [] = (λ e. absurd cc, λ b. absurd b)
contains-IsIn x (p ∷ list) = elim (Bool-cases (str_eq p x)) [
  | inl e ↦ rw e (λ _. inl ((eq_iff p x).0 e), λ _. refl)
  | inr e ↦ rw e (
    λ h. inr ((contains-IsIn x list).0 h),
    λ o. elim o [
      | inl q ↦ absurd (let t : str_eq p x ≡ true = (eq_iff p x).1 q in cc)
      | inr m ↦ (contains-IsIn x list).1 m
    ],
  )
]

moderators : (p : String) → IsIn p moderator_permissions → IsIn p admin_permissions
moderators p (inl e) = inr (inr (inr (inl e)))
moderators p (inr (inl e)) = inr (inr (inr (inr (inr (inl e)))))
moderators p (inr (inr (inl e))) = inr (inr (inr (inr (inr (inr (inl e))))))
moderators p (inr (inr (inr m))) = absurd m

streamers : (p : String) → IsIn p streamer_permissions → IsIn p admin_permissions
streamers p (inl e) = inl e
streamers p (inr (inl e)) = inr (inr (inl e))
streamers p (inr (inr (inl e))) = inr (inr (inr (inl e)))
streamers p (inr (inr (inr (inl e)))) = inr (inr (inr (inr (inl e))))
streamers p (inr (inr (inr (inr (inl e))))) = inr (inr (inr (inr (inr (inl e)))))
streamers p (inr (inr (inr (inr (inr m))))) = absurd m

viewers : (p : String) → IsIn p viewer_permissions → IsIn p admin_permissions
viewers p (inl e) = inr (inr (inr (inl e)))
viewers p (inr (inl e)) = inr (inr (inr (inr (inr (inl e)))))
viewers p (inr (inr m)) = absurd m

every_role :
    (role permission : String)
    → IsIn permission (get_role_permissions role)
    → IsIn permission admin_permissions
unfolding get_role_permissions
every_role role permission =
    let Below : List Permission → Type 0 =
      λ l. IsIn permission l → IsIn permission admin_permissions in
    if_cases Below (str_eq role "admin") _ _ (λ _ m. m)
      λ _.
        if_cases Below (str_eq role "moderator") _ _ (λ _. moderators permission)
          λ _.
            if_cases Below (str_eq role "streamer") _ _ (λ _. streamers permission)
              λ _.
                if_cases Below (str_eq role "viewer") _ _ (λ _. viewers permission)
                  (λ _ m. absurd m)

admins :
    (permission : String)
    → IsIn permission admin_permissions
    → IsIn permission (get_role_permissions "admin")
unfolding get_role_permissions
admins permission m = m

module _ {Value : Type 0} where
  -- The authorizer lets a user through exactly if the permission is in the list of the user's
  -- role; whether the account is active plays no part.
  authorize-IsIn :
      (user : User Value) (permission : Permission) (resource_id : String)
      → (authorize (some user) permission resource_id ≡ none)
        ↔ IsIn permission (get_role_permissions user.role)
  unfolding authorize has_permission
  authorize-IsIn user permission resource_id =
      elim (Bool-cases (contains permission (get_role_permissions user.role))) [
        | inl e ↦
            rw e (λ _. (contains-IsIn permission (get_role_permissions user.role)).0 e, λ _. refl)
        | inr e ↦ rw e (
          λ h. absurd cc,
          λ m.
              absurd
                (let t = (contains-IsIn permission (get_role_permissions user.role)).1 m in cc),
        )
      ]

  -- Whatever a user may do, an administrator may do.
  authorize-admin :
      (user boss : User Value) (permission resource_id : String)
      → boss.role ≡ "admin"
      → authorize (some user) permission resource_id ≡ none
      → authorize (some boss) permission resource_id ≡ none
  authorize-admin user boss permission resource_id e h =
      (authorize-IsIn boss permission resource_id).1 (
        rw e (
          admins permission
            (every_role user.role permission ((authorize-IsIn user permission resource_id).0 h))))
