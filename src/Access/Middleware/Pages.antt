-- ===== src/Access/Middleware/Pages.antt =====
-- When `requirePageOwnerOrPermission` of src/middleware/permissions.ts calls `next`.
use text.Mathlib.TextEquality.{eq_iff}
use webappv.Common.{
  String, ◌≡◌, ◌↔◌, ◌⊎◌, inl, inr, true, Option, some, Memᴰ, arith, ◌==◌, string_equality, includes,
  includes_iff, truthy, Bool-cases, Option-cases, ok, catch,
}
use webappv.Access.Roles.{UserRole, PermissionType, permission_equality, is_admin}
use webappv.Access.RoleProfiles.{EffectiveRolePolicy, get_effective_policy}
use webappv.Access.Middleware.{
  next, AuthRequest, check_failed, PageQueries, edit_any_checks, page_checks, page_access,
  require_page_owner_or_permission,
}
use webappv.Access.Middleware.Laws.{IsSignedIn, catch-eq-next}

module _ (q : PageQueries) where
  -- How a user who is no owner or admin may edit a page: it is in the organization, and the user
  -- made it, or the right to edit any page comes with the role or is given to the user.
  pub data MayEdit (page_id user_id organization_id : String) (r : Option UserRole) : Type 0 where
    creator :
        q.find_page_creator page_id organization_id ≡ ok (some user_id)
        → MayEdit page_id user_id organization_id r
    by_role :
        (created_by : String) (p : EffectiveRolePolicy)
        → q.find_page_creator page_id organization_id ≡ ok (some created_by)
        → get_effective_policy q.find_assignment organization_id user_id r ≡ ok p
        → Memᴰ PermissionType.edit_any_landing_page p.permissions
        → MayEdit page_id user_id organization_id r
    by_grant :
        (created_by : String) (p : EffectiveRolePolicy)
        → q.find_page_creator page_id organization_id ≡ ok (some created_by)
        → get_effective_policy q.find_assignment organization_id user_id r ≡ ok p
        → q.has_user_permission user_id PermissionType.edit_any_landing_page ≡ ok true
        → MayEdit page_id user_id organization_id r

  module _ (page_id u o : String) (r : Option UserRole) where
    edit_any_sound :
        (c : String)
        → q.find_page_creator page_id o ≡ ok (some c)
        → catch (edit_any_checks q u o r) check_failed ≡ next
        → MayEdit page_id u o r
    unfolding edit_any_checks
    edit_any_sound c page h =
        let (p, effective, rest) =
          catch-eq-next (get_effective_policy q.find_assignment o u r) _ h in
        elim (Bool-cases (includes p.permissions PermissionType.edit_any_landing_page)) [
          | inl m ↦ by_role c p page effective ((includes_iff _ _).0 m)
          | inr m ↦
              let (b, granted, last) =
                catch-eq-next (q.has_user_permission u PermissionType.edit_any_landing_page) _
                  (rw m at rest) in
              by_grant c p page effective (ground arith)
        ]

    page_checks_sound :
        catch (page_checks q page_id u o r) check_failed ≡ next → MayEdit page_id u o r
    unfolding page_checks
    page_checks_sound h =
        let (page, found, rest) = catch-eq-next (q.find_page_creator page_id o) _ h in
        elim (Option-cases page) [
          | inl e ↦ absurd (ground arith)
          | inr (c, e) ↦ elim (Bool-cases (c == u)) [
            | inl same ↦ creator (rw (← ((eq_iff c u).0 same), ← e) found)
            | inr other ↦ edit_any_sound c (rw e at found) (rw (e, other) at rest)
          ]
        ]

    page_checks_complete :
        MayEdit page_id u o r → catch (page_checks q page_id u o r) check_failed ≡ next
    unfolding page_checks edit_any_checks
    page_checks_complete (creator page) = ground (arith, eq_iff u u)
    page_checks_complete (by_role c p page effective m) = rw page (elim (Bool-cases (c == u)) [
      | inl same ↦ rw same
      | inr other ↦ rw other (rw effective (rw ((includes_iff _ _).1 m)))
    ])
    page_checks_complete (by_grant c p page effective g) = rw page (elim (Bool-cases (c == u)) [
      | inl same ↦ rw same
      | inr other ↦ rw other (
          rw effective
            (elim (Bool-cases (includes p.permissions PermissionType.edit_any_landing_page)) [
              | inl m ↦ rw m
              | inr m ↦ rw m (rw g)
            ]))
    ])

  -- A request passes the page guard exactly if it is of a known user in a known organization who
  -- is an owner or admin, or may edit the page as `MayEdit` says; where a query throws it fails.
  pub require_page_owner_or_permission-next_iff :
      (page_id : String) (req : AuthRequest)
      → (require_page_owner_or_permission q page_id req ≡ next) ↔ (
          (w : IsSignedIn req) × ((is_admin req.user_role ≡ true)
            ⊎ MayEdit page_id w.user_id w.organization_id req.user_role))
  unfolding require_page_owner_or_permission page_access
  require_page_owner_or_permission-next_iff page_id req = (to, from)
    where
      to :
          require_page_owner_or_permission q page_id req ≡ next
          → (w : IsSignedIn req) × ((is_admin req.user_role ≡ true)
              ⊎ MayEdit page_id w.user_id w.organization_id req.user_role)
      to h = elim (Option-cases (truthy req.user_id)) [
        | inl e ↦ absurd (ground arith)
        | inr (u, e) ↦ elim (Option-cases (truthy req.organization_id)) [
          | inl f ↦ absurd (ground arith)
          | inr (o, f) ↦
              let passed = rw (e, f, require_page_owner_or_permission) at h in
              (
                record { user_id = u; organization_id = o; user = e; organization = f },
                elim (Bool-cases (is_admin req.user_role)) [
                  | inl a ↦ inl a
                  | inr n ↦ inr (page_checks_sound page_id u o req.user_role (rw n at passed))
                ],
              )
        ]
      ]

      from :
          (w : IsSignedIn req) × ((is_admin req.user_role ≡ true)
              ⊎ MayEdit page_id w.user_id w.organization_id req.user_role)
          → require_page_owner_or_permission q page_id req ≡ next
      from (w, c) =
          rw (w.user, w.organization, require_page_owner_or_permission)
            (elim c [
              | inl a ↦ rw a
              | inr p ↦ elim (Bool-cases (is_admin req.user_role)) [
                | inl a ↦ rw a
                | inr n ↦
                    rw n (page_checks_complete page_id w.user_id w.organization_id req.user_role p)
              ]
            ])
