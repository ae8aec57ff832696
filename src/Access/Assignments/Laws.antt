-- ===== src/Access/Assignments/Laws.antt =====
-- What a user may do once a role is assigned (src/services/role-profiles.ts).
use mathlib.Core.List.{append-nil}
use text.Mathlib.TextEquality.{eq_iff}
use webappv.Common.{
  String, ◌≡◌, refl, ◌≢◌, ap, inl, inr, Bool, true, false, not, Option, some, List, [], ◌∷◌, ◌++◌,
  arith, ◌==◌, string_equality, select, find-mem, Memᴰ, Bool-cases, Option-cases, Result, ok,
}
use webappv.Access.Roles.{UserRole, is_admin}
use webappv.Access.Schema.{RoleProfile}
use webappv.Access.RoleProfiles.{policy_of_profile, get_effective_policy}
use webappv.Access.Assignments.{
  Tables, default_grant, is_of, assigner, assigned, find_profile, has_user, assign_role_to_user,
  grants_of, assignment_of,
}

select-append :
    {A : Type 0} (p : A → Bool) (xs ys : List A) → select p (xs ++ ys) ≡ select p xs ++ select p ys
select-append p [] ys = refl
select-append p (x ∷ xs) ys = ground (arith, select-append p xs ys)

select_none : {A : Type 0} (p : A → Bool) (xs : List A) → select p (select (λ x. not (p x)) xs) ≡ []
select_none p [] = refl
select_none p (x ∷ xs) = ground (arith, select_none p xs)

select_apart :
    {A : Type 0} (p q : A → Bool) (xs : List A)
    → ((x : A) → p x ≡ true → q x ≡ false)
    → select p (select (λ x. not (q x)) xs) ≡ select p xs
select_apart p q [] h = refl
select_apart p q (x ∷ xs) h = ground (arith, select_apart p q xs h, h x)

-- a list of which the part in question is replaced by a new element
only_new :
    {A : Type 0} (p : A → Bool) (xs : List A) (a : A)
    → p a ≡ true
    → select p (select (λ x. not (p x)) xs ++ a ∷ []) ≡ a ∷ []
only_new p xs a h =
    rw (select-append p (select (λ x. not (p x)) xs) (a ∷ []), select_none p xs) (rw h)

new_apart :
    {A : Type 0} (p q : A → Bool) (xs : List A) (a : A)
    → ((x : A) → p x ≡ true → q x ≡ false)
    → p a ≡ false
    → select p (select (λ x. not (q x)) xs ++ a ∷ []) ≡ select p xs
new_apart p q xs a h n =
    rw (select-append p (select (λ x. not (q x)) xs) (a ∷ []), select_apart p q xs h)
      (rw n (append-nil (select p xs)))

module _ (organization_id user_id new_id : String) (assigned_by : Option String)
    (role_profile_id : String) (t : Tables) where
  abbrev assign : Result Tables
  assign = assign_role_to_user organization_id user_id new_id assigned_by role_profile_id t

  assign_cases :
      (t' : Tables)
      → assign ≡ ok t'
      → (p : RoleProfile) × (find_profile organization_id user_id new_id assigned_by role_profile_id
            t
          ≡ some p)
        × (t' ≡ assigned organization_id user_id new_id assigned_by p t)
  unfolding assign_role_to_user
  assign_cases t' h =
      elim (Option-cases
        (find_profile organization_id user_id new_id assigned_by role_profile_id t)) [
          | inl e ↦ absurd (ground arith)
          | inr (p, e) ↦ elim (Bool-cases (has_user organization_id user_id new_id assigned_by t)) [
            | inl f ↦ (p, e, ground arith)
            | inr f ↦ absurd (ground arith)
          ]
        ]

  -- the new grant, alone
  only_grant :
      (p : RoleProfile)
      → select
          (is_of organization_id user_id)
          (assigned organization_id user_id new_id assigned_by p t).grants
        ≡ default_grant new_id organization_id user_id assigned_by p ∷ []
  unfolding assigned default_grant
  only_grant p =
      let f = is_of organization_id user_id in
      only_new f t.grants (default_grant new_id organization_id user_id assigned_by p)
        (ground (arith, eq_iff user_id user_id, eq_iff organization_id organization_id))

  own_assignment :
      (p : RoleProfile)
      → (assigned organization_id user_id new_id assigned_by p t).assignments user_id
        ≡ some (record {
          user_id = user_id;
          role_profile = p;
          assigned_by_id = assigner assigned_by (t.assignments user_id);
        })
  unfolding assigned
  own_assignment p = rw ((eq_iff user_id user_id).1 refl)

  own_policy :
      (p : RoleProfile) (role : Option UserRole)
      → is_admin role ≡ false
      → p.organization_id ≡ organization_id
      → get_effective_policy
          (assignment_of (assigned organization_id user_id new_id assigned_by p t))
          organization_id
          user_id
          role
        ≡ ok (policy_of_profile p)
  unfolding get_effective_policy
  own_policy p role n e =
      let same : (p.organization_id == organization_id) ≡ true =
        (eq_iff p.organization_id organization_id).1 e in
      rw (n, own_assignment p) (rw same)

  -- An assignment that is made is of the role profile with the id asked for, one of the table and
  -- of the organization. From then on it decides
  -- the policy of the user, if no owner or admin, and the user's grants there are exactly the one
  -- that goes with the profile.
  pub assign_role_to_user_gives :
      (t' : Tables) (role : Option UserRole)
      → assign_role_to_user organization_id user_id new_id assigned_by role_profile_id t ≡ ok t'
      → is_admin role ≡ false
      → (p : RoleProfile) × Memᴰ p t.profiles
        × (p.id ≡ role_profile_id)
        × (p.organization_id ≡ organization_id)
        × (get_effective_policy (assignment_of t') organization_id user_id role
            ≡ ok (policy_of_profile p))
        × (grants_of t' user_id organization_id
            ≡ ok (default_grant new_id organization_id user_id assigned_by p ∷ []))
  assign_role_to_user_gives t' role h n =
      let (p, found, made) = assign_cases t' h in
      let (listed, held) = find-mem _ t.profiles found in
      (
        p,
        listed,
        ground (arith, eq_iff p.id role_profile_id),
        ground (arith, eq_iff p.organization_id organization_id),
        rw made (own_policy p role n (ground (arith, eq_iff p.organization_id organization_id))),
        rw made (ap ok (only_grant p)),
      )

  -- An assignment leaves the assignment, the limits and the grants of every other user as they are.
  assign_role_to_user-other :
      (t' : Tables) (other : String)
      → assign_role_to_user organization_id user_id new_id assigned_by role_profile_id t ≡ ok t'
      → user_id ≢ other
      → (assignment_of t' other ≡ assignment_of t other)
        × ((o : String) → t'.usage_limits o other ≡ t.usage_limits o other)
        × ((o : String) → grants_of t' other o ≡ grants_of t other o)
  unfolding assigned default_grant
  assign_role_to_user-other t' other h n =
      let (p, found, made) = assign_cases t' h in
      let apart : (other == user_id) ≡ false = ground (arith, eq_iff other user_id) in
      let apart' : (user_id == other) ≡ false = ground (arith, eq_iff user_id other) in
      rw made (
        rw apart,
        λ o. ground arith,
        λ o. ap ok (
            new_apart (is_of o other) (is_of organization_id user_id) t.grants
              (default_grant new_id organization_id user_id assigned_by p)
              (λ g e. ground (arith, eq_iff g.user_id other, eq_iff g.user_id user_id))
              (ground arith)),
      )
