-- ===== src/Publishing/Eligibility/Steps.antt =====
-- `canUserApproveStep` of src/services/landing-page-approval.ts against a description of who is
-- eligible.
use text.Mathlib.TextEquality.{eq_iff}
use webappv.Common.{
  String, ◌≡◌, refl, ◌≢◌, ◌↔◌, ◌⊎◌, inl, inr, Bool, true, false, not, ◌&&◌, Option, none, some,
  arith, string_equality, opt_eq, truthy, Bool-cases, Option-cases, ok, >>=-eq-ok,
}
use webappv.Access.Schema.{Assignment}
use webappv.Publishing.Eligibility.{
  ApproverScope, self, PublishApprovalStep, Params, role_name, ApprovalQueries, role_profile_key,
  lacks, scope_or_default, key_allows, step_allows, can_user_approve_step,
}
use webappv.Publishing.Eligibility.Laws.{
  opt_eq-some_iff, Meets, lacks_iff, InScope, own, named, in_group, team_admin, in_team,
  any_profile, with_profile, scope_sound, scope_complete,
}

-- A billing or approval admin, whatever the step says.
abbrev pub IsApprovalAdmin : Option String → Type 0
IsApprovalAdmin key = (key ≡ some "BILLING_ADMIN") ⊎ (key ≡ some "APPROVAL_ADMIN")

truthy_again : (o : Option String) (s : String) → truthy o ≡ some s → truthy (some s) ≡ some s
truthy_again none s h = cc
truthy_again (some t) s h = ground (arith, eq_iff t "", eq_iff s "")

module _ (q : ApprovalQueries) (organization_id user_id : String) where
  -- What a step asks of a user with the role profile `key`.
  pub data MayApprove (step : PublishApprovalStep) (requested_by key : Option String) : Type 0 where
    as_admin : IsApprovalAdmin key → MayApprove step requested_by key
    by_rules :
        Meets key (truthy step.required_role_profile_key)
        → (step.allow_self_approval ≡ true) ⊎ (truthy requested_by ≢ some user_id)
        → InScope q organization_id user_id
            (truthy step.approver_scope_value)
            key
            requested_by
            (scope_or_default step.approver_scope_type)
        → MayApprove step requested_by key

  InScope-self :
      {value key by : Option String} {s : ApproverScope}
      → InScope q organization_id user_id value key by s
      → s ≡ self
      → by ≡ some user_id
  InScope-self (own e) h = e
  InScope-self (named e) h = cc
  InScope-self (in_group g e f) h = cc
  InScope-self (team_admin t e f g) h = cc
  InScope-self (in_team t e f g) h = cc
  InScope-self (any_profile k e f) h = cc
  InScope-self (with_profile v e f) h = cc

  not_own :
      (allow : Bool) (by : Option String)
      → (not allow && opt_eq by (some user_id)) ≡ false
      → (allow ≡ true) ⊎ (by ≢ some user_id)
  not_own true by h = inl refl
  not_own false by h = inr (λ e. cc (h, (opt_eq-some_iff by user_id).1 e))

  not_own_complete :
      (allow : Bool) (by : Option String)
      → (allow ≡ true) ⊎ (by ≢ some user_id)
      → (not allow && opt_eq by (some user_id)) ≡ false
  not_own_complete true by h = refl
  not_own_complete false by (inl e) = cc
  not_own_complete false by (inr n) = elim (Bool-cases (opt_eq by (some user_id))) [
    | inl e ↦ absurd (n ((opt_eq-some_iff by user_id).0 e))
    | inr e ↦ e
  ]

  module _ (step : PublishApprovalStep) (by key : Option String) where
    key_sound : key_allows q organization_id user_id step by key ≡ ok true → MayApprove step by key
    unfolding key_allows
    key_sound h = elim (Bool-cases (opt_eq key (some "BILLING_ADMIN"))) [
      | inl e ↦ as_admin (inl ((opt_eq-some_iff key _).0 e))
      | inr e ↦ elim (Bool-cases (opt_eq key (some "APPROVAL_ADMIN"))) [
        | inl f ↦ as_admin (inr ((opt_eq-some_iff key _).0 f))
        | inr f ↦
            let met : lacks (truthy step.required_role_profile_key) key ≡ false = ground arith in
            let other : (not step.allow_self_approval && opt_eq (truthy by) (some user_id))
                ≡ false =
              ground arith in
            by_rules ((lacks_iff _ key).0 met) (not_own _ _ other) (
              scope_sound q organization_id user_id _ _ key by
                (rw (e, f, met, other, key_allows) at h))
      ]
    ]

    key_complete :
        MayApprove step by key → key_allows q organization_id user_id step by key ≡ ok true
    unfolding key_allows
    key_complete (as_admin (inl e)) = rw ((opt_eq-some_iff key "BILLING_ADMIN").1 e)
    key_complete (as_admin (inr e)) = elim (Bool-cases (opt_eq key (some "BILLING_ADMIN"))) [
      | inl b ↦ rw b
      | inr b ↦ rw b (rw ((opt_eq-some_iff key "APPROVAL_ADMIN").1 e))
    ]
    key_complete (by_rules m s c) = elim (Bool-cases (opt_eq key (some "BILLING_ADMIN"))) [
      | inl b ↦ rw b
      | inr b ↦ elim (Bool-cases (opt_eq key (some "APPROVAL_ADMIN"))) [
        | inl d ↦ rw (b, d)
        | inr d ↦
            rw (b, d, (lacks_iff _ key).1 m, not_own_complete _ _ s)
              (scope_complete q organization_id user_id _ key by c)
      ]
    ]

-- A known user in a known organization, whose role the step accepts, whose role profile can be
-- read, and who may approve the step with it.
pub record IsEligible (q : ApprovalQueries) (params : Params) (step : PublishApprovalStep)
    (requested_by : Option String) : Type 0 where
  pub organization_id : String
  pub user_id : String
  pub organization : truthy params.organization_id ≡ some organization_id
  pub user : truthy params.user_id ≡ some user_id
  pub role : Meets (role_name params.user_role) (truthy step.required_user_role)
  pub assignment : Option Assignment
  pub found : q.find_assignment user_id ≡ ok assignment
  pub may :
      MayApprove q organization_id user_id step requested_by
        (role_profile_key assignment organization_id)

module _ (q : ApprovalQueries) (params : Params) (step : PublishApprovalStep)
    (requested_by : Option String) where
  IsEligible-sound :
      can_user_approve_step q params step requested_by ≡ ok true
      → IsEligible q params step requested_by
  unfolding can_user_approve_step step_allows
  IsEligible-sound h = elim (Option-cases (truthy params.organization_id)) [
    | inl e ↦ absurd (ground arith)
    | inr (o, e) ↦ elim (Option-cases (truthy params.user_id)) [
      | inl f ↦ absurd (ground arith)
      | inr (u, f) ↦
          let h' = rw (e, f, can_user_approve_step) at h in
          let role : lacks (truthy step.required_user_role) (role_name params.user_role) ≡ false =
            ground arith in
          let (a, found, rest) =
            >>=-eq-ok (q.find_assignment u)
              (λ a. key_allows q o u step requested_by (role_profile_key a o)) (rw role at h') in
          record {
            organization_id = o;
            user_id = u;
            organization = e;
            user = f;
            role = (lacks_iff _ _).0 role;
            assignment = a;
            found = found;
            may = key_sound q o u step requested_by (role_profile_key a o) rest;
          }
    ]
  ]

  -- `canUserApproveStep` answers true exactly for the eligible users.
  pub can_user_approve_step_iff :
      (can_user_approve_step q params step requested_by ≡ ok true)
      ↔ IsEligible q params step requested_by
  unfolding can_user_approve_step step_allows
  can_user_approve_step_iff = (
    IsEligible-sound,
    λ w.
        rw (w.organization, w.user, can_user_approve_step)
          (rw ((lacks_iff _ _).1 w.role)
            (rw w.found (key_complete q w.organization_id w.user_id step requested_by _ w.may))),
  )

  -- A step in the scope SELF that does not allow self approval can be approved by a billing or
  -- approval admin only.
  self_scope_needs_admin :
      (user_id organization_id : String) (a : Option Assignment)
      → truthy params.user_id ≡ some user_id
      → truthy params.organization_id ≡ some organization_id
      → q.find_assignment user_id ≡ ok a
      → step.approver_scope_type ≡ some self
      → step.allow_self_approval ≡ false
      → can_user_approve_step q params step requested_by ≡ ok true
      → IsApprovalAdmin (role_profile_key a organization_id)
  unfolding can_user_approve_step step_allows
  self_scope_needs_admin u o a hu ho ha s n h =
      let h' = rw (ho, hu, can_user_approve_step) at h in
      let role : lacks (truthy step.required_user_role) (role_name params.user_role) ≡ false =
        ground arith in
      let h'' : key_allows q o u step requested_by (role_profile_key a o) ≡ ok true =
        rw (role, ha) at h' in
      elim (key_sound q o u step requested_by (role_profile_key a o) h'') [
        | as_admin i ↦ i
        | by_rules _ free scope ↦
            let own = InScope-self q o u scope (rw s) in
            elim free [
              | inl e ↦ cc
              | inr other ↦ absurd (other (rw own (truthy_again params.user_id u hu)))
            ]
      ]
