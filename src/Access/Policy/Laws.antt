-- ===== src/Access/Policy/Laws.antt =====
-- What a decision of the policy engine (src/services/policy-engine.ts) means.
use webappv.Common.{
  String, ◌≡◌, refl, ◌↔◌, ◌⊎◌, inl, inr, Bool, true, false, Option, none, some, Memᴰ, arith,
  includes, includes_iff, truthy, Bool-cases, Result, ok, throw, ◌>>=◌, >>=-eq-ok, if◌then◌else◌,
}
use webappv.Access.Roles.{PermissionType, permission_equality, is_admin}
use webappv.Access.RoleProfiles.{EffectiveRolePolicy, get_effective_policy}
use webappv.Access.Accounts.{can_access_account}
use webappv.Access.Policy.{
  PolicyAction, export_pii, view_named_story, view_anonymous_story, generate_named_story,
  generate_anonymous_story, PolicyEvaluationInput, PolicyDecision, PolicyQueries, action_permission,
  pii_enabled, org_policy_denies, sensitivity_denies, evaluate_permission, evaluate_scope,
  evaluate_gates, evaluate, Reason, admin_bypass, role_profile_allow, user_permission_allow,
  account_scope_denied, allow, deny,
}

-- What an action asks of the organization's policy and of the role's story switches.
abbrev pub StoryAllowed : PolicyAction → EffectiveRolePolicy → Type 0
StoryAllowed view_named_story p =
    (p.can_access_named_stories ≡ true) × (p.can_generate_named_stories ≡ true)
StoryAllowed generate_named_story p =
    (p.can_access_named_stories ≡ true) × (p.can_generate_named_stories ≡ true)
StoryAllowed view_anonymous_story p = p.can_access_anonymous_stories ≡ true
StoryAllowed generate_anonymous_story p = p.can_generate_anonymous_stories ≡ true
StoryAllowed _ p = Unit

abbrev pub ExportAllowed : PolicyAction → Option (Option Bool) → Type 0
ExportAllowed export_pii flag = pii_enabled flag ≡ true
ExportAllowed _ flag = Unit

org_policy_denies_iff :
    (a : PolicyAction) (flag : Option (Option Bool))
    → (org_policy_denies a flag ≡ false) ↔ ExportAllowed a flag
unfolding org_policy_denies
org_policy_denies_iff export_pii flag = ground arith
org_policy_denies_iff _ flag = (λ _. tt, λ _. refl)

sensitivity_denies_iff :
    (a : PolicyAction) (p : EffectiveRolePolicy)
    → (sensitivity_denies a p ≡ false) ↔ StoryAllowed a p
unfolding sensitivity_denies
sensitivity_denies_iff view_named_story p = ground arith
sensitivity_denies_iff generate_named_story p = ground arith
sensitivity_denies_iff view_anonymous_story p = ground arith
sensitivity_denies_iff generate_anonymous_story p = ground arith
sensitivity_denies_iff _ p = (λ _. tt, λ _. refl)

-- a decision behind the account check that allows has passed the check
scope_passed :
    (m : Result Bool) (k : Result PolicyDecision) (d : PolicyDecision)
    → (m >>= λ b. if b then k else ok (deny account_scope_denied)) ≡ ok d
    → d.allowed ≡ true
    → (m ≡ ok true) × (k ≡ ok d)
scope_passed (ok true) k d h e = (refl, h)
scope_passed (ok false) k d h e = ground arith
scope_passed (throw x) k d h e = cc

module _ (q : PolicyQueries) (input : PolicyEvaluationInput) where
  -- The permission that the action needs, if any, comes with the role or is given to the user.
  abbrev pub PermissionHeld : Option PermissionType → EffectiveRolePolicy → Type 0
  PermissionHeld none p = Unit
  PermissionHeld (some required) p =
      Memᴰ required p.permissions ⊎ (q.has_user_permission input.user_id required ≡ ok true)

  abbrev pub AccountAllowed : Option String → Type 0
  AccountAllowed none = Unit
  AccountAllowed (some account_id) =
      can_access_account q.find_grants input.user_id input.organization_id account_id
        input.user_role
      ≡ ok true

  -- All that a user who is no owner or admin needs.
  pub record Permits : Type 0 where
    pub role_policy : EffectiveRolePolicy
    pub effective :
        get_effective_policy q.find_assignment input.organization_id input.user_id input.user_role
        ≡ ok role_policy
    pub export : ExportAllowed input.action input.pii_export_enabled
    pub story : StoryAllowed input.action role_policy
    pub account : AccountAllowed (truthy input.account_id)
    pub permission : PermissionHeld (action_permission input.action) role_policy

  evaluate_permission_sound :
      (o : Option PermissionType) (p : EffectiveRolePolicy) (d : PolicyDecision)
      → evaluate_permission q input o p ≡ ok d
      → d.allowed ≡ true
      → PermissionHeld o p
  unfolding evaluate_permission
  evaluate_permission_sound none p d h e = tt
  evaluate_permission_sound (some r) p d h e = elim (Bool-cases (includes p.permissions r)) [
    | inl held ↦ inl ((includes_iff _ _).0 held)
    | inr not_held ↦ inr (ground arith)
  ]

  evaluate_permission_complete :
      (o : Option PermissionType) (p : EffectiveRolePolicy)
      → PermissionHeld o p
      → (d : PolicyDecision) × (evaluate_permission q input o p ≡ ok d) × (d.allowed ≡ true)
  unfolding evaluate_permission
  evaluate_permission_complete none p h = (allow role_profile_allow none, refl, refl)
  evaluate_permission_complete (some r) p (inl m) =
      (allow role_profile_allow (some r), rw ((includes_iff _ _).1 m), refl)
  evaluate_permission_complete (some r) p (inr g) = elim (Bool-cases (includes p.permissions r)) [
    | inl held ↦ (allow role_profile_allow (some r), rw held, refl)
    | inr not_held ↦ (allow user_permission_allow (some r), rw (not_held, g), refl)
  ]

  evaluate_scope_sound :
      (o : Option String) (p : EffectiveRolePolicy) (d : PolicyDecision)
      → evaluate_scope q input o p ≡ ok d
      → d.allowed ≡ true
      → AccountAllowed o × PermissionHeld (action_permission input.action) p
  unfolding evaluate_scope
  evaluate_scope_sound none p d h e = (tt, evaluate_permission_sound _ p d h e)
  evaluate_scope_sound (some a) p d h e =
      let (passed, rest) = scope_passed _ _ d h e in
      (passed, evaluate_permission_sound _ p d rest e)

  evaluate_scope_complete :
      (o : Option String) (p : EffectiveRolePolicy)
      → AccountAllowed o
      → PermissionHeld (action_permission input.action) p
      → (d : PolicyDecision) × (evaluate_scope q input o p ≡ ok d) × (d.allowed ≡ true)
  unfolding evaluate_scope
  evaluate_scope_complete none p a h = evaluate_permission_complete _ p h
  evaluate_scope_complete (some i) p a h = rw a (evaluate_permission_complete _ p h)

  -- the role policy that the user has, as `evaluate` asks for it
  abbrev pub role_policy_of : Result EffectiveRolePolicy
  role_policy_of =
      get_effective_policy q.find_assignment input.organization_id input.user_id input.user_role

  gates_sound :
      (p : EffectiveRolePolicy) (d : PolicyDecision)
      → role_policy_of ≡ ok p
      → evaluate_gates q input p ≡ ok d
      → d.allowed ≡ true
      → Permits
  unfolding evaluate_gates
  gates_sound p d r h e =
      let no_export : org_policy_denies input.action input.pii_export_enabled ≡ false =
        ground arith in
      let no_story : sensitivity_denies input.action p ≡ false = ground arith in
      let (account, permission) =
        evaluate_scope_sound (truthy input.account_id) p d (ground arith) e in
      record {
        role_policy = p;
        effective = r;
        export = (org_policy_denies_iff _ _).0 no_export;
        story = (sensitivity_denies_iff _ _).0 no_story;
        account = account;
        permission = permission;
      }

  gates_complete :
      (w : Permits)
      → (d : PolicyDecision) × (evaluate_gates q input w.role_policy ≡ ok d) × (d.allowed ≡ true)
  unfolding evaluate_gates
  gates_complete w =
      rw ((org_policy_denies_iff _ _).1 w.export, (sensitivity_denies_iff _ _).1 w.story)
        (evaluate_scope_complete _ w.role_policy w.account w.permission)

  -- The engine allows an action exactly for an owner or admin, or where the role policy, the
  -- export switch, the story switches, the account scope and the permission all let it pass; and
  -- in that case no query throws.
  pub evaluate-allowed_iff :
      ((d : PolicyDecision) × (evaluate q input ≡ ok d) × (d.allowed ≡ true))
      ↔ ((is_admin input.user_role ≡ true) ⊎ Permits)
  unfolding evaluate
  evaluate-allowed_iff = (to, from)
    where
      to :
          (d : PolicyDecision) × (evaluate q input ≡ ok d) × (d.allowed ≡ true)
          → (is_admin input.user_role ≡ true) ⊎ Permits
      to (d, h, e) = elim (Bool-cases (is_admin input.user_role)) [
        | inl a ↦ inl a
        | inr n ↦
            let (p, r, rest) = >>=-eq-ok role_policy_of (evaluate_gates q input) (rw n at h) in
            inr (gates_sound p d r rest e)
      ]

      from :
          (is_admin input.user_role ≡ true) ⊎ Permits
          → (d : PolicyDecision) × (evaluate q input ≡ ok d) × (d.allowed ≡ true)
      from (inl a) = (allow admin_bypass none, rw a, refl)
      from (inr w) = elim (Bool-cases (is_admin input.user_role)) [
        | inl a ↦ (allow admin_bypass none, rw a, refl)
        | inr n ↦ rw (n, w.effective) (gates_complete w)
      ]

-- Whether a reason is one of those that the source gives with `allowed: true`.
abbrev pub is_allow_reason : Reason → Bool
is_allow_reason admin_bypass = true
is_allow_reason role_profile_allow = true
is_allow_reason user_permission_allow = true
is_allow_reason _ = false

module _ (q : PolicyQueries) (input : PolicyEvaluationInput) where
  evaluate_permission_reason :
      (o : Option PermissionType) (p : EffectiveRolePolicy) (d : PolicyDecision)
      → evaluate_permission q input o p ≡ ok d
      → d.allowed ≡ is_allow_reason d.reason
  unfolding evaluate_permission
  evaluate_permission_reason none p d h = ground arith
  evaluate_permission_reason (some r) p d h = ground arith

  evaluate_scope_reason :
      (o : Option String) (p : EffectiveRolePolicy) (d : PolicyDecision)
      → evaluate_scope q input o p ≡ ok d
      → d.allowed ≡ is_allow_reason d.reason
  unfolding evaluate_scope
  evaluate_scope_reason none p d h = evaluate_permission_reason _ p d h
  evaluate_scope_reason (some a) p d h =
      ground (arith, evaluate_permission_reason (action_permission input.action) p d)

  evaluate_gates_reason :
      (p : EffectiveRolePolicy) (d : PolicyDecision)
      → evaluate_gates q input p ≡ ok d
      → d.allowed ≡ is_allow_reason d.reason
  unfolding evaluate_gates
  evaluate_gates_reason p d h = ground (arith, evaluate_scope_reason (truthy input.account_id) p d)

  -- On every branch the decision's reason is one of the three allowing reasons exactly if the
  -- decision allows.
  evaluate_reason :
      (d : PolicyDecision) → evaluate q input ≡ ok d → d.allowed ≡ is_allow_reason d.reason
  unfolding evaluate
  evaluate_reason d h = elim (Bool-cases (is_admin input.user_role)) [
    | inl a ↦ ground arith
    | inr n ↦
        let (p, _, rest) =
          >>=-eq-ok (role_policy_of q input) (evaluate_gates q input) (rw n at h) in
        evaluate_gates_reason p d rest
  ]
