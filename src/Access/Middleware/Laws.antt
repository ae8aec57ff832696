-- ===== src/Access/Middleware/Laws.antt =====
-- When the guards of src/middleware/permissions.ts call `next`.
use text.Mathlib.TextEquality.{eq_iff}
use webappv.Common.{
  String, ◌≡◌, refl, sym, ◌∙◌, ◌↔◌, ◌⊎◌, inl, inr, true, false, Option, none, some, arith,
  string_equality, truthy, Bool-cases, Option-cases, Result, ok, throw, ◌>>=◌, catch, ok_injective,
}
use webappv.Access.Roles.{UserRole, permission_equality, is_admin}
use webappv.Access.Policy.{
  PolicyAction, PolicyEvaluationInput, PolicyDecision, PolicyQueries, evaluate,
  legacy_permission_action_to_policy_action,
}
use webappv.Access.Policy.Laws.{Permits, evaluate-allowed_iff}
use webappv.Access.Middleware.{
  Response, next, AuthRequest, OrgSettings, check_failed, feature_gate,
  require_landing_pages_enabled, publisher_allowed, governance_flag, decide, permission_checks,
  permission_for, require_permission,
}

-- The request is of a known user in a known organization.
pub record IsSignedIn (req : AuthRequest) : Type 0 where
  pub user_id : String
  pub organization_id : String
  pub user : truthy req.user_id ≡ some user_id
  pub organization : truthy req.organization_id ≡ some organization_id

-- No settings yet, or settings that leave landing pages on.
pub data IsOn : Option OrgSettings → Type 0 where
  unset : IsOn none
  enabled : (s : OrgSettings) → s.landing_pages_enabled ≡ true → IsOn (some s)

-- The organization of the request is known, and its settings can be read and are on.
pub record IsSwitchedOn (find_settings : String → Result (Option OrgSettings)) (req : AuthRequest)
    : Type 0 where
  pub organization_id : String
  pub settings : Option OrgSettings
  pub organization : truthy req.organization_id ≡ some organization_id
  pub found : find_settings organization_id ≡ ok settings
  pub on : IsOn settings

feature_gate_sound : (s : Option OrgSettings) → feature_gate s ≡ next → IsOn s
feature_gate_sound none h = unset
feature_gate_sound (some s) h = enabled s (ground arith)

feature_gate_complete : {s : Option OrgSettings} → IsOn s → feature_gate s ≡ next
feature_gate_complete unset = refl
feature_gate_complete (enabled s e) = rw e

-- an answer behind a query of which the failure is answered by `check_failed`
pub catch-eq-next :
    {A : Type 0} (m : Result A) (f : A → Result Response)
    → catch (m >>= f) check_failed ≡ next
    → (a : A) × (m ≡ ok a) × (catch (f a) check_failed ≡ next)
catch-eq-next (ok a) f h = (a, refl, h)
catch-eq-next (throw e) f h = cc

module _ (find_settings : String → Result (Option OrgSettings)) (req : AuthRequest) where
  gate_sound :
      require_landing_pages_enabled find_settings req ≡ next → IsSwitchedOn find_settings req
  unfolding require_landing_pages_enabled
  gate_sound h = elim (Option-cases (truthy req.organization_id)) [
    | inl e ↦ absurd (ground arith)
    | inr (o, e) ↦
        let (settings, found, rest) =
          catch-eq-next (find_settings o) (λ s. ok (feature_gate s))
            (rw (e, require_landing_pages_enabled) at h) in
        record {
          organization_id = o;
          settings = settings;
          organization = e;
          found = found;
          on = feature_gate_sound settings rest;
        }
  ]

  -- The kill switch: a request passes exactly if its organization is known, the settings can be
  -- read, and they are absent or leave landing pages on.
  pub require_landing_pages_enabled-next_iff :
      (require_landing_pages_enabled find_settings req ≡ next) ↔ IsSwitchedOn find_settings req
  unfolding require_landing_pages_enabled
  require_landing_pages_enabled-next_iff = (
    gate_sound,
    λ w.
        rw (w.organization, require_landing_pages_enabled)
          (rw w.found (feature_gate_complete w.on)),
  )

-- what `requirePermission` asks of the policy engine
abbrev pub request_input :
    PolicyAction → String → String → Option UserRole → Option OrgSettings → PolicyEvaluationInput
request_input action user_id organization_id user_role settings = record {
  action = action;
  organization_id = organization_id;
  user_id = user_id;
  user_role = user_role;
  account_id = none;
  pii_export_enabled = governance_flag settings;
}

module _ (q : PolicyQueries) (find_settings : String → Result (Option OrgSettings)) where
  -- How a user who is no owner or admin passes `requirePermission`: the action is known, the
  -- settings can be read, the engine answers, and it allows, or the action is "publish" and the
  -- user's role is among the organization's publishers.
  pub record Passes (action user_id organization_id : String) (user_role : Option UserRole)
      : Type 0 where
    pub policy_action : PolicyAction
    pub settings : Option OrgSettings
    pub known : legacy_permission_action_to_policy_action action ≡ some policy_action
    pub found : find_settings organization_id ≡ ok settings
    pub decision : PolicyDecision
    pub answered :
        evaluate q (request_input policy_action user_id organization_id user_role settings)
        ≡ ok decision
    pub allowed :
        Permits q (request_input policy_action user_id organization_id user_role settings)
        ⊎ ((action ≡ "publish") × (publisher_allowed settings user_role ≡ true))

  decide-eq-next :
      (action : String) (s : Option OrgSettings) (r : Option UserRole) (d : PolicyDecision)
      → decide action s r d ≡ next
      → (d.allowed ≡ true) ⊎ ((action ≡ "publish") × (publisher_allowed s r ≡ true))
  unfolding decide
  decide-eq-next action s r d h = ground (arith, eq_iff action "publish")

  module _ (action u o : String) (r : Option UserRole) (n : is_admin r ≡ false) where
    permits_of_allowed :
        (pa : PolicyAction) (s : Option OrgSettings) (d : PolicyDecision)
        → evaluate q (request_input pa u o r s) ≡ ok d
        → d.allowed ≡ true
        → Permits q (request_input pa u o r s)
    permits_of_allowed pa s d e a =
        elim ((evaluate-allowed_iff q (request_input pa u o r s)).0 (d, e, a)) [
          | inl b ↦ cc
          | inr w ↦ w
        ]

    permission_for_sound : permission_for q find_settings action u o r ≡ next → Passes action u o r
    unfolding permission_for permission_checks
    permission_for_sound h =
        elim (Option-cases (legacy_permission_action_to_policy_action action)) [
          | inl e ↦ absurd (ground arith)
          | inr (pa, e) ↦
              let (s, found, rest) =
                catch-eq-next (find_settings o) _ (rw (n, e, permission_for) at h) in
              let (d, answered, last) =
                catch-eq-next (evaluate q (request_input pa u o r s)) _ rest in
              record {
                policy_action = pa;
                settings = s;
                known = e;
                found = found;
                decision = d;
                answered = answered;
                allowed = elim (decide-eq-next action s r d last) [
                  | inl a ↦ inl (permits_of_allowed pa s d answered a)
                  | inr p ↦ inr p
                ];
              }
        ]

    decide_complete : (w : Passes action u o r) → decide action w.settings r w.decision ≡ next
    unfolding decide
    decide_complete w = elim w.allowed [
      | inl p ↦
          let input = request_input w.policy_action u o r w.settings in
          let (d, e, a) = (evaluate-allowed_iff q input).1 (inr p) in
          let same : d ≡ w.decision = ok_injective (sym e ∙ w.answered) in
          let b : w.decision.allowed ≡ true = rw (← same) a in ground arith
      | inr p ↦ ground (arith, eq_iff action "publish")
    ]

    permission_for_complete :
        Passes action u o r → permission_for q find_settings action u o r ≡ next
    unfolding permission_for permission_checks
    permission_for_complete w =
        rw (n, w.known, permission_for) (rw w.found (rw w.answered (rw (decide_complete w))))

  -- A request passes `requirePermission` exactly if it is of a known user in a known organization
  -- who is an owner or admin, or passes the settings query and the engine as `Passes` says. So a
  -- query that throws, an unknown action and a denied user never reach the handler.
  pub require_permission-next_iff :
      (action : String) (req : AuthRequest)
      → (require_permission q find_settings action req ≡ next) ↔ (
          (w : IsSignedIn req) × ((is_admin req.user_role ≡ true)
            ⊎ Passes action w.user_id w.organization_id req.user_role))
  unfolding require_permission
  require_permission-next_iff action req = (to, from)
    where
      to :
          require_permission q find_settings action req ≡ next
          → (w : IsSignedIn req) × ((is_admin req.user_role ≡ true)
              ⊎ Passes action w.user_id w.organization_id req.user_role)
      to h = elim (Option-cases (truthy req.user_id)) [
        | inl e ↦ absurd (ground arith)
        | inr (u, e) ↦ elim (Option-cases (truthy req.organization_id)) [
          | inl f ↦ absurd (ground arith)
          | inr (o, f) ↦
              let passed = rw (e, f, require_permission) at h in
              (
                record { user_id = u; organization_id = o; user = e; organization = f },
                elim (Bool-cases (is_admin req.user_role)) [
                  | inl a ↦ inl a
                  | inr n ↦ inr (permission_for_sound action u o req.user_role n passed)
                ],
              )
        ]
      ]

      from :
          (w : IsSignedIn req) × ((is_admin req.user_role ≡ true)
              ⊎ Passes action w.user_id w.organization_id req.user_role)
          → require_permission q find_settings action req ≡ next
      from (w, c) =
          rw (w.user, w.organization, require_permission)
            (elim c [
              | inl a ↦ unfold permission_for in rw a
              | inr p ↦ elim (Bool-cases (is_admin req.user_role)) [
                | inl a ↦ unfold permission_for in rw a
                | inr n ↦
                    permission_for_complete action w.user_id w.organization_id req.user_role n p
              ]
            ])
