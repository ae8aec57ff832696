-- ===== src/Publishing/Eligibility/Laws.antt =====
-- Who may approve a step of a chain (src/services/landing-page-approval.ts).
use text.Mathlib.TextEquality.{eq_iff}
use webappv.Common.{
  String, ◌≡◌, refl, ◌≢◌, ◌↔◌, inl, inr, true, false, Option, none, some, arith, string_equality,
  opt_eq, truthy, Bool-cases, Option-cases, ok, ok_injective,
}
use webappv.Publishing.Eligibility.{
  ApproverScope, role_profile, team, user, group, self, ApprovalQueries, lacks, scope_allows,
}

pub opt_eq-some_iff : (o : Option String) (s : String) → (opt_eq o (some s) ≡ true) ↔ (o ≡ some s)
opt_eq-some_iff none s = ground arith
opt_eq-some_iff (some t) s = ground (arith, eq_iff t s)

-- A requirement that is absent, or that the value meets.
pub data Meets (value : Option String) : Option String → Type 0 where
  unasked : Meets value none
  met : (required : String) → value ≡ some required → Meets value (some required)

pub lacks_iff :
    (required value : Option String) → (lacks required value ≡ false) ↔ Meets value required
lacks_iff none value = (λ _. unasked, λ _. refl)
lacks_iff (some r) value = (
  λ h. met r ((opt_eq-some_iff value r).0 (ground arith)),
  elim [ met _ e ↦ rw ((opt_eq-some_iff value r).1 e) ],
)

module _ (q : ApprovalQueries) (organization_id user_id : String) where
  -- What a step's scope asks, by its type. The value of a scope is absent where it is the empty
  -- text.
  pub data InScope (value key requested_by : Option String) : ApproverScope → Type 0 where
    own : requested_by ≡ some user_id → InScope value key requested_by self
    named : value ≡ some user_id → InScope value key requested_by user
    in_group :
        (g : String)
        → value ≡ some g
        → q.is_group_member organization_id g user_id ≡ ok true
        → InScope value key requested_by group
    team_admin :
        (t : String)
        → value ≡ some t
        → key ≡ some "TEAM_APPROVAL_ADMIN"
        → q.has_team_scope organization_id user_id t ≡ ok true
        → InScope value key requested_by team
    in_team :
        (t : String)
        → value ≡ some t
        → key ≢ some "TEAM_APPROVAL_ADMIN"
        → key ≡ some t
        → InScope value key requested_by team
    any_profile :
        (k : String)
        → value ≡ none
        → truthy key ≡ some k
        → InScope value key requested_by role_profile
    with_profile :
        (v : String) → value ≡ some v → key ≡ some v → InScope value key requested_by role_profile

  pub scope_sound :
      (s : ApproverScope) (value key by : Option String)
      → scope_allows q organization_id user_id s value key by ≡ ok true
      → InScope value key by s
  unfolding scope_allows
  scope_sound self value key by h = own ((opt_eq-some_iff by user_id).0 (ok_injective h))
  scope_sound user value key by h = named ((opt_eq-some_iff value user_id).0 (ok_injective h))
  scope_sound group none key by h = cc
  scope_sound group (some g) key by h = in_group g refl h
  scope_sound team none key by h = cc
  scope_sound team (some t) key by h = elim (Bool-cases (opt_eq key (some "TEAM_APPROVAL_ADMIN"))) [
    | inl e ↦ team_admin t refl ((opt_eq-some_iff key _).0 e) (rw e at h)
    | inr e ↦
        in_team t refl (λ k. cc (e, (opt_eq-some_iff key "TEAM_APPROVAL_ADMIN").1 k))
          ((opt_eq-some_iff key t).0 (ok_injective (rw e at h)))
  ]
  scope_sound role_profile none key by h = elim (Option-cases (truthy key)) [
    | inl e ↦ cc (rw e at h)
    | inr (k, e) ↦ any_profile k refl e
  ]
  scope_sound role_profile (some v) key by h =
      with_profile v refl ((opt_eq-some_iff key v).0 (ok_injective h))

  pub scope_complete :
      {s : ApproverScope} (value key by : Option String)
      → InScope value key by s
      → scope_allows q organization_id user_id s value key by ≡ ok true
  unfolding scope_allows
  scope_complete value key by (own e) = rw ((opt_eq-some_iff by user_id).1 e)
  scope_complete value key by (named e) = rw ((opt_eq-some_iff value user_id).1 e)
  scope_complete value key by (in_group g e h) = rw e h
  scope_complete value key by (team_admin t e k h) =
      rw e (rw ((opt_eq-some_iff key "TEAM_APPROVAL_ADMIN").1 k) h)
  scope_complete value key by (in_team t e n k) =
      rw e (elim (Bool-cases (opt_eq key (some "TEAM_APPROVAL_ADMIN"))) [
        | inl b ↦ absurd (n ((opt_eq-some_iff key _).0 b))
        | inr b ↦ rw b (rw ((opt_eq-some_iff key t).1 k))
      ])
  scope_complete value key by (any_profile k e f) = rw (e, f)
  scope_complete value key by (with_profile v e k) = rw e (rw ((opt_eq-some_iff key v).1 k))
