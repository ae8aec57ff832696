-- ===== src/Merging/Mergeable.antt =====
-- Which two accounts `executeMerge` of src/services/account-merge.ts can merge, in a database that
-- keeps the unique index on the Salesforce ids (prisma/schema.prisma).
use text.Mathlib.TextEquality.{eq_iff}
use webappv.Common.{
  String, ◌≡◌, ◌≢◌, refl, ◌∙◌, ap, sym, ◌↔◌, Bool, true, false, ◌&&◌, Option, none, some, arith,
  ◌==◌, string_equality, Memᴰ, any, any_sound, any_complete, truthy, List, both, Option-cases,
  both_ways, IsOk, inl, inr,
}
use webappv.Merging.Database.{
  Account, Database, SalesforceEvent, StoryRegenLog, find_account, same_salesforce_id,
}
use webappv.Merging.Merge.{
  fills, or_truthy, same_value, events_clash, has_crm_updates, with_crm_updates, execute_merge,
}
use webappv.Merging.Effect.{same, found_account}
use webappv.Merging.Passing.{second_false}
use webappv.Merging.Success.{execute_merge-IsOk}

-- `@@unique([organizationId, salesforceId])`
abbrev pub HasUniqueIds : Database → Type 0
HasUniqueIds db =
    (a b : Account) (s : String)
    → Memᴰ a db.accounts
    → Memᴰ b db.accounts
    → a.organization_id ≡ b.organization_id
    → a.salesforce_id ≡ some s
    → b.salesforce_id ≡ some s
    → a.id ≡ b.id

-- a column that is filled with a text
abbrev pub IsFilled : Option String → Type 0
IsFilled o = (s : String) × (o ≡ some s) × (s ≢ "")

pub record CanMerge (primary secondary : Account) (db : Database) : Type 0 where
  pub two : primary.id ≢ secondary.id
  -- no stage of an opportunity that both accounts have an event for
  pub events_apart :
      (e f : SalesforceEvent) (opportunity stage : String)
      → Memᴰ e db.events
      → Memᴰ f db.events
      → e.account_id ≡ secondary.id
      → f.account_id ≡ primary.id
      → e.opportunity_id ≡ some opportunity
      → f.opportunity_id ≡ some opportunity
      → e.stage_name ≡ some stage
      → f.stage_name ≡ some stage
      → ⊥
  pub unlogged : (l : StoryRegenLog) → Memᴰ l db.regen_logs → l.account_id ≢ secondary.id
  pub keeps_id : IsFilled secondary.salesforce_id → IsFilled primary.salesforce_id

IsFilled-truthy : (o : Option String) {s : String} → truthy o ≡ some s → IsFilled o
IsFilled-truthy none h = cc
IsFilled-truthy (some t) {s} h = (t, refl, λ e. ground (arith, eq_iff t ""))

unfilled : (o : Option String) → truthy o ≡ none → IsFilled o → ⊥
unfilled o h (s, e, n) = ground (arith, eq_iff s "")

same_value_sound :
    (a b : Option String) → same_value a b ≡ true → (s : String) × (a ≡ some s) × (b ≡ some s)
same_value_sound none b h = cc
same_value_sound (some s) none h = cc
same_value_sound (some s) (some t) h = (s, refl, ap some (sym ((string_equality.beq_iff s t).0 h)))

-- no CRM id is taken over
kept_id : (own other : Option String) → (IsFilled other → IsFilled own) → or_truthy own other ≡ own
kept_id own other h = elim (Option-cases (truthy own)) [
  | inr (s, e) ↦ ground arith
  | inl e ↦ elim (Option-cases (truthy other)) [
    | inl f ↦ ground arith
    | inr (t, f) ↦ absurd (unfilled own e (h (IsFilled-truthy other f)))
  ]
]

-- a test that a true answer refutes
refuted : (b : Bool) → (b ≡ true → ⊥) → b ≡ false
refuted true h = absurd (h refl)
refuted false h = refl

same_id_sound :
    (account other : Account)
    → same_salesforce_id account other ≡ true
    → (s : String) × (account.salesforce_id ≡ some s)
      × (other.salesforce_id ≡ some s)
      × (other.id ≢ account.id)
      × (other.organization_id ≡ account.organization_id)
same_id_sound account other h = elim (Option-cases account.salesforce_id) [
  | inl e ↦ absurd (ground arith)
  | inr (s, e) ↦ elim (Option-cases other.salesforce_id) [
    | inl f ↦ absurd (ground arith)
    | inr (t, f) ↦ (
      s,
      e,
      ground (arith, eq_iff t s),
      λ q. ground (arith, eq_iff other.id account.id),
      ground (arith, eq_iff other.organization_id account.organization_id),
    )
  ]
]

module _ (db : Database) (primary secondary : Account) where
  events_free : CanMerge primary secondary db → events_clash primary.id secondary.id db ≡ false
  events_free c = refuted _ (λ h.
      let (e, m, q) = any_sound _ db.events h in
      let (at_secondary, rest) = both _ _ q in
      let (f, m', q') = any_sound _ db.events rest in
      let (rest', other) = both _ _ q' in
      let (at_primary, one) = both _ _ rest' in
      let (o, fo, eo) = same_value_sound f.opportunity_id e.opportunity_id one in
      let (t, ft, et) = same_value_sound f.stage_name e.stage_name other in
      c.events_apart e f o t m m' ((string_equality.beq_iff _ _).0 at_secondary)
        ((string_equality.beq_iff _ _).0 at_primary) eo fo et ft)

  same_value_refl :
      (s : String) (a b : Option String) → a ≡ some s → b ≡ some s → same_value a b ≡ true
  same_value_refl s none b h k = cc
  same_value_refl s (some x) none h k = cc
  same_value_refl s (some x) (some y) h k = ground (arith, eq_iff x y)

  clash_refutes :
      events_clash primary.id secondary.id db ≡ false
      → (e f : SalesforceEvent) (opportunity stage : String) → Memᴰ e db.events
      → Memᴰ f db.events
      → e.account_id ≡ secondary.id
      → f.account_id ≡ primary.id
      → e.opportunity_id ≡ some opportunity
      → f.opportunity_id ≡ some opportunity
      → e.stage_name ≡ some stage
      → f.stage_name ≡ some stage
      → ⊥
  clash_refutes free e f o t m m' at_secondary at_primary eo fo et ft =
      let inner : any
            (λ f.
              f.account_id == primary.id
              && same_value f.opportunity_id e.opportunity_id
              && same_value f.stage_name e.stage_name)
            db.events
          ≡ true =
        any_complete _ m' (
          rw
            (
              (string_equality.beq_iff _ _).1 at_primary,
              same_value_refl o f.opportunity_id e.opportunity_id fo eo,
              same_value_refl t f.stage_name e.stage_name ft et,
            )
            refl) in
      both_ways
        (any_complete
          (λ e.
            e.account_id == secondary.id
            && any
                (λ f.
                  f.account_id == primary.id
                  && same_value f.opportunity_id e.opportunity_id
                  && same_value f.stage_name e.stage_name)
                db.events)
          m (rw ((string_equality.beq_iff _ _).1 at_secondary, inner) refl))
        free

  ids_free :
      HasUniqueIds db
      → Memᴰ primary db.accounts
      → CanMerge primary secondary db
      → any (same_salesforce_id (with_crm_updates primary secondary)) db.accounts ≡ false
  unfolding with_crm_updates
  ids_free unique here c = refuted _ (λ h.
      let (a, m, q) = any_sound _ db.accounts h in
      let (s, own, its, others, owned) = same_id_sound (with_crm_updates primary secondary) a q in
      others (
        unique a primary s m here owned its
          (sym (kept_id primary.salesforce_id secondary.salesforce_id c.keeps_id) ∙ own)))

  takes_id :
      Memᴰ secondary db.accounts
      → secondary.organization_id ≡ primary.organization_id
      → primary.id ≢ secondary.id
      → (has_crm_updates primary secondary
          && any (same_salesforce_id (with_crm_updates primary secondary)) db.accounts)
        ≡ false
      → IsFilled secondary.salesforce_id
      → IsFilled primary.salesforce_id
  unfolding with_crm_updates
  takes_id there owned apart free (s, e, n) = elim (Option-cases (truthy primary.salesforce_id)) [
    | inr (t, f) ↦ IsFilled-truthy primary.salesforce_id f
    | inl f ↦
        let given : truthy secondary.salesforce_id ≡ some s = ground (arith, eq_iff s "") in
        let taken : or_truthy primary.salesforce_id secondary.salesforce_id ≡ some s =
          ground arith in
        let fills_it : fills primary.salesforce_id secondary.salesforce_id ≡ true = ground arith in
        let others : (secondary.id == primary.id) ≡ false =
          ground (arith, eq_iff secondary.id primary.id) in
        let clash : same_salesforce_id (with_crm_updates primary secondary) secondary ≡ true =
          rw (taken, others, e, same s, (string_equality.beq_iff _ _).1 owned) refl in
        absurd (
          both_ways
            (any_complete (same_salesforce_id (with_crm_updates primary secondary)) there clash)
            (second_false (has_crm_updates primary secondary) _ (rw fills_it) free))
  ]

unlogged_iff :
    (id : String) (logs : List StoryRegenLog)
    → (any (λ l. l.account_id == id) logs ≡ false)
      ↔ ((l : StoryRegenLog) → Memᴰ l logs → l.account_id ≢ id)
unlogged_iff id logs = (
  λ h l m e.
      both_ways (any_complete (λ l. l.account_id == id) m ((string_equality.beq_iff _ _).1 e)) h,
  λ h.
      refuted _
        (λ t. let (l, m, e) = any_sound _ logs t in h l m ((string_equality.beq_iff _ _).0 e)),
)

-- In a database whose Salesforce ids are unique in each organization, a merge of two accounts of an
-- organization goes through exactly if they are two accounts; no event of one stands for the same
-- stage of the same opportunity as an event of the other, where events without a stage or an
-- opportunity never do; the secondary account has no entry in the log of regenerated stories; and
-- the primary account has a Salesforce id if the secondary one has.
pub execute_merge-IsOk_iff :
    (organization_id new_alias_id new_run_id : String) (db : Database) {primary secondary : Account}
    → HasUniqueIds db
    → find_account organization_id primary.id db ≡ some primary
    → find_account organization_id secondary.id db ≡ some secondary
    → IsOk (execute_merge organization_id primary.id secondary.id new_alias_id new_run_id db)
      ↔ CanMerge primary secondary db
execute_merge-IsOk_iff organization_id new_alias_id new_run_id db {primary} {secondary} unique found
      found' =
    let (here, _, owned) = found_account organization_id primary.id db found in
    let (there, _, owned') = found_account organization_id secondary.id db found' in
    let (conditions, goes) =
      execute_merge-IsOk primary.id secondary.id organization_id new_alias_id new_run_id db found
        found' in
    (
      λ called.
          let (apart, events, logs, free) = conditions called in
          let two : primary.id ≢ secondary.id =
            λ e. both_ways ((string_equality.beq_iff _ _).1 e) apart in
          record {
            two = two;
            events_apart = clash_refutes db primary secondary events;
            unlogged = (unlogged_iff secondary.id db.regen_logs).0 logs;
            keeps_id = takes_id db primary secondary there (owned' ∙ sym owned) two free;
          },
      λ c. goes (
        ground (arith, eq_iff primary.id secondary.id, c.two),
        events_free db primary secondary c,
        (unlogged_iff secondary.id db.regen_logs).1 c.unlogged,
        rw (ids_free db primary secondary unique here c)
            (and_false (has_crm_updates primary secondary)),
      ),
    )
  where
    and_false : (b : Bool) → (b && false) ≡ false
    and_false true = refl
    and_false false = refl
