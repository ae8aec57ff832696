-- ===== src/Setup/Wizard/Fixes.antt =====
-- What the fixes of `applyEntityResolutionFixes` (src/services/setup-wizard.ts) do to the calls.
use webappv.Common.{
  String, ◌≡◌, refl, ◌⊎◌, inl, inr, ◌+◌, ◌≤◌, true, false, some, List, [], ◌∷◌, Memᴰ, map, arith,
  ◌==◌, string_equality, length, select, includes_iff, Bool-cases, ◌∙◌,
}
use webappv.Setup.Wizard.{
  Call, Database, EntityResolutionFix, is_unresolved, set_account, applies,
  apply_entity_resolution_fixes,
}

-- Every account of a call is an account of the organization.
abbrev pub IsLinked : Database → Type 0
IsLinked db = (c : Call) (a : String) → Memᴰ c db.calls → c.account_id ≡ some a → Memᴰ a db.accounts

set_account-mem :
    (fix : EntityResolutionFix) (calls : List Call) (c : Call) (a : String)
    → Memᴰ c (set_account fix calls)
    → c.account_id ≡ some a
    → (a ≡ fix.account_id) ⊎ ((d : Call) × Memᴰ d calls × (d.account_id ≡ some a))
unfolding set_account
set_account-mem fix [] c a m e = elim m [ ]
set_account-mem fix (d ∷ calls) c a (Memᴰ.head h) e = elim (Bool-cases (d.id == fix.call_id)) [
  | inl t ↦ inl (ground arith)
  | inr t ↦ inr (d, Memᴰ.head refl, ground arith)
]
set_account-mem fix (d ∷ calls) c a (Memᴰ.tail m) e = elim (set_account-mem fix calls c a m e) [
  | inl same ↦ inl same
  | inr (d', n, f) ↦ inr (d', Memᴰ.tail n, f)
]

set_account-unresolved :
    (fix : EntityResolutionFix) (calls : List Call)
    → length (select is_unresolved (set_account fix calls)) ≤ length (select is_unresolved calls)
unfolding set_account
set_account-unresolved fix [] = omega arith
set_account-unresolved fix (c ∷ calls) = ground (arith, set_account-unresolved fix calls)

set_account-ids :
    (fix : EntityResolutionFix) (calls : List Call)
    → map (λ c. c.id) (set_account fix calls) ≡ map (λ c. c.id) calls
unfolding set_account
set_account-ids fix [] = refl
set_account-ids fix (c ∷ calls) = ground (arith, set_account-ids fix calls)

module _ (fix : EntityResolutionFix) (fixes : List EntityResolutionFix) (db : Database) where
  abbrev with_fix : Database
  with_fix = record db { calls = set_account fix db.calls }

  applied :
      applies fix db ≡ true
      → ((apply_entity_resolution_fixes (fix ∷ fixes) db).0
          ≡ (apply_entity_resolution_fixes fixes with_fix).0)
        × ((apply_entity_resolution_fixes (fix ∷ fixes) db).1
            ≡ (apply_entity_resolution_fixes fixes with_fix).1 + 1)
  unfolding apply_entity_resolution_fixes
  applied e = (rw (e, apply_entity_resolution_fixes), rw (e, apply_entity_resolution_fixes))

  ignored :
      applies fix db ≡ false
      → apply_entity_resolution_fixes (fix ∷ fixes) db ≡ apply_entity_resolution_fixes fixes db
  unfolding apply_entity_resolution_fixes
  ignored e = rw (e, apply_entity_resolution_fixes)

set-IsLinked :
    (fix : EntityResolutionFix) (db : Database)
    → applies fix db ≡ true
    → IsLinked db
    → IsLinked (record db { calls = set_account fix db.calls })
set-IsLinked fix db e h c a m f = elim (set_account-mem fix db.calls c a m f) [
  | inl same ↦ rw same ((includes_iff db.accounts fix.account_id).0 (ground arith))
  | inr (d, n, g) ↦ h d a n g
]

-- Whatever fixes a user sends, of unknown calls or accounts too, every account of a call is one of
-- the organization afterwards if it was before.
pub apply_entity_resolution_fixes-IsLinked :
    (fixes : List EntityResolutionFix) (db : Database)
    → IsLinked db
    → IsLinked (apply_entity_resolution_fixes fixes db).0
unfolding apply_entity_resolution_fixes
apply_entity_resolution_fixes-IsLinked [] db h = h
apply_entity_resolution_fixes-IsLinked (fix ∷ fixes) db h = elim (Bool-cases (applies fix db)) [
  | inr e ↦ rw (ignored fix fixes db e) (apply_entity_resolution_fixes-IsLinked fixes db h)
  | inl e ↦ rw ((applied fix fixes db e).0) (
      apply_entity_resolution_fixes-IsLinked fixes (record db { calls = set_account fix db.calls })
        (set-IsLinked fix db e h))
]

-- Fixes lose no call and make none: the ids of the calls stay, no more calls are unresolved than
-- before, and the number of fixes reported as applied is at most that of the fixes sent.
apply_entity_resolution_fixes_safe :
    (fixes : List EntityResolutionFix) (db : Database)
    → (map (λ c. c.id) (apply_entity_resolution_fixes fixes db).0.calls ≡ map (λ c. c.id) db.calls)
      × (length (select is_unresolved (apply_entity_resolution_fixes fixes db).0.calls)
          ≤ length (select is_unresolved db.calls))
      × ((apply_entity_resolution_fixes fixes db).1 ≤ length fixes)
unfolding apply_entity_resolution_fixes
apply_entity_resolution_fixes_safe [] db = (refl, omega arith, omega arith)
apply_entity_resolution_fixes_safe (fix ∷ fixes) db = elim (Bool-cases (applies fix db)) [
  | inr e ↦
      let (ids, fewer, most) = apply_entity_resolution_fixes_safe fixes db in
      rw (ignored fix fixes db e) (ids, fewer, omega (arith, most))
  | inl e ↦
      let (ids, fewer, most) =
        apply_entity_resolution_fixes_safe fixes (record db { calls = set_account fix db.calls }) in
      let (same, counted) = applied fix fixes db e in
      rw (same, counted)
        (
          ids ∙ set_account-ids fix db.calls,
          omega (arith, fewer, set_account-unresolved fix db.calls),
          omega (arith, most),
        )
]
