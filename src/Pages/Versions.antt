-- ===== src/Pages/Versions.antt =====
-- src/services/landing-page-editor-helpers.ts, `createArtifactVersion`, and the rollback: the versions
-- of a page under every operation.
use webappv.Common.{
  ◌+◌, ◌≤◌, ◌<◌, ◌≡◌, refl, ◌∙◌, ap, sym, Bool, true, false, ◌&&◌, List, [], ◌∷◌, Memᴰ, arith,
  if◌then◌else◌, ◌==◌, string_equality, length, select, update_where, update_where-mem, select-mem,
  Bool-cases, both_ways, ◌⊎◌, inl, inr,
}
use webappv.Common.{
  length-select-update, length-select-none, length-select-append, length-select-select, mem-append,
  and_false, both, at_most_one, not_counted,
}
use webappv.Pages.{LandingPage, Version, VersionStatus, active, is_active}
use webappv.Pages.Editor.{is_version_of, is_active_of, max_version, next_version}

-- At most one version of a page is active, and no two of its versions have the same number.
pub record IsVersioned (p : LandingPage) (versions : List Version) : Type 0 where
  pub one_active : length (select (is_active_of p) versions) ≤ 1
  pub numbered :
      (v w : Version)
      → Memᴰ v versions
      → Memᴰ w versions
      → is_version_of p v ≡ true
      → is_version_of p w ≡ true
      → v.version_number ≡ w.version_number
      → v.id ≡ w.id

max_version-bound :
    (p : LandingPage) (versions : List Version) {v : Version}
    → Memᴰ v versions
    → is_version_of p v ≡ true
    → v.version_number ≤ max_version p versions
unfolding max_version
max_version-bound p [] m t = elim m [ ]
max_version-bound p (w ∷ versions) (Memᴰ.head e) t =
    rw (ap (is_version_of p) (sym e) ∙ t, e) (omega arith)
max_version-bound p (w ∷ versions) (Memᴰ.tail m) t =
    let bound = max_version-bound p versions m t in
    elim (Bool-cases (is_version_of p w)) [
      | inl e ↦ rw e (omega (arith, bound))
      | inr e ↦ rw e bound
    ]

is_version_of_ids :
    (p q : LandingPage)
    → p.id ≡ q.id
    → p.organization_id ≡ q.organization_id
    → (v : Version) → is_version_of p v ≡ is_version_of q v
is_version_of_ids p q i o v = rw (i, o) refl

-- The page of a version, by the version.
owner :
    (p : LandingPage) (v : Version)
    → is_version_of p v ≡ true
    → (v.landing_page_id ≡ p.id) × (v.organization_id ≡ p.organization_id)
owner p v h = elim (Bool-cases (v.landing_page_id == p.id)) [
  | inl e ↦
      ((string_equality.beq_iff _ _).0 e, (string_equality.beq_iff _ _).0 (sym (rw e refl) ∙ h))
  | inr e ↦ both_ways h (rw e)
]

module _ (retired : VersionStatus) (inactive : is_active retired ≡ false) (version : Version)
    (p q : LandingPage) (versions : List Version) (h : IsVersioned p versions) where
  abbrev retire : Version → Version
  retire v = record v { status = retired }

  abbrev newest : Version
  newest = record version {
    organization_id = q.organization_id;
    landing_page_id = q.id;
    version_number = max_version q versions + 1;
    status = active;
  }

  -- What a version after the operation has from one before it.
  earlier :
      (v : Version)
      → Memᴰ v (next_version retired version q versions)
      → ((b : Version) × Memᴰ b versions
          × (v.id ≡ b.id)
          × (v.version_number ≡ b.version_number)
          × (is_version_of p v ≡ is_version_of p b))
        ⊎ (v ≡ newest)
  unfolding next_version
  earlier v m = elim (mem-append (update_where (is_active_of q) retire versions) m) [
    | inr e ↦ inr e
    | inl n ↦ elim (update_where-mem (is_active_of q) retire versions n) [
      | inl (k, _) ↦ inl (v, k, refl, refl, refl)
      | inr (b, k, _, e) ↦
          inl (b, k, ap (λ x. x.id) e, ap (λ x. x.version_number) e, ap (is_version_of p) e)
    ]
  ]

  -- A version from before has a smaller number than the new one, if both are of the page.
  not_new :
      (b v : Version)
      → Memᴰ b versions
      → is_version_of p b ≡ true
      → is_version_of p v ≡ true
      → v ≡ newest
      → b.version_number < v.version_number
  not_new b v m of_p of_p' e =
      let (i, o) = owner p v of_p' in
      let same : is_version_of q b ≡ true =
        is_version_of_ids q p (sym (ap (λ x. x.landing_page_id) e) ∙ i)
          (sym (ap (λ x. x.organization_id) e) ∙ o) b
        ∙ of_p in
      omega (arith, max_version-bound q versions m same, ap (λ x. x.version_number) e)

  next-numbered :
      (v w : Version)
      → Memᴰ v (next_version retired version q versions)
      → Memᴰ w (next_version retired version q versions)
      → is_version_of p v ≡ true
      → is_version_of p w ≡ true
      → v.version_number ≡ w.version_number
      → v.id ≡ w.id
  next-numbered v w m n of_p of_p' e = elim (earlier v m) [
    | inr ev ↦ elim (earlier w n) [
      | inr ew ↦ ap (λ x. x.id) (ev ∙ sym ew)
      | inl (b, k, i, num, own) ↦
          absurd (omega (arith, not_new b v k (sym own ∙ of_p') of_p ev, num, e))
    ]
    | inl (b, k, i, num, own) ↦ elim (earlier w n) [
      | inr ew ↦ absurd (omega (arith, not_new b w k (sym own ∙ of_p) of_p' ew, num, e))
      | inl (b', k', i', num', own') ↦
          i ∙ h.numbered b b' k k' (sym own ∙ of_p) (sym own' ∙ of_p') (sym num ∙ e ∙ num') ∙ sym i'
    ]
  ]

  -- The new version is the only active one of its page.
  retired_all :
      is_version_of p newest ≡ true
      → (x : Version) → is_active_of p (if is_active_of q x then retire x else x) ≡ false
  retired_all e x =
      let (i, o) = owner p newest e in
      elim (Bool-cases (is_active_of q x)) [
        | inl t ↦ rw (t, inactive) (and_false (is_version_of p x))
        | inr t ↦
            rw t (ap (λ b. b && is_active x.status) (is_version_of_ids p q (sym i) (sym o) x) ∙ t)
      ]

  -- The versions of another page stay as they are.
  elsewhere :
      is_version_of p newest ≡ false
      → (x : Version) → is_active_of p (if is_active_of q x then retire x else x) ≡ is_active_of p x
  elsewhere e x = elim (Bool-cases (is_active_of q x)) [
    | inr t ↦ rw t refl
    | inl t ↦ elim (Bool-cases (is_version_of p x)) [
      | inr n ↦ rw (t, n) refl
      | inl y ↦
          let (i, o) = owner p x y in
          let (i', o') = owner q x (both (is_version_of q x) _ t).0 in
          both_ways
            (rw
              (
                (string_equality.beq_iff q.id p.id).1 (sym i' ∙ i),
                (string_equality.beq_iff q.organization_id p.organization_id).1 (sym o' ∙ o),
              )
              refl)
            e
    ]
  ]

  next-one_active : length (select (is_active_of p) (next_version retired version q versions)) ≤ 1
  unfolding next_version
  next-one_active =
      let appended =
        length-select-append (is_active_of p) (update_where (is_active_of q) retire versions)
          newest in
      elim (Bool-cases (is_version_of p newest)) [
        | inl e ↦ omega (
          arith,
          appended,
          length-select-none (is_active_of p) (is_active_of q) retire versions (retired_all e),
          at_most_one (is_active_of p newest),
        )
        | inr e ↦ omega (
          arith,
          appended,
          length-select-update (is_active_of p) (is_active_of q) retire versions (elsewhere e),
          h.one_active,
          not_counted (is_active_of p newest) (rw e),
        )
      ]

  pub next-IsVersioned : IsVersioned p (next_version retired version q versions)
  next-IsVersioned = record { one_active = next-one_active; numbered = next-numbered }

pub deleted-IsVersioned :
    (p : LandingPage) (keep : Version → Bool) (versions : List Version)
    → IsVersioned p versions
    → IsVersioned p (select keep versions)
deleted-IsVersioned p keep versions h = record {
  one_active = omega (arith, length-select-select (is_active_of p) keep versions, h.one_active);
  numbered = λ v w m n. h.numbered v w (select-mem keep m).0 (select-mem keep n).0;
}
