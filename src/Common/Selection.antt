-- ===== src/Common/Selection.antt =====
-- Tables as lists of rows: what a query finds, and what a change of the rows that meet a test leaves.
use Prim.Native.String.{String}
use mathlib.Core.Path.{◌≡◌, refl, sym, ap, ◌∙◌, subst}
use mathlib.Core.Logic.{◌⊎◌, inl, inr}
use mathlib.Core.Bool.{Bool, true, false, ◌&&◌}
use mathlib.Core.Option.{none, some}
use mathlib.Core.List.{List, [], ◌∷◌, ◌++◌, Memᴰ, map}
use native.Mathlib.Omega.{arith}
use webappv.Common.Equality.{if◌then◌else◌, Bool-cases, both_ways, string_equality}
use webappv.Common.Lists.{any, select, update_where, find, includes, includes_iff}

pub some_injective {ℓ} : {A : Type ℓ} {a b : A} → some a ≡ some b → a ≡ b
some_injective h = cc

module _ {ℓ} {A : Type ℓ} where
  -- A second change that concerns none of the elements after the first one does nothing.
  pub update_where-apart :
      (p q : A → Bool) (change change' : A → A) (xs : List A)
      → ((x : A) → q (if p x then change x else x) ≡ false)
      → update_where q change' (update_where p change xs) ≡ update_where p change xs
  update_where-apart p q change change' [] h = refl
  update_where-apart p q change change' (x ∷ xs) h =
      rw (h x, update_where-apart p q change change' xs h) refl

  -- A second change that takes back the first one on each element takes it back on the list.
  pub update_where-undo :
      (p q : A → Bool) (change back : A → A) (xs : List A)
      → ((x : A) → Memᴰ x xs → p x ≡ true → (q (change x) ≡ true) × (back (change x) ≡ x))
      → ((x : A) → Memᴰ x xs → p x ≡ false → q x ≡ false)
      → update_where q back (update_where p change xs) ≡ xs
  update_where-undo p q change back [] h n = refl
  update_where-undo p q change back (x ∷ xs) h n =
      let rest =
        update_where-undo p q change back xs (λ y m. h y (Memᴰ.tail m))
          (λ y m. n y (Memᴰ.tail m)) in
      elim (Bool-cases (p x)) [
        | inl e ↦ let (t, b) = h x (Memᴰ.head refl) e in rw (e, t, b, rest) refl
        | inr e ↦ rw (e, n x (Memᴰ.head refl) e, rest) refl
      ]

  pub find-mem :
      (p : A → Bool) (xs : List A) {a : A} → find p xs ≡ some a → Memᴰ a xs × (p a ≡ true)
  find-mem p [] h = cc
  find-mem p (x ∷ xs) h = elim (Bool-cases (p x)) [
    | inl e ↦
        let same = some_injective (sym (rw e refl) ∙ h) in
        (Memᴰ.head (sym same), sym (ap p same) ∙ e)
    | inr e ↦ let (m, t) = find-mem p xs (sym (rw e refl) ∙ h) in (Memᴰ.tail m, t)
  ]

  pub find-select :
      (p q : A → Bool) (xs : List A)
      → ((x : A) → q x ≡ true → p x ≡ false)
      → find p (select q xs) ≡ none
  find-select p q [] h = refl
  find-select p q (x ∷ xs) h = elim (Bool-cases (q x)) [
    | inl e ↦ rw (e, h x e) (find-select p q xs h)
    | inr e ↦ rw e (find-select p q xs h)
  ]

  pub select-mem :
      (p : A → Bool) {a : A} {xs : List A} → Memᴰ a (select p xs) → Memᴰ a xs × (p a ≡ true)
  select-mem p {a} {xs} m = go xs m
    where
      go : (ys : List A) → Memᴰ a (select p ys) → Memᴰ a ys × (p a ≡ true)
      go [] n = elim n [ ]
      go (y ∷ ys) n = elim (Bool-cases (p y)) [
        | inr e ↦ let (k, t) = go ys (subst (λ zs. Memᴰ a zs) (rw e refl) n) in (Memᴰ.tail k, t)
        | inl e ↦ elim (subst (λ zs. Memᴰ a zs) {y = y ∷ select p ys} (rw e refl) n) [
          | Memᴰ.head q ↦ (Memᴰ.head q, ap p q ∙ e)
          | Memᴰ.tail k ↦ let (k', t) = go ys k in (Memᴰ.tail k', t)
        ]
      ]

  pub mem-select :
      (p : A → Bool) {a : A} {xs : List A} → Memᴰ a xs → p a ≡ true → Memᴰ a (select p xs)
  mem-select p (Memᴰ.head {x} q) t = rw (ap p (sym q) ∙ t) (Memᴰ.head q)
  mem-select p (Memᴰ.tail {x} m) t = elim (Bool-cases (p x)) [
    | inl e ↦ rw e (Memᴰ.tail (mem-select p m t))
    | inr e ↦ rw e (mem-select p m t)
  ]

  pub update_where-mem :
      (p : A → Bool) (change : A → A) {a : A} (xs : List A)
      → Memᴰ a (update_where p change xs)
      → (Memᴰ a xs × (p a ≡ false)) ⊎ ((b : A) × Memᴰ b xs × (p b ≡ true) × (a ≡ change b))
  update_where-mem p change [] m = elim m [ ]
  update_where-mem p change (x ∷ xs) (Memᴰ.head q) = elim (Bool-cases (p x)) [
    | inl e ↦ inr (x, Memᴰ.head refl, e, q ∙ rw e refl)
    | inr e ↦ let same = q ∙ rw e refl in inl (Memᴰ.head same, ap p same ∙ e)
  ]
  update_where-mem p change (x ∷ xs) (Memᴰ.tail m) = elim (update_where-mem p change xs m) [
    | inl (n, t) ↦ inl (Memᴰ.tail n, t)
    | inr (b, n, t, q) ↦ inr (b, Memᴰ.tail n, t, q)
  ]

  pub any-update_where :
      (p q : A → Bool) (change : A → A) (xs : List A)
      → ((x : A) → q (if p x then change x else x) ≡ false)
      → any q (update_where p change xs) ≡ false
  any-update_where p q change [] h = refl
  any-update_where p q change (x ∷ xs) h = rw (h x) (any-update_where p q change xs h)

  pub find-update_where :
      (p : A → Bool) (change : A → A) (xs : List A) {a : A}
      → ((x : A) → p x ≡ true → p (change x) ≡ true)
      → find p xs ≡ some a
      → find p (update_where p change xs) ≡ some (change a)
  find-update_where p change [] h e = cc
  find-update_where p change (x ∷ xs) h e = elim (Bool-cases (p x)) [
    | inl t ↦
        let same = some_injective (sym (rw t refl) ∙ e) in
        rw (t, h x t) (ap (λ y. some (change y)) same)
    | inr n ↦ rw (n, n) (find-update_where p change xs h (sym (rw n refl) ∙ e))
  ]

  -- A change that keeps what is searched for.
  pub find-update_other :
      (p q : A → Bool) (change : A → A) (xs : List A) {a : A}
      → ((x : A) → p (change x) ≡ p x)
      → find p xs ≡ some a
      → find p (update_where q change xs) ≡ some (if q a then change a else a)
  find-update_other p q change [] h e = cc
  find-update_other p q change (x ∷ xs) h e = elim (Bool-cases (p x)) [
    | inl t ↦
        let same = some_injective (sym (rw t refl) ∙ e) in
        rw (kept x ∙ t) (ap (λ y. some (if q y then change y else y)) same)
    | inr n ↦ rw (kept x ∙ n) (find-update_other p q change xs h (sym (rw n refl) ∙ e))
  ]
    where
      kept : (y : A) → p (if q y then change y else y) ≡ p y
      kept y = elim (Bool-cases (q y)) [ inl t ↦ rw t (h y) | inr n ↦ rw n refl ]

  pub find-append :
      (p : A → Bool) (xs ys : List A) → any p xs ≡ false → find p (xs ++ ys) ≡ find p ys
  find-append p [] ys h = refl
  find-append p (x ∷ xs) ys h = ground (arith, find-append p xs ys)

  pub any-false :
      (p : A → Bool) (xs : List A) → ((x : A) → Memᴰ x xs → p x ≡ false) → any p xs ≡ false
  any-false p [] h = refl
  any-false p (x ∷ xs) h = rw (h x (Memᴰ.head refl)) (any-false p xs (λ y m. h y (Memᴰ.tail m)))

map-mem :
    {A B : Type 0} (f : A → B) {b : B} (xs : List A)
    → Memᴰ b (map f xs)
    → (a : A) × Memᴰ a xs × (b ≡ f a)
map-mem f [] m = elim m [ ]
map-mem f (x ∷ xs) (Memᴰ.head q) = (x, Memᴰ.head refl, q)
map-mem f (x ∷ xs) (Memᴰ.tail m) = let (a, n, q) = map-mem f xs m in (a, Memᴰ.tail n, q)

pub mem-map : {A B : Type 0} (f : A → B) {a : A} {xs : List A} → Memᴰ a xs → Memᴰ (f a) (map f xs)
mem-map f (Memᴰ.head q) = Memᴰ.head (ap f q)
mem-map f (Memᴰ.tail m) = Memᴰ.tail (mem-map f m)

-- The rows that were moved, found by their keys among the rows of the new owner and moved back:
-- the table is as it was, where a key belongs to one row.
pub restore_moved :
    {A : Type 0} (key : A → String) (p ours : A → Bool) (change back : A → A) (xs : List A)
    → ((x y : A) → Memᴰ x xs → Memᴰ y xs → key x ≡ key y → x ≡ y)
    → ((x : A) → (key (change x) ≡ key x) × (ours (change x) ≡ true))
    → ((x : A) → p x ≡ true → back (change x) ≡ x)
    → update_where
        (λ x. includes (map key (select p xs)) (key x) && ours x)
        back
        (update_where p change xs)
      ≡ xs
restore_moved {A} key p ours change back xs unique moved backs =
    update_where-undo p _ change back xs
      (λ x m e. (
        rw (
          (moved x).0,
          (moved x).1,
          (includes_iff (map key (select p xs)) (key x)).1 (mem-map key (mem-select p m e)),
        ),
        backs x e,
      ))
      apart
  where
    apart :
        (x : A)
        → Memᴰ x xs
        → p x ≡ false
        → (includes (map key (select p xs)) (key x) && ours x) ≡ false
    apart x m e = elim (Bool-cases (includes (map key (select p xs)) (key x))) [
      | inr n ↦ rw n
      | inl t ↦
          let (y, in_xs, same) =
            map-mem key _ ((includes_iff (map key (select p xs)) (key x)).0 t) in
          let (n, held) = select-mem p in_xs in both_ways (ap p (unique x y m n same) ∙ held) e
    ]
