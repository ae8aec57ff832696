-- ===== src/Common/Counts.antt =====
-- How many rows of a table meet a test, after a change of rows, a new row, or a deletion.
use Prim.Native.Nat.{ℕ, ◌+◌, ◌≤◌}
use mathlib.Core.Path.{◌≡◌, refl}
use mathlib.Core.Logic.{◌⊎◌, inl, inr}
use mathlib.Core.Bool.{Bool, true, false, ◌&&◌}
use mathlib.Core.List.{List, [], ◌∷◌, ◌++◌, Memᴰ}
use native.Mathlib.Omega.{arith}
use webappv.Common.Equality.{if◌then◌else◌, Bool-cases}
use webappv.Common.Lists.{length, select, update_where}

pub length-select-update :
    {A : Type 0} (p q : A → Bool) (change : A → A) (xs : List A)
    → ((x : A) → p (if q x then change x else x) ≡ p x)
    → length (select p (update_where q change xs)) ≡ length (select p xs)
length-select-update p q change [] h = refl
length-select-update p q change (x ∷ xs) h =
    let rest = length-select-update p q change xs h in
    rw (h x) (elim (Bool-cases (p x)) [ inl e ↦ rw (e, rest) refl | inr e ↦ rw (e, rest) refl ])

pub length-select-none :
    {A : Type 0} (p q : A → Bool) (change : A → A) (xs : List A)
    → ((x : A) → p (if q x then change x else x) ≡ false)
    → length (select p (update_where q change xs)) ≡ 0
length-select-none p q change [] h = refl
length-select-none p q change (x ∷ xs) h = rw (h x) (length-select-none p q change xs h)

pub length-select-append :
    {A : Type 0} (p : A → Bool) (xs : List A) (y : A)
    → length (select p (xs ++ y ∷ [])) ≡ length (select p xs) + (if p y then 1 else 0)
length-select-append p [] y = elim (Bool-cases (p y)) [ inl e ↦ rw e refl | inr e ↦ rw e refl ]
length-select-append p (x ∷ xs) y = elim (Bool-cases (p x)) [
  | inl e ↦ rw e (omega (arith, length-select-append p xs y))
  | inr e ↦ rw e (length-select-append p xs y)
]

pub mem-append : {A : Type 0} {x y : A} (xs : List A) → Memᴰ x (xs ++ y ∷ []) → Memᴰ x xs ⊎ (x ≡ y)
mem-append [] (Memᴰ.head e) = inr e
mem-append [] (Memᴰ.tail m) = elim m [ ]
mem-append (z ∷ xs) (Memᴰ.head e) = inl (Memᴰ.head e)
mem-append (z ∷ xs) (Memᴰ.tail m) = elim (mem-append xs m) [
  | inl n ↦ inl (Memᴰ.tail n)
  | inr e ↦ inr e
]

pub and_false : (b : Bool) → (b && false) ≡ false
and_false true = refl
and_false false = refl

pub both : (a b : Bool) → (a && b) ≡ true → (a ≡ true) × (b ≡ true)
both true b h = (refl, h)
both false b h = cc

pub at_most_one : (b : Bool) → (if b then 1 else 0) ≤ 1
at_most_one true = omega arith
at_most_one false = omega arith

pub not_counted : (b : Bool) → b ≡ false → ◌≡◌ {A = ℕ} (if b then 1 else 0) 0
not_counted b e = rw e refl

pub length-select-select :
    {A : Type 0} (p q : A → Bool) (xs : List A)
    → length (select p (select q xs)) ≤ length (select p xs)
length-select-select p q [] = omega arith
length-select-select p q (x ∷ xs) =
    let rest = length-select-select p q xs in
    elim (Bool-cases (p x)) [
      | inl e ↦ elim (Bool-cases (q x)) [
        | inl t ↦ rw (t, e) (omega (arith, rest))
        | inr t ↦ rw (t, e) (omega (arith, rest))
      ]
      | inr e ↦ elim (Bool-cases (q x)) [ inl t ↦ rw (t, e) rest | inr t ↦ rw (t, e) rest ]
    ]
