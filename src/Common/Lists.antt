-- ===== src/Common/Lists.antt =====
-- Lists measured by native numbers, membership, and the list methods of the source.
use Prim.Native.Nat.{ℕ, suc, ◌+◌}
use mathlib.Core.Path.{◌≡◌, refl, sym}
use mathlib.Core.Logic.{◌↔◌, inl, inr}
use mathlib.Core.Bool.{Bool, true, false, ◌||◌}
use mathlib.Core.Option.{Option, none, some}
use mathlib.Core.List.{List, [], ◌∷◌, ◌++◌, Memᴰ}
use native.Mathlib.Omega.{arith}
use webappv.Common.Equality.{if◌then◌else◌, Eq, ◌==◌, Bool-cases}

module _ {ℓ} {A : Type ℓ} where
  abbrev pub length : List A → ℕ
  length [] = 0
  length (x ∷ xs) = suc (length xs)

  abbrev pub any : (A → Bool) → List A → Bool
  any p [] = false
  any p (x ∷ xs) = p x || any p xs

  -- `xs.filter(p)`
  abbrev pub select : (A → Bool) → List A → List A
  select p [] = []
  select p (x ∷ xs) = if p x then x ∷ select p xs else select p xs

  -- `updateMany`: a change of the elements that meet a test
  abbrev pub update_where : (A → Bool) → (A → A) → List A → List A
  update_where p change [] = []
  update_where p change (x ∷ xs) = (if p x then change x else x) ∷ update_where p change xs

  -- `xs.find(p)`
  abbrev pub find : (A → Bool) → List A → Option A
  find p [] = none
  find p (x ∷ xs) = if p x then some x else find p xs

  pub length-append : (xs ys : List A) → length (xs ++ ys) ≡ length xs + length ys
  length-append [] ys = omega arith
  length-append (x ∷ xs) ys = omega (arith, length-append xs ys)

  pub any_sound :
      (p : A → Bool) (xs : List A) → any p xs ≡ true → (a : A) × Memᴰ a xs × (p a ≡ true)
  any_sound p [] h = cc
  any_sound p (x ∷ xs) h = elim (Bool-cases (p x)) [
    | inl e ↦ (x, Memᴰ.head refl, e)
    | inr e ↦ let (a, m, q) = any_sound p xs (ground arith) in (a, Memᴰ.tail m, q)
  ]

  pub any_complete : (p : A → Bool) {a : A} {xs : List A} → Memᴰ a xs → p a ≡ true → any p xs ≡ true
  any_complete p (Memᴰ.head e) q = rw (← e, q)
  any_complete p (Memᴰ.tail {x} m) q = ground (arith, any_complete p m q)

module _ {A : Type 0} ⦃e : Eq A⦄ where
  -- `xs.includes(a)`
  abbrev pub includes : List A → A → Bool
  includes [] a = false
  includes (x ∷ xs) a = x == a || includes xs a

  pub includes_iff : (xs : List A) (a : A) → (includes xs a ≡ true) ↔ Memᴰ a xs
  includes_iff xs a = (to xs, from)
    where
      to : (ys : List A) → includes ys a ≡ true → Memᴰ a ys
      to [] h = cc
      to (y ∷ ys) h = elim (Bool-cases (y == a)) [
        | inl q ↦ Memᴰ.head (sym ((e.beq_iff y a).0 q))
        | inr q ↦ Memᴰ.tail (to ys (ground arith))
      ]

      from : {ys : List A} → Memᴰ a ys → includes ys a ≡ true
      from (Memᴰ.head q) = rw ((e.beq_iff _ _).1 (sym q))
      from (Memᴰ.tail {x = y} m) = ground (arith, from m)
