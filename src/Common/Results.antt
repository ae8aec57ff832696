-- ===== src/Common/Results.antt =====
-- A call that may throw, with `await` as bind and `try`/`catch` as a handler.
use mathlib.Core.Path.{◌≡◌, refl}
use Prim.Native.String.{String}
use mathlib.Core.Bool.{Bool, true, false}
use webappv.Common.Equality.{if◌then◌else◌}

-- `throw` carries the error's message.
pub data Result {ℓ} (A : Type ℓ) : Type ℓ where
  throw : (message : String) → Result A
  ok : A → Result A

infixl 5 ◌>>=◌
abbrev pub ◌>>=◌ {ℓ ℓ'} :
    {A : Type ℓ} {B : Type ℓ'} (call : Result A) → (rest : A → Result B) → Result B
throw message >>= rest = throw message
ok value >>= rest = rest value

-- `try { … } catch (err) { … }`
abbrev pub catch {ℓ} : {A : Type ℓ} → Result A → (String → A) → A
catch (throw message) handler = handler message
catch (ok value) handler = value

-- What follows an `await` runs on its value.
pub >>=-eq-ok {ℓ ℓ'} :
    {A : Type ℓ} {B : Type ℓ'} (call : Result A) (rest : A → Result B) {b : B}
    → (call >>= rest) ≡ ok b
    → (a : A) × (call ≡ ok a) × (rest a ≡ ok b)
>>=-eq-ok (throw message) rest h = cc
>>=-eq-ok (ok value) rest h = (value, refl, h)

pub ok_injective {ℓ} : {A : Type ℓ} {a b : A} → ok a ≡ ok b → a ≡ b
ok_injective h = cc

-- What follows a guard that throws.
pub guard-eq-ok {ℓ} :
    {A : Type ℓ} (b : Bool) (message : String) (call : Result A) {a : A}
    → (if b then throw message else call) ≡ ok a
    → (b ≡ false) × (call ≡ ok a)
guard-eq-ok true message call h = cc
guard-eq-ok false message call h = (refl, h)

-- The call returns.
abbrev pub IsOk {ℓ} : {A : Type ℓ} → Result A → Type ℓ
IsOk {A} call = (a : A) × (call ≡ ok a)

pub >>=-IsOk {ℓ ℓ'} :
    {A : Type ℓ} {B : Type ℓ'} (call : Result A) (rest : A → Result B) {a : A}
    → call ≡ ok a
    → IsOk (rest a)
    → IsOk (call >>= rest)
>>=-IsOk call rest e (b, h) = (b, rw e h)

pub guard-ok {ℓ} :
    {A : Type ℓ} (b : Bool) (message : String) (a : A)
    → b ≡ false
    → (if b then throw message else ok a) ≡ ok a
guard-ok b message a e = rw e refl
