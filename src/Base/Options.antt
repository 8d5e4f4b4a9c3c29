-- ===== src/Base/Options.antt =====
-- Optional results that are there, with a property.
use mathlib.Core.Path.{◌≡◌, refl}
use mathlib.Core.Bool.{Bool, true, false}
use mathlib.Core.Option.{Option, none, some}
use tcpremote_device_control.Base.Tests.{if◌then◌else◌}

-- The option is some value with the property.
abbrev pub Gives {ℓ} : {A : Type ℓ} → (A → Type 0) → Option A → Type 0
Gives P none = ⊥
Gives P (some x) = P x

pub Gives-map {ℓ} :
    {A : Type ℓ} (P Q : A → Type 0) (o : Option A) → ((x : A) → P x → Q x) → Gives P o → Gives Q o
Gives-map P Q none f h = h
Gives-map P Q (some x) f h = f x h

-- In each branch what the test has decided is known.
pub if-holds {ℓ} :
    {A : Type ℓ} (P : A → Type 0) (b : Bool) (x y : A)
    → (b ≡ true → P x)
    → (b ≡ false → P y)
    → P (if b then x else y)
if-holds P true x y f g = f refl
if-holds P false x y f g = g refl
