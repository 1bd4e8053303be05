-- ===== src/Base/Exceptions.antt =====
-- Exceptions as values. `out_of_fuel` is no exception of the program: a loop on fuel has it while it has
-- not ended.
use mathlib.Core.Path.{◌≡◌, refl, subst}
use mathlib.Core.Logic.{◌⊎◌, inl, inr}
use mathlib.Core.Bool.{Bool, true, false}
use rv32im_so_c_performance.Base.Tests.{if◌then◌else◌}
use mathlib.Core.Option.{Option, none, some}
use Prim.Native.String.{String}

pub data Error : Type 0 where
  value_error : Error
  type_error : Error
  key_error : String → Error
  index_error : Error
  zero_division_error : Error
  stop_iteration : Error
  runtime_error : String → Error
  attribute_error : Error
  invalid_argument : String → Error
  called_process_error : Error
  file_not_found_error : String → Error
  out_of_range : Error
  out_of_fuel : Error

pub data Result {ℓ} (A : Type ℓ) : Type ℓ where
  ok : A → Result A
  err : Error → Result A

infixl 5 ◌>>=◌
-- An exception ends the block that it is raised in.
abbrev pub ◌>>=◌ {ℓ κ} : {V : Type ℓ} {W : Type κ} → Result V → (V → Result W) → Result W
err raised >>= next = err raised
ok value >>= next = next value

infixl 5 ◌>>◌
abbrev pub ◌>>◌ {κ} : {W : Type κ} → Result (Unit {0}) → Result W → Result W
statement >> rest = statement >>= λ done. rest

abbrev pub or_raise {ℓ} : {A : Type ℓ} → Error → Option A → Result A
or_raise e none = err e
or_raise e (some a) = ok a

-- Inversion of a bind that returned.
pub >>=-eq-ok {ℓ κ} :
    {V : Type ℓ} {W : Type κ} (first : Result V) (next : V → Result W) {w : W}
    → first >>= next ≡ ok w
    → (v : V) × (first ≡ ok v) × (next v ≡ ok w)
>>=-eq-ok (err raised) next e = cc
>>=-eq-ok (ok value) next e = (value, refl, e)

pub >>=-eq-err {ℓ κ} :
    {V : Type ℓ} {W : Type κ} (first : Result V) (next : V → Result W) {e : Error}
    → first >>= next ≡ err e
    → (first ≡ err e) ⊎ ((v : V) × (first ≡ ok v) × (next v ≡ err e))
>>=-eq-err (err raised) next h = inl cc
>>=-eq-err (ok value) next h = inr (value, refl, h)

-- What holds of a result that is returned, with the rules of the tests and of the blocks.
abbrev pub Ensures {ℓ κ} : {V : Type ℓ} → (V → Type κ) → Result V → Type κ
Ensures P (ok value) = P value
Ensures P (err raised) = Unit

pub Ensures-if {ℓ κ} :
    {V : Type ℓ} (P : V → Type κ) (b : Bool) (first second : Result V)
    → Ensures P first
    → Ensures P second
    → Ensures P (if b then first else second)
Ensures-if P true first second h k = h
Ensures-if P false first second h k = k

-- The same, where a branch is known to be taken.
pub Ensures-if_known {ℓ κ} :
    {V : Type ℓ} (P : V → Type κ) (b : Bool) (first second : Result V)
    → (b ≡ true → Ensures P first)
    → (b ≡ false → Ensures P second)
    → Ensures P (if b then first else second)
Ensures-if_known P true first second h k = h refl
Ensures-if_known P false first second h k = k refl

pub Ensures->>= {ℓ κ μ ν} :
    {V : Type ℓ} {W : Type μ} (P : V → Type κ) (Q : W → Type ν) (first : Result V)
    (next : V → Result W)
    → Ensures P first
    → ((v : V) → P v → Ensures Q (next v))
    → Ensures Q (first >>= next)
Ensures->>= P Q (err raised) next h k = tt
Ensures->>= P Q (ok value) next h k = k value h

pub Ensures-any {ℓ} : {V : Type ℓ} (r : Result V) → Ensures (λ _. Unit {0}) r
Ensures-any (err raised) = tt
Ensures-any (ok value) = tt

pub Ensures-ok {ℓ κ} :
    {V : Type ℓ} (P : V → Type κ) (r : Result V) (v : V) → r ≡ ok v → Ensures P r → P v
Ensures-ok P (err raised) v e h = cc
Ensures-ok P (ok value) v e h = let same : value ≡ v = cc in subst P same h

abbrev pub is_out_of_fuel : Error → Bool
is_out_of_fuel out_of_fuel = true
is_out_of_fuel _ = false

-- A computation that has ended: it returns, with what holds of the value, or raises an exception of
-- the program.
abbrev pub Finishes {ℓ} : {V : Type ℓ} → (V → Type 0) → Result V → Type 0
Finishes P (ok value) = P value
Finishes P (err raised) = is_out_of_fuel raised ≡ false

pub Finishes-if {ℓ} :
    {V : Type ℓ} (P : V → Type 0) (b : Bool) (first second : Result V)
    → Finishes P first
    → Finishes P second
    → Finishes P (if b then first else second)
Finishes-if P true first second h k = h
Finishes-if P false first second h k = k

pub Finishes->>= {ℓ κ} :
    {V : Type ℓ} {W : Type κ} (P : V → Type 0) (Q : W → Type 0) (first : Result V)
    (next : V → Result W)
    → Finishes P first
    → ((v : V) → P v → Finishes Q (next v))
    → Finishes Q (first >>= next)
Finishes->>= P Q (err raised) next h k = h
Finishes->>= P Q (ok value) next h k = k value h

pub Finishes-ok {ℓ} :
    {V : Type ℓ} (P : V → Type 0) (r : Result V) (v : V) → r ≡ ok v → Finishes P r → P v
Finishes-ok P (err raised) v e h = cc
Finishes-ok P (ok value) v e h = let same : value ≡ v = cc in subst P same h

pub Finishes-err {ℓ} :
    {V : Type ℓ} (P : V → Type 0) (r : Result V) (e : Error)
    → r ≡ err e
    → Finishes P r
    → is_out_of_fuel e ≡ false
Finishes-err P (ok value) e h k = cc
Finishes-err P (err raised) e h k =
    let same : raised ≡ e = cc in subst (λ x. is_out_of_fuel x ≡ false) same k
