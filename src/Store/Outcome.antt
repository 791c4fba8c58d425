-- ===== src/Store/Outcome.antt =====
-- `Result` and `Error` of crates/super-mem-core/src/error.rs, without the messages.
use super_mem.Base.{Bool, true, false, ◌≡◌, refl, ap, arith, if◌then◌else◌}

pub data Error : Type 0 where
  conflict invalid_input not_found database migration : Error

module _ (A : Type 0) where
  pub data Outcome : Type 0 where
    err : Error → Outcome
    ok : A → Outcome

-- The operator `?`: an error returns at once.
infixl 5 ◌>>=◌
abbrev pub ◌>>=◌ : {A B : Type 0} → Outcome A → (A → Outcome B) → Outcome B
outcome >>= later = elim outcome [ err error ↦ err error | ok value ↦ later value ]

-- `?` on a check that gives nothing back.
infixl 5 ◌>>◌
abbrev pub ◌>>◌ : {B : Type 0} → Outcome (Unit {0}) → Outcome B → Outcome B
check >> later = elim check [ err error ↦ err error | ok value ↦ later ]

-- `if !condition { return Err(error) }`.
abbrev pub guard : Bool → Error → Outcome (Unit {0})
guard condition error = if condition then ok tt else err error

-- A success has passed both of its steps.
pub ok_steps :
    {A B : Type 0} {result : B} (later : A → Outcome B) (outcome : Outcome A)
    → outcome >>= later ≡ ok result
    → (value : A) × (later value ≡ ok result) × (outcome ≡ ok value)
ok_steps later (err error) h = ground arith
ok_steps later (ok value) h = (value, h, refl)

pub ok-injective : {A : Type 0} {a b : A} → ok a ≡ ok b → a ≡ b
ok-injective {a} h = ap (λ m. elim m [ ok x ↦ x | err e ↦ a ]) h

pub guard_steps :
    {B : Type 0} {result : B} (condition : Bool) (error : Error) (later : Outcome B)
    → guard condition error >> later ≡ ok result
    → (condition ≡ true) × (later ≡ ok result)
guard_steps true error later h = (refl, h)
guard_steps false error later h = ground arith

pub check_steps :
    {B : Type 0} {result : B} (check : Outcome (Unit {0})) (later : Outcome B)
    → check >> later ≡ ok result
    → (check ≡ ok tt) × (later ≡ ok result)
check_steps (err error) later h = ground arith
check_steps (ok tt) later h = (refl, h)

pub guard_passed :
    (condition : Bool) (error : Error) → guard condition error ≡ ok tt → condition ≡ true
guard_passed true error h = refl
guard_passed false error h = ground arith
