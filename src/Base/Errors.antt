-- ===== src/Base/Errors.antt =====
-- Go's `error` as a value: its class, which the apierrors predicates test, and its text.
use Prim.Native.String.{String, ◌++◌ as ◌<>◌}
use mathlib.Core.List.{List}
use mathlib.Core.Bool.{Bool, true, false}
use hiro_adaptive_orchestrat.Base.Int.{ℤ}

pub data ErrorClass : Type 0 where
  not_found conflict too_many_requests other_error : ErrorClass

pub record Error : Type 0 where
  pub class : ErrorClass
  pub message : String

pub data Result (A : Type 0) : Type 0 where
  ok : A → Result A
  err : Error → Result A

-- How a call of code that can panic ends.
pub data Exit (A : Type 0) : Type 0 where
  returned : A → Exit A
  panicked : Exit A

-- `fmt.Errorf` without an error to wrap.
abbrev pub failure : String → Error
failure message = record { class = ErrorClass.other_error; message = message }

-- `fmt.Errorf("...: %w", err)`, which keeps the class.
abbrev pub wrap : String → Error → Error
wrap text e = record e { message = text <> ": " <> e.message }

-- `apierrors.IsConflict`, `IsNotFound` and `IsTooManyRequests`, which see through wrapping.
abbrev pub is_conflict : Error → Bool
is_conflict e = elim e.class [ ErrorClass.conflict ↦ true | _ ↦ false ]

abbrev pub is_not_found : Error → Bool
is_not_found e = elim e.class [ ErrorClass.not_found ↦ true | _ ↦ false ]

abbrev pub is_too_many_requests : Error → Bool
is_too_many_requests e = elim e.class [ ErrorClass.too_many_requests ↦ true | _ ↦ false ]

-- What the code takes from pure functions of Go and of Kubernetes: the text of an int (`%d`), of a
-- float with two places (`%.2f`), of a quoted text (`%q`), of a duration (`%s`, and rounded to
-- seconds) and of a quantity, `resource.ParseQuantity`, `metav1.LabelSelectorAsSelector`,
-- `Quantity.MilliValue`, the quotient of two counts as a float64, and a float as a percentage (`%.0f`).
pub record Deps : Type 0 where
  pub int : ℤ → String
  pub fixed2 : ℤ → String
  pub quote : String → String
  pub duration : ℤ → String
  pub seconds : ℤ → String
  pub quantity : ℤ → String
  pub parse_quantity : String → Result ℤ
  pub as_selector : List (String × String) → Result String
  pub milli_value : ℤ → ℤ
  pub float_ratio : ℤ → ℤ → ℤ
  pub percent : ℤ → String
