-- ===== src/Controller/Validation.antt =====
-- internal/controller/op_validation.go: the checks of a profile's spec.
use native.Mathlib.Omega.{arith}
use hiro_adaptive_orchestrat.Base.{
  ℕ, ◌+◌, ◌≡◌, refl, String, ◌<>◌, str_eq, is_empty, Bool, true, false, not, ◌&&◌, ◌||◌, List, [],
  ◌∷◌, ◌++◌, Option, none, some, ℤ, pos, ltb_ℤ, if◌then◌else◌, Deps,
}
use hiro_adaptive_orchestrat.Types.{OrchestrationProfileSpec, OrchestrationProfile}

-- `field.Error`, with its path as a text.
pub data FieldError : Type 0 where
  required : String → String → FieldError
  not_supported : String → String → FieldError
  invalid : String → String → String → FieldError

abbrev pub contains_text : String → List String → Bool
contains_text s [] = false
contains_text s (x ∷ xs) = str_eq s x || contains_text s xs

abbrev pub supported_app_kinds : List String
supported_app_kinds = "Deployment" ∷ "StatefulSet" ∷ "ReplicaSet" ∷ "Job" ∷ []

abbrev pub valid_strategies : List String
valid_strategies = "Balanced" ∷ "Packed" ∷ "Spread" ∷ []

abbrev pub valid_trigger_conditions : List String
valid_trigger_conditions =
    "CPUThreshold" ∷ "MemoryThreshold" ∷ "EnergyThreshold" ∷ "NodeFailure" ∷ "Scheduled" ∷ []

abbrev pub require : String → String → String → List FieldError
require text path message = if is_empty text then required path message ∷ [] else []

-- A text that has to be given and to be one of a list.
abbrev pub require_one_of : List String → String → String → String → List FieldError
require_one_of options text path message =
    if is_empty text
    then required path message ∷ []
    else if contains_text text options
    then []
    else not_supported path text ∷ []

-- What `schema.ParseGroupVersion` says of a text: the message of its error, if any.
module _ (f : Deps) (group_version_error : String → Option String) where
  abbrev check_api_version : String → List FieldError
  check_api_version text =
      if is_empty text
      then required "spec.applicationRef.apiVersion" "application apiVersion must be specified" ∷ []
      else elim (group_version_error text) [
        | none ↦ []
        | some message ↦
            invalid "spec.applicationRef.apiVersion" text ("invalid apiVersion format: " <> message)
            ∷ []
      ]

  -- `validateApplicationRef`
  unfoldable pub validate_application_ref : OrchestrationProfileSpec → List FieldError
  validate_application_ref spec =
      let ref = spec.application_ref in
      require ref.name "spec.applicationRef.name" "application name must be specified"
      ++ (require ref.namespace "spec.applicationRef.namespace"
            "application namespace must be specified"
          ++ (require_one_of supported_app_kinds ref.kind "spec.applicationRef.kind"
                "application kind must be specified"
              ++ check_api_version ref.api_version))

  -- `validatePlacement`
  unfoldable pub validate_placement : OrchestrationProfileSpec → List FieldError
  validate_placement spec =
      require_one_of valid_strategies spec.placement.strategy "spec.placement.strategy"
        "placement strategy must be specified"

  -- The loop over the conditions, from an index on.
  unfoldable pub check_conditions : ℕ → List String → List FieldError
  check_conditions i [] = []
  check_conditions i (condition ∷ conditions) =
      let rest = check_conditions (i + 1) conditions in
      if contains_text condition valid_trigger_conditions
      then rest
      else not_supported ("spec.rebalancing.triggerConditions[" <> f.int (pos i) <> "]") condition
        ∷ rest

  abbrev check_cooldown : ℤ → List FieldError
  check_cooldown s =
      if ltb_ℤ s (pos 0)
      then invalid "spec.rebalancing.cooldownSeconds" (f.int s) "cooldownSeconds must be >= 0" ∷ []
      else []

  -- `validateRebalancing`
  unfoldable pub validate_rebalancing : OrchestrationProfileSpec → List FieldError
  unfolding check_conditions
  validate_rebalancing spec =
      if spec.rebalancing.enabled
      then check_cooldown spec.rebalancing.cooldown_seconds
        ++ check_conditions 0 spec.rebalancing.trigger_conditions
      else []

  -- `validateProfile`
  unfoldable pub validate_profile : OrchestrationProfile → List FieldError
  unfolding validate_application_ref validate_placement validate_rebalancing
  validate_profile profile =
      validate_application_ref profile.spec
      ++ (validate_placement profile.spec ++ validate_rebalancing profile.spec)

-- No errors.
abbrev pub is_clean : List FieldError → Bool
is_clean [] = true
is_clean (e ∷ es) = false

is_clean-append : (xs ys : List FieldError) → is_clean (xs ++ ys) ≡ (is_clean xs && is_clean ys)
is_clean-append [] ys = refl
is_clean-append (x ∷ xs) ys = refl

-- A text that is given, and is one of a list.
abbrev pub is_one_of : String → List String → Bool
is_one_of text options = not (is_empty text) && contains_text text options

is_clean-require :
    (text path message : String) → is_clean (require text path message) ≡ not (is_empty text)
is_clean-require text path message = ground arith

is_clean-require_one_of :
    (options : List String) (text path message : String)
    → is_clean (require_one_of options text path message) ≡ is_one_of text options
is_clean-require_one_of options text path message = ground arith

abbrev pub all_in : List String → List String → Bool
all_in options [] = true
all_in options (x ∷ xs) = contains_text x options && all_in options xs

module _ (f : Deps) (group_version_error : String → Option String) where
  abbrev pub parses : String → Bool
  parses text = elim (group_version_error text) [ none ↦ true | some m ↦ false ]

  -- A spec as it should be, in one test.
  abbrev pub is_valid : OrchestrationProfileSpec → Bool
  is_valid spec =
      let ref = spec.application_ref in
      let rebalancing = spec.rebalancing in
      (not (is_empty ref.name)
        && (not (is_empty ref.namespace)
            && (is_one_of ref.kind supported_app_kinds
                && (not (is_empty ref.api_version) && parses ref.api_version))))
      && (is_one_of spec.placement.strategy valid_strategies
          && (not rebalancing.enabled
              || (not (ltb_ℤ rebalancing.cooldown_seconds (pos 0))
                  && all_in valid_trigger_conditions rebalancing.trigger_conditions)))

  is_clean-check_conditions :
      (i : ℕ) (conditions : List String)
      → is_clean (check_conditions f group_version_error i conditions)
        ≡ all_in valid_trigger_conditions conditions
  unfolding check_conditions
  is_clean-check_conditions i [] = refl
  is_clean-check_conditions i (condition ∷ conditions) =
      ground (arith, is_clean-check_conditions (i + 1) conditions)

  clean_api_version :
      (text : String)
      → is_clean (check_api_version f group_version_error text)
        ≡ (not (is_empty text) && parses text)
  clean_api_version text = ground arith

  clean_ref :
      (spec : OrchestrationProfileSpec)
      → is_clean (validate_application_ref f group_version_error spec) ≡ (
          not (is_empty spec.application_ref.name)
          && (not (is_empty spec.application_ref.namespace)
              && (is_one_of spec.application_ref.kind supported_app_kinds
                  && (not (is_empty spec.application_ref.api_version)
                      && parses spec.application_ref.api_version))))
  unfolding validate_application_ref
  clean_ref spec =
      rw
        (
          is_clean-append, is_clean-require, is_clean-append, is_clean-require, is_clean-append,
          is_clean-require_one_of, clean_api_version,
        )
        refl

  clean_rebalancing :
      (spec : OrchestrationProfileSpec)
      → is_clean (validate_rebalancing f group_version_error spec) ≡ (
          not spec.rebalancing.enabled
          || (not (ltb_ℤ spec.rebalancing.cooldown_seconds (pos 0))
              && all_in valid_trigger_conditions spec.rebalancing.trigger_conditions))
  unfolding validate_rebalancing
  clean_rebalancing spec = ground (
    arith,
    is_clean-append (check_cooldown f group_version_error spec.rebalancing.cooldown_seconds)
        (check_conditions f group_version_error 0 spec.rebalancing.trigger_conditions),
    is_clean-check_conditions 0 spec.rebalancing.trigger_conditions,
  )

  -- A profile is accepted without an error exactly if its reference is complete and parses, its kind
  -- and its strategy are among the supported ones and, where rebalancing is enabled, its cooldown is
  -- not negative and each of its trigger conditions is a supported one.
  pub validate_profile-is_valid :
      (profile : OrchestrationProfile)
      → is_clean (validate_profile f group_version_error profile) ≡ is_valid profile.spec
  unfolding validate_profile validate_placement
  validate_profile-is_valid profile =
      rw (is_clean-append, clean_ref, is_clean-append, is_clean-require_one_of, clean_rebalancing)
        refl
