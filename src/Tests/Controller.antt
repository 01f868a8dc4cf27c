-- ===== src/Tests/Controller.antt =====
-- Runs of the checks of a profile's spec, and the theorem on them, at concrete data.
use hiro_adaptive_orchestrat.Base.{
  ◌≡◌, refl, String, str_eq, true, false, Option, none, some, negsuc, if◌then◌else◌,
}
use hiro_adaptive_orchestrat.Types.{OrchestrationProfile}
use hiro_adaptive_orchestrat.Controller.Validation.{
  validate_profile, validate_application_ref, validate_placement, validate_rebalancing,
  check_conditions, is_clean, is_valid, validate_profile-is_valid,
}
use hiro_adaptive_orchestrat.Tests.Data.{deps, profile}

-- One text parses.
abbrev pub group_version_error : String → Option String
group_version_error text = if str_eq text "apps/v1" then none else some "unexpected text"

abbrev pub balanced : OrchestrationProfile
balanced = record profile {
  spec = record (profile.spec) {
    placement = record (profile.spec.placement) { strategy = "Balanced" };
  };
}

abbrev negative : OrchestrationProfile
negative = record balanced {
  spec = record (balanced.spec) {
    rebalancing = record (balanced.spec.rebalancing) { cooldown_seconds = negsuc 0 };
  };
}

accepted : is_clean (validate_profile deps group_version_error balanced) ≡ true
unfolding validate_profile validate_application_ref validate_placement validate_rebalancing
    check_conditions
accepted = refl

rejected : is_clean (validate_profile deps group_version_error negative) ≡ false
unfolding validate_profile validate_application_ref validate_placement validate_rebalancing
    check_conditions
rejected = refl

validate_profile-is_valid_example :
    is_clean (validate_profile deps group_version_error negative)
    ≡ is_valid deps group_version_error negative.spec
validate_profile-is_valid_example = validate_profile-is_valid deps group_version_error negative
