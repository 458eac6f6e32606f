-- ===== src/Policy.antt =====
-- The policy gate (packages/runtime/src/policy-gate.ts).
pub mod Verdict
use cognitive_runtime.Prelude.{
  Bool, true, false, not, ◌&&◌, ◌||◌, if◌then◌else◌, List, [], ◌∷◌, ◌++◌, map, Text, text, text_eq,
}
use cognitive_runtime.Prelude.Maps.{has_text}
use cognitive_runtime.Contracts.Events.{PolicyVerdict, allowed, blocked, require_review}

pub data ActionRisk : Type 0 where
  low medium high critical : ActionRisk

-- The string that the risk is.
abbrev pub risk_name : ActionRisk → Text
risk_name low = text "LOW"
risk_name medium = text "MEDIUM"
risk_name high = text "HIGH"
risk_name critical = text "CRITICAL"

pub record PolicyEvalContext : Type 0 where
  pub dag_type : Text
  pub node_kinds : List Text
  pub risk_level : Text
  pub requires_code : Bool
  pub regulated_domain : Bool

pub record PolicyRule : Type 0 where
  pub id : Text
  pub description : Text
  pub applies : PolicyEvalContext → Bool
  pub risk : ActionRisk
  pub verdict : PolicyVerdict

pub record PolicyEvalResult : Type 0 where
  pub action : Text
  pub risk_level : ActionRisk
  pub verdict : PolicyVerdict
  pub rules_checked : List Text
  pub rationale : Text
  pub dag_type : Text

abbrev pub is_code_change : PolicyEvalContext → Bool
unfolding text_eq
is_code_change ctx = text_eq ctx.dag_type (text "code_change")

abbrev pub is_high : PolicyEvalContext → Bool
unfolding text_eq
is_high ctx = text_eq ctx.risk_level (text "high")

unfoldable pub builtin_rules : List PolicyRule
unfolding text_eq
builtin_rules =
    record {
      id = text "BLOCK_CODE_CHANGE_IF_DISABLED";
      description = text "Block code-change DAGs when the feature is disabled.";
      applies = λ ctx. is_code_change ctx;
      risk = critical;
      verdict = blocked;
    }
    ∷ record {
      id = text "REQUIRE_REVIEW_HIGH_RISK_CODE";
      description = text "Require review for code-change in high-risk or regulated domains.";
      applies = λ ctx. is_code_change ctx && (is_high ctx || ctx.regulated_domain);
      risk = high;
      verdict = require_review;
    }
    ∷ record {
      id = text "ALLOW_CODE_CHANGE_LOW_RISK";
      description = text "Allow code-change for low/medium risk non-regulated domains.";
      applies = λ ctx. is_code_change ctx && (not (is_high ctx) && not ctx.regulated_domain);
      risk = medium;
      verdict = allowed;
    }
    ∷ record {
      id = text "ALLOW_DIRECT_REPLY";
      description = text "Direct reply DAGs are always allowed.";
      applies =
          λ ctx. text_eq ctx.dag_type (text "direct_reply") || text_eq ctx.dag_type (text "chat");
      risk = low;
      verdict = allowed;
    }
    ∷ record {
      id = text "ALLOW_RESEARCH";
      description = text "Research DAGs are always allowed.";
      applies = λ ctx. text_eq ctx.dag_type (text "research");
      risk = low;
      verdict = allowed;
    }
    ∷ []

unfoldable pub classify_dag_type : List Text → Text
unfolding has_text
classify_dag_type kinds =
    if has_text (text "CODEBASE_ANALYZE") kinds
      || (has_text (text "PATCH_PLAN") kinds || has_text (text "PATCH_APPLY_SIMULATED") kinds)
    then text "code_change"
    else text "direct_reply"

-- The body of the loop over the rules: a rule that applies replaces the result so far.
unfoldable pub apply_rule : PolicyEvalContext → PolicyRule → PolicyEvalResult → PolicyEvalResult
apply_rule ctx rule r =
    let checked = r.rules_checked ++ rule.id ∷ [] in
    if rule.applies ctx
    then record r {
      rules_checked = checked;
      risk_level = rule.risk;
      verdict = rule.verdict;
      rationale = text "Rule " ++ (rule.id ++ (text ": " ++ rule.description));
    }
    else record r { rules_checked = checked }

unfoldable pub apply_rules :
    PolicyEvalContext → List PolicyRule → PolicyEvalResult → PolicyEvalResult
unfolding apply_rule
apply_rules ctx [] r = r
apply_rules ctx (rule ∷ rules) r = apply_rules ctx rules (apply_rule ctx rule r)

-- The local variables before the loop.
abbrev pub initial_result : PolicyEvalContext → PolicyEvalResult
initial_result ctx = record {
  action = text "evaluate_dag_type:" ++ ctx.dag_type;
  risk_level = low;
  verdict = allowed;
  rules_checked = [];
  rationale = text "No policy rules matched; default ALLOWED.";
  dag_type = ctx.dag_type;
}

unfoldable pub evaluate_policy : PolicyEvalContext → Bool → PolicyEvalResult
unfolding text_eq builtin_rules apply_rules
evaluate_policy ctx code_change_enabled =
    if is_code_change ctx && not code_change_enabled
    then record {
      action = text "evaluate_dag_type:" ++ ctx.dag_type;
      risk_level = critical;
      verdict = blocked;
      rules_checked = text "BLOCK_CODE_CHANGE_IF_DISABLED" ∷ [];
      rationale =
          text
            "Code-change workflow is disabled by configuration (enable_code_change_workflow=false).";
      dag_type = ctx.dag_type;
    }
    else apply_rules ctx builtin_rules (initial_result ctx)
