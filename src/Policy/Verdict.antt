-- ===== src/Policy/Verdict.antt =====
-- The verdict of the policy gate against a decision table.
use cognitive_runtime.Prelude.{
  ◌≡◌, refl, ap, ◌∙◌, Bool, true, false, not, ◌&&◌, ◌||◌, Bool-cases, inl, inr, if◌then◌else◌, List,
  [], ◌∷◌, Text, text, text_eq, text_eq_iff, arith,
}
use cognitive_runtime.Contracts.Events.{PolicyVerdict, allowed, blocked, require_review}
use cognitive_runtime.Policy.{
  PolicyEvalContext, PolicyRule, PolicyEvalResult, is_code_change, is_high, builtin_rules,
  apply_rule, apply_rules, initial_result, evaluate_policy,
}

-- The verdict that the rules come to: a code change is blocked where it is disabled, reviewed
-- where it is risky, and all else is allowed.
unfoldable pub decide_verdict : (code_change enabled risky : Bool) → PolicyVerdict
decide_verdict true false risky = blocked
decide_verdict true true true = require_review
decide_verdict true true false = allowed
decide_verdict false enabled risky = allowed

abbrev pub is_risky : PolicyEvalContext → Bool
is_risky ctx = is_high ctx || ctx.regulated_domain

is_other : Text → Bool
unfolding text_eq
is_other t =
    text_eq t (text "direct_reply") || text_eq t (text "chat") || text_eq t (text "research")

-- No other type of DAG has the name `code_change`.
code_change_only : is_other (text "code_change") ≡ false
unfolding is_other text_eq
code_change_only = refl

not_other : (ctx : PolicyEvalContext) → is_code_change ctx ≡ true → is_other ctx.dag_type ≡ false
unfolding is_code_change text_eq
not_other ctx e =
    ap is_other ((text_eq_iff ctx.dag_type (text "code_change")).0 e) ∙ code_change_only

-- The verdict of the last rule that applies.
last_verdict : PolicyEvalContext → List PolicyRule → PolicyVerdict → PolicyVerdict
last_verdict ctx [] v = v
last_verdict ctx (rule ∷ rules) v =
    last_verdict ctx rules (if rule.applies ctx then rule.verdict else v)

apply_rule-verdict :
    (ctx : PolicyEvalContext) (rule : PolicyRule) (r : PolicyEvalResult)
    → (apply_rule ctx rule r).verdict ≡ (if rule.applies ctx then rule.verdict else r.verdict)
unfolding apply_rule
apply_rule-verdict ctx rule r = elim (Bool-cases (rule.applies ctx)) [
  | inl applies ↦ rw applies refl
  | inr other ↦ rw other refl
]

apply_rules-verdict :
    (ctx : PolicyEvalContext) (rules : List PolicyRule) (r : PolicyEvalResult)
    → (apply_rules ctx rules r).verdict ≡ last_verdict ctx rules r.verdict
unfolding apply_rules last_verdict
apply_rules-verdict ctx [] r = refl
apply_rules-verdict ctx (rule ∷ rules) r =
    apply_rules-verdict ctx rules (apply_rule ctx rule r)
    ∙ ap (last_verdict ctx rules) (apply_rule-verdict ctx rule r)

-- The five rules as a nest of tests.
table :
    (code high regulated direct chat research : Bool)
    → (code ≡ true → (direct || chat || research) ≡ false)
    → (if research
        then allowed
        else if direct || chat
        then allowed
        else if code && (not high && not regulated)
        then allowed
        else if code && (high || regulated)
        then require_review
        else if code
        then blocked
        else allowed)
      ≡ decide_verdict code true (high || regulated)
unfolding decide_verdict
table true true true direct chat research other = ground (arith, other refl)
table true true false direct chat research other = ground (arith, other refl)
table true false true direct chat research other = ground (arith, other refl)
table true false false direct chat research other = ground (arith, other refl)
table false high regulated direct chat research other = ground arith

builtin-verdict :
    (ctx : PolicyEvalContext)
    → last_verdict ctx builtin_rules allowed
      ≡ decide_verdict (is_code_change ctx) true (is_risky ctx)
unfolding last_verdict builtin_rules is_other
builtin-verdict ctx =
    table (is_code_change ctx) (is_high ctx) ctx.regulated_domain
      (text_eq ctx.dag_type (text "direct_reply")) (text_eq ctx.dag_type (text "chat"))
      (text_eq ctx.dag_type (text "research")) (not_other ctx)

enabled_verdict :
    (code enabled risky : Bool)
    → (code && not enabled) ≡ false
    → decide_verdict code true risky ≡ decide_verdict code enabled risky
unfolding decide_verdict
enabled_verdict true true risky h = refl
enabled_verdict true false risky h = cc
enabled_verdict false enabled risky h = refl

disabled_verdict :
    (code enabled risky : Bool)
    → (code && not enabled) ≡ true
    → blocked ≡ decide_verdict code enabled risky
unfolding decide_verdict
disabled_verdict true false risky h = refl
disabled_verdict true true risky h = cc
disabled_verdict false enabled risky h = cc

-- For every context and setting, the verdict is that of the decision table.
pub evaluate_policy-verdict :
    (ctx : PolicyEvalContext) (enabled : Bool)
    → (evaluate_policy ctx enabled).verdict
      ≡ decide_verdict (is_code_change ctx) enabled (is_risky ctx)
unfolding evaluate_policy
evaluate_policy-verdict ctx enabled = elim (Bool-cases (is_code_change ctx && not enabled)) [
  | inl off ↦ rw off (disabled_verdict _ enabled (is_risky ctx) off)
  | inr on ↦ rw on (
      apply_rules-verdict ctx builtin_rules (initial_result ctx)
      ∙ builtin-verdict ctx
      ∙ enabled_verdict _ enabled (is_risky ctx) on)
]
