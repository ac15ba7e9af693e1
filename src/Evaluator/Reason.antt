-- ===== src/Evaluator/Reason.antt =====
-- src/evaluator.rs: which resolution reason a rejection carries.
use oracle_qa.Prelude.{
  ℕ, ◌≡◌, refl, Bool, true, false, not, String, List, [], ◌∷◌, ◌++◌, Option, none, some, Result, ok,
  err, arith, leb, ◌==◌, if◌then◌else◌, all, ap, ◌∙◌, map,
}
use mathlib.Core.List.{map-append}
use oracle_qa.Prelude.Text.{str_eq, ne_of_prefix, starts_with-append, ◌⊹◌}
use oracle_qa.Types.{
  SlaDocument, DeliveryEvidence, CheckResult, EvaluationResult, api_quality_v1_profile_id,
}
use oracle_qa.External.{Deps}
use oracle_qa.Evaluator.Checks.{
  version_checks, profile_checks, status_ok, status_check, latency_check, has_field, field_checks,
  schema_outcome, schema_checks, body_length, length_checks, all_checks, reason_of_name,
  resolution_reason, evaluate,
}
use oracle_qa.Evaluator.Verdict.{guarded-field_checks}

abbrev pub profile_accepted : Bool → Option String → Bool
profile_accepted strict none = not strict
profile_accepted strict (some pid) = str_eq pid api_quality_v1_profile_id

module _ (x : Deps) where
  open x use {
    Value, Object, as_object, contains_key, Validator, validator_for, is_valid, no_reason,
    general_rejection, status_code_out_of_range, latency_exceeded, required_fields_missing,
    schema_validation_failed, body_too_short,
  }

  abbrev accepts : Result String Validator → Value → Bool
  accepts (ok v) body = is_valid v body
  accepts (err e) body = false

  abbrev pub schema_accepts : Option Value → Value → Bool
  schema_accepts none body = true
  schema_accepts (some schema) body = accepts (validator_for schema) body

  abbrev pub long_enough : Option ℕ → Value → Bool
  long_enough none body = true
  long_enough (some least) body = leb least (body_length x body)

  -- The profile's table of reasons, read from the documents: the first broken rule decides.
  unfoldable pub expected_reason : Bool → SlaDocument Value → DeliveryEvidence Value Object → ℕ
  expected_reason strict sla e =
      if not (sla.version == 1)
      then general_rejection
      else if not (profile_accepted strict sla.profile_id)
      then general_rejection
      else if not (status_ok x sla e)
      then status_code_out_of_range
      else if not (leb e.latency_ms sla.max_latency_ms)
      then latency_exceeded
      else if not (all (has_field x (as_object e.response_body)) sla.required_fields)
      then required_fields_missing
      else if not (schema_accepts sla.response_schema e.response_body)
      then schema_validation_failed
      else if not (long_enough sla.min_body_length e.response_body)
      then body_too_short
      else no_reason

  abbrev first_reason : List CheckResult → ℕ → ℕ
  first_reason [] rest = rest
  first_reason (c ∷ cs) rest = if c.passed then first_reason cs rest else reason_of_name x c.name

  first_reason-append :
      (cs ds : List CheckResult) (rest : ℕ)
      → first_reason (cs ++ ds) rest ≡ first_reason cs (first_reason ds rest)
  first_reason-append [] ds rest = refl
  first_reason-append (c ∷ cs) ds rest =
      ap (λ r. if c.passed then r else reason_of_name x c.name) (first_reason-append cs ds rest)

  resolution_reason-cons :
      (c : CheckResult) (cs : List CheckResult)
      → resolution_reason x (c ∷ cs)
        ≡ (if c.passed then resolution_reason x cs else reason_of_name x c.name)
  unfolding resolution_reason
  resolution_reason-cons c cs = ground arith

  resolution_reason-first :
      (cs : List CheckResult) → resolution_reason x cs ≡ first_reason cs no_reason
  unfolding resolution_reason
  resolution_reason-first [] = refl
  resolution_reason-first (c ∷ cs) =
      resolution_reason-cons c cs
      ∙ ap (λ r. if c.passed then r else reason_of_name x c.name) (resolution_reason-first cs)

  first-version_checks :
      (strict : Bool) (sla : SlaDocument Value) (rest : ℕ)
      → first_reason (version_checks x strict sla) rest
        ≡ (if not (sla.version == 1) then general_rejection else rest)
  unfolding version_checks reason_of_name
  first-version_checks strict sla rest = ground arith

  first-profile_checks :
      (strict : Bool) (profile : Option String) (rest : ℕ)
      → first_reason (profile_checks x strict profile) rest
        ≡ (if not (profile_accepted strict profile) then general_rejection else rest)
  unfolding profile_checks reason_of_name
  first-profile_checks strict none rest = ground arith
  first-profile_checks strict (some p) rest = ground arith

  reason-required_field :
      (field : String) → reason_of_name x ("required_field:" ⊹ field) ≡ required_fields_missing
  unfolding reason_of_name
  reason-required_field field = rw (
    ne_of_prefix "required_field:" field "profile_id" refl,
    ne_of_prefix "required_field:" field "version" refl,
    ne_of_prefix "required_field:" field "status_code" refl,
    ne_of_prefix "required_field:" field "latency" refl,
    ne_of_prefix "required_field:" field "json_schema" refl,
    ne_of_prefix "required_field:" field "body_length" refl,
    starts_with-append "required_field:" field,
  )

  first-field_checks :
      (body : Option Object) (fields : List String) (rest : ℕ)
      → first_reason (field_checks x body fields) rest
        ≡ (if not (all (has_field x body) fields) then required_fields_missing else rest)
  unfolding field_checks
  first-field_checks body [] rest = refl
  first-field_checks body (f ∷ fs) rest =
      ground (arith, first-field_checks body fs rest, reason-required_field f)

  first-outcome :
      (r : Result String Validator) (body : Value) (rest : ℕ)
      → first_reason (schema_outcome x r body ∷ []) rest
        ≡ (if not (accepts r body) then schema_validation_failed else rest)
  unfolding reason_of_name
  first-outcome (ok v) body rest = ground arith
  first-outcome (err e) body rest = ground arith

  first-schema_checks :
      (schema : Option Value) (body : Value) (rest : ℕ)
      → first_reason (schema_checks x schema body) rest
        ≡ (if not (schema_accepts schema body) then schema_validation_failed else rest)
  unfolding schema_checks
  first-schema_checks none body rest = refl
  first-schema_checks (some s) body rest = first-outcome (validator_for s) body rest

  first-length_checks :
      (least : Option ℕ) (body : Value) (rest : ℕ)
      → first_reason (length_checks x least body) rest
        ≡ (if not (long_enough least body) then body_too_short else rest)
  unfolding length_checks reason_of_name
  first-length_checks none body rest = refl
  first-length_checks (some n) body rest = ground arith

  resolution_reason_lem :
      (strict : Bool) (sla : SlaDocument Value) (e : DeliveryEvidence Value Object)
      → resolution_reason x (all_checks x strict sla e) ≡ expected_reason strict sla e
  unfolding expected_reason all_checks status_check latency_check reason_of_name
  resolution_reason_lem strict sla e =
      simp
        (
          resolution_reason-first, guarded-field_checks, first_reason-append, first-version_checks,
          first-profile_checks, first-field_checks, first-schema_checks, first-length_checks,
        )
        (ground arith)

  -- The evaluator never fails, and the reason of its verdict is that of the first broken rule in the
  -- order version, profile, status, latency, required fields, schema, body length; it is `no_reason`
  -- when no rule is broken.
  pub evaluate-expected_reason :
      (strict : Bool) (sla : SlaDocument Value) (e : DeliveryEvidence Value Object)
      → (r : EvaluationResult) × (evaluate x strict sla e ≡ ok r)
        × (r.resolution_reason ≡ expected_reason strict sla e)
  unfolding evaluate
  evaluate-expected_reason strict sla e = (_, refl, resolution_reason_lem strict sla e)

  names-field_checks :
      (o p : Option Object) (fields : List String)
      → map (λ c. c.name) (field_checks x o fields) ≡ map (λ c. c.name) (field_checks x p fields)
  unfolding field_checks
  names-field_checks o p [] = refl
  names-field_checks o p (f ∷ fs) = cc (names-field_checks o p fs)

  name-schema_outcome :
      (r : Result String Validator) (body : Value) → (schema_outcome x r body).name ≡ "json_schema"
  name-schema_outcome (ok v) body = refl
  name-schema_outcome (err e) body = refl

  names-schema_checks :
      (schema : Option Value) (b c : Value)
      → map (λ c. c.name) (schema_checks x schema b) ≡ map (λ c. c.name) (schema_checks x schema c)
  unfolding schema_checks
  names-schema_checks none b c = refl
  names-schema_checks (some s) b c =
      cc (name-schema_outcome (validator_for s) b, name-schema_outcome (validator_for s) c)

  names-length_checks :
      (least : Option ℕ) (b c : Value)
      → map (λ c. c.name) (length_checks x least b) ≡ map (λ c. c.name) (length_checks x least c)
  unfolding length_checks
  names-length_checks none b c = refl
  names-length_checks (some n) b c = refl

  -- Any two deliveries under one SLA document are put through checks of the same names in the same
  -- order.
  pub names-all_checks :
      (strict : Bool) (sla : SlaDocument Value) (d e : DeliveryEvidence Value Object)
      → map (λ c. c.name) (all_checks x strict sla d)
        ≡ map (λ c. c.name) (all_checks x strict sla e)
  unfolding all_checks status_check latency_check
  names-all_checks strict sla d e =
      simp (guarded-field_checks, map-append)
        (cc (
          names-field_checks (as_object d.response_body) (as_object e.response_body)
              sla.required_fields,
          names-schema_checks sla.response_schema d.response_body e.response_body,
          names-length_checks sla.min_body_length d.response_body e.response_body,
        ))
