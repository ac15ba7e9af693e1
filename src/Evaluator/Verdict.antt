-- ===== src/Evaluator/Verdict.antt =====
-- src/evaluator.rs: when the evaluator approves, against the profile's rules
-- (spec/api-quality-v1/NORMATIVE.md, section 6).
use oracle_qa.Prelude.{
  ℕ, ◌≤◌, ◌≡◌, refl, ◌↔◌, Bool, true, false, ◌&&◌, String, List, [], ◌∷◌, Option, none, some,
  Result, ok, err, arith, leb, if◌then◌else◌, all, All, all-append, leb→le, le→leb, is_empty,
}
use oracle_qa.Prelude.Text.{eq_iff}
use oracle_qa.Types.{
  SlaDocument, DeliveryEvidence, CheckResult, EvaluationResult, api_quality_v1_profile_id,
}
use oracle_qa.External.{Deps}
use oracle_qa.Evaluator.Checks.{
  version_checks, profile_checks, status_check, latency_check, has_field, field_checks,
  schema_outcome, schema_checks, body_length, length_checks, all_checks, evaluate,
}

abbrev pub passes : List CheckResult → Bool
passes = all (λ c. c.passed)

-- A declared profile is this one; with a strict evaluator it must be declared.
abbrev pub ProfileAccepted : Bool → Option String → Type 0
ProfileAccepted strict none = strict ≡ false
ProfileAccepted strict (some pid) = pid ≡ api_quality_v1_profile_id

and_iff {ℓ κ} :
    {P : Type ℓ} {Q : Type κ} {a b : Bool}
    → (a ≡ true) ↔ P
    → (b ≡ true) ↔ Q
    → ((a && b) ≡ true) ↔ (P × Q)
and_iff {a = true} {b = b} p q = (λ h. (p.0 refl, q.0 h), λ k. q.1 k.1)
and_iff {a = false} {b = b} p q = (λ h. cc, λ k. cc (p.1 k.0))

and_assoc : (a b c : Bool) → ((a && b) && c) ≡ (a && (b && c))
and_assoc true b c = refl
and_assoc false b c = refl

leb_iff : (a b : ℕ) → (leb a b ≡ true) ↔ (a ≤ b)
leb_iff a b = (leb→le a b, le→leb a b)

module _ (x : Deps) where
  open x use {Value, Object, as_object, contains_key, Validator, validator_for, is_valid}

  abbrev pub HasKey : Value → String → Type 0
  HasKey body field = (obj : Object) × (as_object body ≡ some obj) × (contains_key obj field ≡ true)

  abbrev pub SchemaAccepts : Option Value → Value → Type 0
  SchemaAccepts none body = Unit
  SchemaAccepts (some schema) body =
      (v : Validator) × (validator_for schema ≡ ok v) × (is_valid v body ≡ true)

  abbrev pub LongEnough : Option ℕ → Value → Type 0
  LongEnough none body = Unit
  LongEnough (some least) body = least ≤ body_length x body

  -- The rules of the profile, as predicates of the two documents.
  pub record Complies (strict : Bool) (sla : SlaDocument Value)
      (evidence : DeliveryEvidence Value Object) : Type 0 where
    pub version_one : sla.version ≡ 1
    pub profile : ProfileAccepted strict sla.profile_id
    pub status_from : sla.min_status_code ≤ evidence.status_code
    pub status_to : evidence.status_code ≤ sla.max_status_code
    pub in_time : evidence.latency_ms ≤ sla.max_latency_ms
    pub fields : All (HasKey evidence.response_body) sla.required_fields
    pub schema : SchemaAccepts sla.response_schema evidence.response_body
    pub long_enough : LongEnough sla.min_body_length evidence.response_body

  passes-version_checks :
      (strict : Bool) (sla : SlaDocument Value)
      → (passes (version_checks x strict sla) ≡ true) ↔ (sla.version ≡ 1)
  unfolding version_checks
  passes-version_checks strict sla = ground arith

  passes-profile_checks :
      (strict : Bool) (profile : Option String)
      → (passes (profile_checks x strict profile) ≡ true) ↔ ProfileAccepted strict profile
  unfolding profile_checks
  passes-profile_checks strict none = ground arith
  passes-profile_checks strict (some pid) = ground (arith, eq_iff pid api_quality_v1_profile_id)

  key_of_has_field :
      (o : Option Object) (field : String)
      → has_field x o field ≡ true
      → (obj : Object) × (o ≡ some obj) × (contains_key obj field ≡ true)
  key_of_has_field none field h = cc
  key_of_has_field (some obj) field h = (obj, refl, h)

  has_field-HasKey :
      (body : Value) (field : String)
      → (has_field x (as_object body) field ≡ true) ↔ HasKey body field
  has_field-HasKey body field = (key_of_has_field (as_object body) field, λ k. rw k.1 k.2)

  passes-field_checks :
      (body : Value) (fields : List String)
      → (passes (field_checks x (as_object body) fields) ≡ true) ↔ All (HasKey body) fields
  unfolding field_checks
  passes-field_checks body [] = (λ _. tt, λ _. refl)
  passes-field_checks body (f ∷ fs) =
      and_iff (has_field-HasKey body f) (passes-field_checks body fs)

  accepted_by :
      (r : Result String Validator) (body : Value)
      → (passes (schema_outcome x r body ∷ []) ≡ true)
        ↔ ((v : Validator) × (r ≡ ok v) × (is_valid v body ≡ true))
  accepted_by (ok v) body = (λ h. (v, refl, ground arith), λ k. ground (arith, k.1, k.2))
  accepted_by (err e) body = (λ h. cc, λ k. cc (k.1))

  passes-schema_checks :
      (schema : Option Value) (body : Value)
      → (passes (schema_checks x schema body) ≡ true) ↔ SchemaAccepts schema body
  unfolding schema_checks
  passes-schema_checks none body = (λ _. tt, λ _. refl)
  passes-schema_checks (some s) body = accepted_by (validator_for s) body

  passes-length_checks :
      (least : Option ℕ) (body : Value)
      → (passes (length_checks x least body) ≡ true) ↔ LongEnough least body
  unfolding length_checks
  passes-length_checks none body = (λ _. tt, λ _. refl)
  passes-length_checks (some n) body = ground arith

  pub guarded-field_checks :
      (body : Option Object) (fields : List String)
      → (if is_empty fields then [] else field_checks x body fields) ≡ field_checks x body fields
  unfolding field_checks
  guarded-field_checks body [] = refl
  guarded-field_checks body (f ∷ fs) = refl

  passes_parts :
      (strict : Bool) (sla : SlaDocument Value) (e : DeliveryEvidence Value Object)
      → passes (all_checks x strict sla e) ≡ (
          passes (version_checks x strict sla)
          && (passes (profile_checks x strict sla.profile_id)
              && (leb sla.min_status_code e.status_code
                  && (leb e.status_code sla.max_status_code
                      && (leb e.latency_ms sla.max_latency_ms
                          && (passes
                                (field_checks x (as_object e.response_body) sla.required_fields)
                              && (passes (schema_checks x sla.response_schema e.response_body)
                                  && passes
                                      (length_checks x sla.min_body_length e.response_body))))))))
  unfolding all_checks status_check latency_check
  passes_parts strict sla e = simp (guarded-field_checks, all-append, and_assoc)

  rule_parts :
      (strict : Bool) (sla : SlaDocument Value) (e : DeliveryEvidence Value Object)
      → (passes (all_checks x strict sla e) ≡ true) ↔ (
          (sla.version ≡ 1)
          × (ProfileAccepted strict sla.profile_id
              × ((sla.min_status_code ≤ e.status_code)
                  × ((e.status_code ≤ sla.max_status_code)
                      × ((e.latency_ms ≤ sla.max_latency_ms)
                          × (All (HasKey e.response_body) sla.required_fields
                              × (SchemaAccepts sla.response_schema e.response_body
                                  × LongEnough sla.min_body_length e.response_body)))))))
  rule_parts strict sla e = rw passes_parts (
      and_iff (passes-version_checks strict sla) (
        and_iff (passes-profile_checks strict sla.profile_id) (
          and_iff (leb_iff _ _) (
            and_iff (leb_iff _ _) (
              and_iff (leb_iff _ _) (
                and_iff (passes-field_checks e.response_body sla.required_fields) (
                  and_iff (passes-schema_checks sla.response_schema e.response_body)
                    (passes-length_checks sla.min_body_length e.response_body))))))))

  -- The evaluator never fails, and it approves exactly the deliveries that comply with every rule of
  -- the profile; the strict evaluator also wants the profile to be declared.
  pub approved_iff_Complies :
      (strict : Bool) (sla : SlaDocument Value) (e : DeliveryEvidence Value Object)
      → (r : EvaluationResult) × (evaluate x strict sla e ≡ ok r)
        × ((r.approved ≡ true) ↔ Complies strict sla e)
  unfolding evaluate
  approved_iff_Complies strict sla e = (
    _,
    refl,
    (
      λ h.
          let k = (rule_parts strict sla e).0 h in
          record {
            version_one = k.0;
            profile = k.1.0;
            status_from = k.1.1.0;
            status_to = k.1.1.1.0;
            in_time = k.1.1.1.1.0;
            fields = k.1.1.1.1.1.0;
            schema = k.1.1.1.1.1.1.0;
            long_enough = k.1.1.1.1.1.1.1;
          },
      λ k. (rule_parts strict sla e).1 (
        k.version_one,
        (
          k.profile,
          (k.status_from, (k.status_to, (k.in_time, (k.fields, (k.schema, k.long_enough))))),
        ),
      ),
    ),
  )
