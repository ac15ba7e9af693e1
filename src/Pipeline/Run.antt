-- ===== src/Pipeline/Run.antt =====
-- src/pipeline.rs, `run_pipeline`.
use oracle_qa.Prelude.{ℤ, String, Bytes, ◌++◌, Option, some, Result}
use oracle_qa.Prelude.Text.{◌⊹◌}
use oracle_qa.Error.{OracleError, sla_parse, delivery_parse, evaluation}
use oracle_qa.Types.{EvaluationJob, EvaluationResult}
use oracle_qa.State.{OracleConfig}
use oracle_qa.External.{Deps}
use oracle_qa.Evaluator.Checks.{evaluate}
use oracle_qa.Fetch.Loop.{Network, fetch_evidence}
use oracle_qa.Settler.Chain.{AccountReply, is_eligible}
use oracle_qa.Settler.Confirm.{compute_resolution_hash, settle}
use oracle_qa.Pipeline.Exec.{Exec, pure, unless, lift, ◌>>=◌, ◌>>◌}

pub record PipelineOutcome : Type 0 where
  pub result : EvaluationResult
  pub signature : Option String
  pub resolution_hash : Bytes

-- What the chain and the registries answer during one run. The replies of the chain are to the calls
-- in the order of the code: the payment account (by the key that is asked), the clock account (with the wall clock at that
-- moment), the latest blockhash, and the transaction.
pub record Surroundings : Type 0 where
  pub payment_reply : Bytes → AccountReply
  pub clock_reply : AccountReply
  pub wall_clock : ℤ
  pub net : Network
  pub blockhash_reply : Result String Bytes
  pub send_reply : Result String String

module _ (x : Deps) (config : OracleConfig) (env : Surroundings) where
  open x use {Value, Object, hex}

  unfoldable pub fetch :
      {T : Type 0} → (Bytes → Result String T) → (String → OracleError) → Bytes → Exec T
  fetch parse parse_error hash s =
      let f = fetch_evidence x config parse parse_error env.net hash s.stats s.requests in
      (f.result, record s { stats = f.stats; requests = f.progress.sent })

  unfoldable pub submit : EvaluationJob → EvaluationResult → Bytes → Exec String
  submit job result hash s =
      let done =
        settle x config env.blockhash_reply env.send_reply job result.approved
          result.resolution_reason hash in
      (done.result, record s { submitted = s.submitted ++ done.submitted })

  unfoldable pub run_pipeline : EvaluationJob → Exec PipelineOutcome
  run_pipeline job = do
    eligible ← lift (
        is_eligible x (env.payment_reply job.payment_pubkey) env.clock_reply env.wall_clock
          config.oracle_pubkey)
    unless eligible (
        evaluation
          ("Payment " ⊹ hex job.payment_uid ⊹ " is no longer eligible for oracle confirmation"))
    sla ← fetch x.sla_from_slice sla_parse job.sla_hash
    evidence ← fetch x.delivery_from_slice delivery_parse job.delivery_hash
    result ← lift (evaluate x config.strict_profile sla evidence)
    resolution_hash ← lift (compute_resolution_hash x job sla result)
    sig ← submit job result resolution_hash
    pure (record { result = result; signature = some sig; resolution_hash = resolution_hash })
