-- ===== src/Tests/Completion.antt =====
-- A run that comes to its end: the first mirror is down, the second holds both documents.
use oracle_qa.Prelude.{
  ◌≡◌, ◌↔◌, refl, true, String, Bytes, [], ◌∷◌, some, ok, arith, bytes_eq, if◌then◌else◌,
}
use oracle_qa.Prelude.Text.{str_eq, trim_end_slashes}
use oracle_qa.Samples.{
  sample_deps, sample_config, sample_env, sample_shared, sample_job, sample_sla, sample_evidence,
  sla_bytes, delivery_bytes,
}
use oracle_qa.Error.{sla_parse, delivery_parse}
use oracle_qa.External.{Deps}
use oracle_qa.Evaluator.Verdict.{Complies}
use oracle_qa.Fetch.Loop.{Network, failed, response}
use oracle_qa.Settler.Chain.{is_eligible, payment_eligible, chain_unix_timestamp}
use oracle_qa.Settler.Confirm.{confirm_oracle}
use oracle_qa.Pipeline.Exec.{Shared}
use oracle_qa.Pipeline.Run.{PipelineOutcome, Surroundings, run_pipeline}
use oracle_qa.Pipeline.Completes.{Serves, run_pipeline_completes}

abbrev name_of : Bytes → String
name_of hash = if bytes_eq hash sla_bytes then "sla" else "delivery"

abbrev deps : Deps
deps = record sample_deps { encodings = record sample_deps.encodings { hex = name_of } }

abbrev net : Network
net n url =
    if str_eq url "http://b/sla"
    then response 200 (ok sla_bytes)
    else if str_eq url "http://b/delivery"
    then response 200 (ok delivery_bytes)
    else failed "connection refused"

abbrev env : Surroundings
env = record sample_env { net = net }

able :
    is_eligible deps
      (env.payment_reply sample_job.payment_pubkey)
      env.clock_reply
      env.wall_clock
      (9 ∷ [])
    ≡ ok true
unfolding is_eligible payment_eligible chain_unix_timestamp
able = refl

sla_there : Serves deps sample_config env deps.sla_from_slice sla_parse sla_bytes sample_sla
unfolding trim_end_slashes
sla_there = record {
  before = "http://a/" ∷ [];
  base = "http://b";
  after = [];
  code = 200;
  raw = sla_bytes;
  authorized = refl;
  listed = refl;
  quiet = (λ n. tt, tt);
  answers = λ n. refl;
  good = refl;
  committed = refl;
  parses = refl;
}

delivery_there :
    Serves deps sample_config env deps.delivery_from_slice delivery_parse delivery_bytes
      sample_evidence
unfolding trim_end_slashes
delivery_there = record {
  before = "http://a/" ∷ [];
  base = "http://b";
  after = [];
  code = 200;
  raw = delivery_bytes;
  authorized = refl;
  listed = refl;
  quiet = (λ n. tt, tt);
  answers = λ n. refl;
  good = refl;
  committed = refl;
  parses = refl;
}

run_pipeline_completes_example :
    (o : PipelineOutcome) × (t : Shared) × (run_pipeline deps sample_config env sample_job
        sample_shared
      ≡ (ok o, t))
    × (o.signature ≡ some "sig")
    × ((o.result.approved ≡ true) ↔ Complies deps true sample_sla sample_evidence)
    × (t.submitted
        ≡ confirm_oracle deps sample_config sample_job o.result.approved o.result.resolution_reason
            o.resolution_hash
          ∷ [])
    × (t.stats ≡ sample_shared.stats)
run_pipeline_completes_example =
    run_pipeline_completes deps sample_config env sample_job sample_sla sample_evidence
      sample_shared [] "sig" able (omega arith) sla_there delivery_there (λ result. (3 ∷ [], refl))
      refl refl
