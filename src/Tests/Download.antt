-- ===== src/Tests/Download.antt =====
-- The download on the samples: the first mirror is down, the second has the document.
use oracle_qa.Prelude.{◌≡◌, ◌≤◌, ◌+◌, ◌*◌, refl, [], ◌∷◌, ok, err, arith, length, if◌then◌else◌}
use oracle_qa.Prelude.Text.{str_eq, trim_end_slashes}
use oracle_qa.Error.{sla_parse, evidence_not_found}
use oracle_qa.State.{default_stats}
use oracle_qa.Samples.{
  sample_deps, sample_config, sample_net, sample_sla, sla_bytes, delivery_bytes,
}
use oracle_qa.Fetch.Loop.{
  Network, failed, response, fetch_evidence, check_body, mirrors, attempts, handle_reply, pause,
}
use oracle_qa.Fetch.Integrity.{Verified, fetch_evidence-Verified}
use oracle_qa.Fetch.Effort.{fetch_evidence-requests, Ends, fetch_evidence-Ends}
use oracle_qa.Fetch.Mirrors.{fetch_evidence-first_answer, StopsAt, mismatch_ends}
use oracle_qa.Fetch.Trace.{times, urls_of}

downloads :
    (fetch_evidence sample_deps sample_config sample_deps.sla_from_slice sla_parse sample_net
      sla_bytes default_stats 0).result
    ≡ ok sample_sla
unfolding fetch_evidence mirrors attempts handle_reply pause check_body trim_end_slashes
downloads = refl

fetch_evidence-Verified_example :
    Verified sample_deps sample_deps.sla_from_slice sample_net sla_bytes sample_sla
fetch_evidence-Verified_example =
    fetch_evidence-Verified sample_deps sample_config sample_deps.sla_from_slice sla_parse
      sample_net sla_bytes default_stats 0 sample_sla downloads

fetch_evidence-requests_example :
    let f =
      fetch_evidence sample_deps sample_config sample_deps.sla_from_slice sla_parse sample_net
        sla_bytes default_stats 0 in
    (times "http://b/00" f.progress.asked
      ≤ times "http://b/00" (
          urls_of sample_deps sample_config sample_deps.sla_from_slice sla_parse sample_net
            sla_bytes sample_config.evidence_registry_urls)
        * sample_config.evidence_fetch_max_retries)
    × (0 ≤ f.progress.sent)
    × (f.progress.sent
        ≤ 0
          + length sample_config.evidence_registry_urls * sample_config.evidence_fetch_max_retries)
fetch_evidence-requests_example =
    fetch_evidence-requests sample_deps sample_config sample_deps.sla_from_slice sla_parse
      sample_net sla_bytes default_stats 0 "http://b/00"

abbrev no_net : Network
no_net n url = failed "down"

fetch_evidence-Ends_example :
    Ends sample_deps sample_config sample_deps.sla_from_slice sla_parse no_net sla_bytes
      default_stats 0
      (fetch_evidence sample_deps sample_config sample_deps.sla_from_slice sla_parse no_net
        sla_bytes default_stats 0)
fetch_evidence-Ends_example =
    fetch_evidence-Ends sample_deps sample_config sample_deps.sla_from_slice sla_parse no_net
      sla_bytes default_stats 0

-- Both mirrors answer, the first with other bytes than the second.
abbrev split_net : Network
split_net n url = response 200 (ok (if str_eq url "http://b/00" then sla_bytes else delivery_bytes))

fetch_evidence-first_answer_example :
    let f =
      fetch_evidence sample_deps sample_config sample_deps.sla_from_slice sla_parse split_net
        sla_bytes default_stats 0 in
    (f.result
      ≡ check_body sample_deps sample_config sample_deps.sla_from_slice sla_parse sla_bytes
          delivery_bytes)
    × (f.stats ≡ default_stats)
unfolding trim_end_slashes
fetch_evidence-first_answer_example =
    fetch_evidence-first_answer sample_deps sample_config sample_deps.sla_from_slice sla_parse
      split_net sla_bytes "http://a/" 200 delivery_bytes (λ n. refl) refl (omega arith) []
      ("http://b" ∷ []) default_stats 0 refl refl tt

mismatch_ends_example :
    let f =
      fetch_evidence sample_deps sample_config sample_deps.sla_from_slice sla_parse split_net
        sla_bytes default_stats 0 in
    (f.result
      ≡ err (
          evidence_not_found
            "Hash mismatch for 00: document bytes do not match on-chain hash (got 00)"))
    × StopsAt sample_deps sample_config sample_deps.sla_from_slice sla_parse split_net sla_bytes
        "http://a/" [] f.progress.asked
unfolding trim_end_slashes
mismatch_ends_example =
    mismatch_ends sample_deps sample_config sample_deps.sla_from_slice sla_parse split_net sla_bytes
      "http://a/" 200 delivery_bytes (λ n. refl) refl (omega arith) [] ("http://b" ∷ [])
      default_stats 0 refl refl tt (λ e. ground arith)
