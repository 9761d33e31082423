-- ===== src/WorkerApp/Tests.antt =====
-- A worker whose repository counts: a claim adds 1, a success 10 and a failure 100.
use tech_atlas.Prelude.{
  ℕ, ◌+◌, ◌≡◌, ◌≤◌, refl, ◌⊎◌, false, Option, none, some, List, [], ◌∷◌, String, Outcome, ok, err,
  arith,
}
use tech_atlas.Prelude.Text.{Text, text, trim, is_empty, utf8_len}
use tech_atlas.Crawler.Url.{Url, domain_host, parse_crawl_url}
use tech_atlas.Crawler.Response
use tech_atlas.Crawler.Response.{CrawlResponse}
use tech_atlas.Detector.Signals.{JsonLibrary}
use tech_atlas.Scheduler.Failure.{CrawlFailure}
use tech_atlas.Scheduler.Worker.{ready}
use tech_atlas.Queue.Server.{Network, answered, no_entries}
use tech_atlas.Queue.Streams.{ReceivedCrawlJob}
use tech_atlas.WorkerApp.{Toolbox, WorkerProcessError}
use tech_atlas.WorkerApp.Process.{
  WorkerRepository, Collaborators, from_repository, record_failure, process_and_acknowledge,
  processing_error,
}
use tech_atlas.WorkerApp.Summaries.{record_failure-bounded_summary}
use tech_atlas.WorkerApp.Settled.{IsSettled, process_and_acknowledge-IsSettled}
use tech_atlas.WorkerApp.Refused.{process_and_acknowledge_unrecorded}

abbrev page : Url
page = record {
  scheme = text "https";
  username = [];
  password = none;
  host = some (domain_host (text "a.org"));
  port = none;
  path = text "/";
  query = none;
  fragment = none;
}

-- The page answers with status 999.
abbrev refusal : CrawlResponse
refusal = record {
  final_url = page;
  resolved_addresses = [];
  redirects = [];
  status = 999;
  headers = [];
  body = [];
  dns = Response.unavailable Response.not_captured;
  tls = Response.unavailable Response.not_captured;
}

abbrev no_json : JsonLibrary Text Text
no_json = record {
  as_object = λ v. none;
  get = λ m key. none;
  as_str = λ v. none;
  as_u64 = λ v. none;
  as_array = λ v. none;
}

abbrev tools : Toolbox Text Text
tools = record {
  url_text = λ url. text "https://a.org/";
  address_text = λ address. text "192.0.2.1";
  observe_country = λ addresses. none;
  read_html = λ bytes. none;
  redact_html = λ bytes. none;
  json = no_json;
  new_regex = λ pattern. none;
}

abbrev counting : WorkerRepository ℕ Text
counting = record {
  claim_attempt = λ job s. (ok (ready (text "a.org")), s + 1);
  active_detection_rules = λ s. ok [];
  record_success = λ job record_of s. (ok tt, s + 10);
  record_failure = λ job failure s. (ok tt, s + 100);
}

abbrev others : Collaborators
others = record {
  library = record { parse_url = λ input. some page; join = λ url location. none };
  acquire = λ domain. ok tt;
  fetch = λ url. ok refusal;
  store = λ bytes. none;
  captured_at = 5;
  url_error_text = λ error. text "bad target";
  gate_error_text = λ error. text "gate";
  crawl_error_text = λ error. text "crawl";
}

abbrev calm : Network
calm n = answered

abbrev delivery : ReceivedCrawlJob
delivery = record {
  receipt = 3;
  job = record { job_id = 1; domain_id = 2; correlation_id = 4; idempotency_key = text "crawl:1" };
  delivery_count = 1;
}

named : is_empty (trim (text "network_timeout")) ≡ false
unfolding trim
named = refl

record_failure-bounded_summary_example :
    (failure : CrawlFailure) × (record_failure tools counting others delivery.job
        (text "network_timeout")
        (text "  ")
        0
      ≡ from_repository (counting.record_failure delivery.job failure 0))
    × (failure.code ≡ trim (text "network_timeout"))
    × (is_empty failure.summary ≡ false)
    × (utf8_len failure.summary ≤ 1024)
record_failure-bounded_summary_example =
    record_failure-bounded_summary tools counting others delivery.job (text "network_timeout")
      (text "  ") 0 named

process_and_acknowledge-IsSettled_example :
    let done = process_and_acknowledge tools counting (λ r. others) calm delivery 0 no_entries in
    (done.2 ≡ no_entries) ⊎ IsSettled tools counting delivery.job 0 done.1
process_and_acknowledge-IsSettled_example =
    process_and_acknowledge-IsSettled tools counting (λ r. others) calm delivery 0 no_entries

parsed : parse_crawl_url others.library (text "a.org") ≡ ok page
unfolding parse_crawl_url trim tech_atlas.Crawler.Url.from_url tech_atlas.Prelude.Text.eq_text
    tech_atlas.Prelude.Text.to_ascii_lowercase
parsed = refl

process_and_acknowledge_unrecorded_example :
    (error : WorkerProcessError) × (process_and_acknowledge tools counting
        (λ r. others)
        calm
        delivery
        0
        no_entries
      ≡ (err (processing_error error), 1, no_entries))
process_and_acknowledge_unrecorded_example =
    process_and_acknowledge_unrecorded tools counting (λ r. others) calm delivery 0 1 no_entries
      (text "a.org") page refusal refl parsed refl refl (omega arith)
