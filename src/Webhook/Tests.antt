-- ===== src/Webhook/Tests.antt =====
-- Runs of packages/webhook/src.
use nest_batch.Prelude.{
  ℕ, suc, ◌≡◌, refl, ap, none, some, List, [], ◌∷◌, true, ok, arith, if◌then◌else◌, ◌==◌,
}
use nest_batch.Prelude.Sets.{member}
use nest_batch.Prelude.Text.{Text, text, text_eq, text_eq_refl}
use nest_batch.Context.{null}
use nest_batch.Webhook.Signing.{
  Crypto, ParsedSignature, is_empty, show, parse_int, plus, parse_signature_header,
  build_signature_header, fingerprint_secret, verify_v1,
}
use nest_batch.Webhook.Header.{HexDigit, IsLawful, verify-build_signature_header}
use nest_batch.Webhook.Options.{
  ResolvedOptions, resolve_webhook_options, default_webhook_events, fast_webhook_retry_delays_ms,
}
use nest_batch.Webhook.Observer.{
  BatchEvent, Line, delivered_after_retry, retry, Delivery, Host, deliver_to_url, on_event, slept,
  delay_ms,
}
use nest_batch.Webhook.Delivering.{Closed, server_failed, accepts, fails}
use nest_batch.Webhook.Endings.{deliver_to_url-Closed, deliver_to_url-Recovers}

show_number : show 1717941612 (text ",") ≡ text "1717941612,"
unfolding show
show_number = refl

parse_int_number : parse_int (text " 42x") ≡ plus 42
unfolding parse_int
parse_int_number = refl

abbrev crypto : Crypto
crypto = record {
  hmac_sha256_hex = λ secret message. text "4f3a";
  sha256_hex = λ message. text "0123456789abcdef";
  hex_bytes = λ hex. hex;
  timing_safe_equal = λ a b. some (text_eq a b);
}

crypto-IsLawful : IsLawful crypto
unfolding is_empty HexDigit
crypto-IsLawful = record {
  digits = λ secret message. (refl, (refl, (refl, (refl, tt))));
  filled = λ secret message. refl;
  same = λ bytes. ap some (text_eq_refl bytes);
}

reads_header :
    parse_signature_header (text "t=12, v1=ab,v2=cd")
    ≡ ok (record { timestamp = 12; v1 = text "ab" })
unfolding parse_signature_header
reads_header = refl

verify-build_signature_header_example :
    (header : Text) × (read : ParsedSignature) × (build_signature_header crypto
        (text "key")
        1717941612
        (text "{}")
      ≡ ok header)
    × (parse_signature_header header ≡ ok read)
    × (read.timestamp ≡ 1717941612)
    × (verify_v1 crypto (text "key") read.timestamp (text "{}") read.v1 ≡ ok true)
unfolding build_signature_header
verify-build_signature_header_example =
    verify-build_signature_header crypto (text "key") 1717941612 (text "{}") crypto-IsLawful refl

abbrev options : ResolvedOptions
options = record {
  secret = text "key";
  urls = text "http://a" ∷ [];
  events = default_webhook_events;
  attempts = 4;
  timeout_ms = 10000;
}

empty_events :
    resolve_webhook_options none (record {
      secret = some (text "key");
      urls = [];
      events = some [];
      attempts = some 9;
      timeout_ms = some 1;
    })
    ≡ ok (record {
      secret = text "key";
      urls = [];
      events = default_webhook_events;
      attempts = 4;
      timeout_ms = 100;
    })
unfolding resolve_webhook_options
empty_events = refl

-- The world counts the requests: the first one fails.
abbrev host : Host ℕ
host = record {
  fetch = λ request count. (ok (if count == 0 then 500 else 204), suc count);
  sleep = λ ms count. count;
  now_ms = λ count. 1717941612345;
  stringify = λ envelope. text "{}";
  crypto = crypto;
}

abbrev begin : Delivery ℕ
begin = record { world = 0; log = [] }

abbrev event : BatchEvent
event = record {
  type = "nest-batch.job.completed";
  iso_timestamp = "2024-06-09T14:00:12.345Z";
  job_execution_id = "1";
  step_execution_id = none;
  payload = null;
}

event_retried :
    on_event host options fast_webhook_retry_delays_ms event begin
    ≡ (ok tt, record { world = 2; log = delivered_after_retry 2 204 ∷ retry 1 (some 500) 1 ∷ [] })
unfolding on_event member
event_retried = refl

abbrev header : Text
header = text "t=1717941612,v1=4f3a"

deliver_to_url-Closed_example :
    ((deliver_to_url host options fast_webhook_retry_delays_ms
        (text "http://a")
        (text "{}")
        begin).0
      ≡ ok tt)
    × Closed 4
        (text "http://a")
        (fingerprint_secret crypto (text "key"))
        []
        (deliver_to_url host options fast_webhook_retry_delays_ms
          (text "http://a")
          (text "{}")
          begin).1.log
unfolding build_signature_header
deliver_to_url-Closed_example =
    deliver_to_url-Closed host options fast_webhook_retry_delays_ms (text "http://a") (text "{}")
      header begin (omega arith) refl

deliver_to_url-Recovers_example :
    (before : List Line) × ((deliver_to_url host options fast_webhook_retry_delays_ms
        (text "http://a")
        (text "{}")
        begin).1.log
      ≡ delivered_after_retry 2 204 ∷ before)
unfolding build_signature_header slept delay_ms
deliver_to_url-Recovers_example =
    deliver_to_url-Recovers host options fast_webhook_retry_delays_ms (text "http://a") (text "{}")
      header 2 204 begin (omega arith) refl
      (fails (server_failed 500 (omega arith)) (accepts refl (omega arith) (omega arith)))
