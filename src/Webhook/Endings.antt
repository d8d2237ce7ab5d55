-- ===== src/Webhook/Endings.antt =====
-- The ends of `deliverToUrl` of packages/webhook/src/webhook-batch.observer.ts.
use nest_batch.Prelude.{ℕ, ◌/◌, ◌≤◌, ◌<◌, ◌≡◌, refl, List, ◌∷◌, none, ok, ltb, if◌then◌else◌, arith}
use nest_batch.Prelude.Text.{Text}
use nest_batch.Webhook.Signing.{build_signature_header, fingerprint_secret}
use nest_batch.Webhook.Options.{ResolvedOptions}
use nest_batch.Webhook.Observer.{
  Line, delivered, delivered_after_retry, Delivery, Request, Host, deliver_to_url,
}
use nest_batch.Webhook.Delivering.{Closed, turns-Closed, Recovers, attempts-Delivered}

module _ {W : Type 0} (host : Host W) (options : ResolvedOptions) (delays : List ℕ) where
  -- The request that a delivery repeats
  abbrev pub request_of : (url body signature : Text) → (now_ms : ℕ) → Request
  request_of url body signature now_ms = record {
    url = url;
    body = body;
    signature = signature;
    timestamp = now_ms / 1000;
    timeout_ms = options.timeout_ms;
  }

  -- Where there are attempts and the signature can be built, a delivery returns, and what it logs
  -- is a line for each retry, fewer than attempts, and one last line: delivered, with the attempt
  -- after the retries, or dead, with the fingerprint and either that attempt and its status or the
  -- number of all attempts.
  pub deliver_to_url-Closed :
      (url body signature : Text) (s : Delivery W)
      → 0 < options.attempts
      → build_signature_header host.crypto options.secret (host.now_ms s.world / 1000) body
        ≡ ok signature
      → ((deliver_to_url host options delays url body s).0 ≡ ok tt)
        × Closed options.attempts url
            (fingerprint_secret host.crypto options.secret)
            s.log
            (deliver_to_url host options delays url body s).1.log
  unfolding deliver_to_url
  deliver_to_url-Closed url body signature s lt e = rw e (
      turns-Closed host delays options.attempts (fingerprint_secret host.crypto options.secret)
        (request_of url body signature (host.now_ms s.world)) options.attempts s refl lt)

  -- If the receiver answers within the 200s at a turn that is among the attempts, and before that
  -- only with errors and with statuses outside of the 200s and the 400s, the delivery ends with
  -- the line that says that this turn delivered.
  pub deliver_to_url-Recovers :
      (url body signature : Text) (n status : ℕ) (s : Delivery W)
      → n ≤ options.attempts
      → build_signature_header host.crypto options.secret (host.now_ms s.world / 1000) body
        ≡ ok signature
      → Recovers host delays
          (request_of url body signature (host.now_ms s.world))
          status
          n
          1
          s.world
      → (before : List Line) × ((deliver_to_url host options delays url body s).1.log
          ≡ (if ltb 1 n then delivered_after_retry n status else delivered n status) ∷ before)
  unfolding deliver_to_url
  deliver_to_url-Recovers url body signature n status s lt e rec = rw e (
      attempts-Delivered host delays options.attempts
        (fingerprint_secret host.crypto options.secret)
        (request_of url body signature (host.now_ms s.world)) options.attempts 1 n status none s
        (omega arith) lt rec)
