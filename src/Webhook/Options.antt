-- ===== src/Webhook/Options.antt =====
-- packages/webhook/src/module-options.ts: the options of the observer, with their defaults.
use nest_batch.Prelude.{
  ℕ, String, Option, none, some, List, [], ◌∷◌, min, max, ok, err, if◌then◌else◌, ◌>>=◌, ◌>>◌,
}
use nest_batch.Prelude.Text.{Text}
use nest_batch.Errors.{plain_error, Throws}
use nest_batch.Webhook.Signing.{is_empty}

-- `WebhookBatchModuleOptions`; the logger is a part of the log that the observer writes.
pub record RawOptions : Type 0 where
  pub secret : Option Text
  pub urls : List Text
  pub events : Option (List String)
  pub attempts : Option ℕ
  pub timeout_ms : Option ℕ

pub record ResolvedOptions : Type 0 where
  pub secret : Text
  pub urls : List Text
  pub events : List String
  pub attempts : ℕ
  pub timeout_ms : ℕ

abbrev pub default_webhook_events : List String
default_webhook_events =
    "nest-batch.job.completed" ∷ "nest-batch.job.failed" ∷ "nest-batch.step.failed" ∷ []

abbrev pub default_webhook_retry_delays_ms : List ℕ
default_webhook_retry_delays_ms = 1000 ∷ 5000 ∷ 25000 ∷ 125000 ∷ []

abbrev pub fast_webhook_retry_delays_ms : List ℕ
fast_webhook_retry_delays_ms = 1 ∷ 5 ∷ 25 ∷ 125 ∷ []

-- The secret of the host, or else that of the environment, unless it is empty
unfoldable pub if_filled : Option Text → Option Text → Option Text
unfolding is_empty
if_filled none otherwise = otherwise
if_filled (some s) otherwise = if is_empty s then otherwise else some s

unfoldable pub pick_secret : (from_env host_injected : Option Text) → Option Text
unfolding if_filled
pick_secret from_env host_injected = if_filled host_injected (if_filled from_env none)

unfoldable pub required_secret : Option Text → Throws Text
unfolding is_empty
required_secret none = err (plain_error "[WebhookBatchModule] secret is required")
required_secret (some s) =
    if is_empty s then err (plain_error "[WebhookBatchModule] secret is required") else ok s

unfoldable pub check_urls : List Text → Throws (Unit {0})
unfolding is_empty
check_urls [] = ok tt
check_urls (url ∷ urls) =
    let rest = check_urls urls in
    if is_empty url
    then err (plain_error "[WebhookBatchModule] every entry in `urls` must be a non-empty string")
    else rest

unfoldable pub resolved_events : Option (List String) → List String
resolved_events (some (e ∷ events)) = e ∷ events
resolved_events _ = default_webhook_events

unfoldable pub or_number : Option ℕ → ℕ → ℕ
or_number none default = default
or_number (some n) default = n

unfoldable pub resolve_webhook_options :
    (from_env : Option Text) → RawOptions → Throws ResolvedOptions
unfolding pick_secret required_secret check_urls resolved_events or_number
resolve_webhook_options from_env raw = do
  secret ← required_secret (pick_secret from_env raw.secret)
  check_urls raw.urls
  ok (record {
    secret = secret;
    urls = raw.urls;
    events = resolved_events raw.events;
    attempts = max 1 (min 4 (or_number raw.attempts 4));
    timeout_ms = max 100 (or_number raw.timeout_ms 10000);
  })
