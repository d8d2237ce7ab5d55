-- ===== src/Webhook/Observer.antt =====
-- packages/webhook/src/webhook-batch.observer.ts: events that are posted to the addresses, with
-- retries.
use nest_batch.Prelude.{
  ℕ, zero, suc, ◌-◌, ◌/◌, min, String, not, ◌&&◌, Option, none, some, List, [], ◌∷◌, get_elem?,
  length, Result, ok, err, leb, ltb, ◌==◌, if◌then◌else◌,
}
use nest_batch.Prelude.Text.{Text}
use nest_batch.Prelude.Sets.{member}
use nest_batch.Prelude.Effects.{Exec, pure, lift, gets, modify, attempt as try_it, ◌>>=◌, ◌>>◌}
use nest_batch.Errors.{BatchError, Message, message_of}
use nest_batch.Context.{Json}
use nest_batch.Webhook.Signing.{Crypto, build_signature_header, fingerprint_secret}
use nest_batch.Webhook.Options.{ResolvedOptions}

pub record BatchEvent : Type 0 where
  pub type : String
  pub iso_timestamp : String
  pub job_execution_id : String
  pub step_execution_id : Option String
  pub payload : Json

pub record WebhookEnvelope : Type 0 where
  pub version : ℕ
  pub type : String
  pub timestamp : String
  pub job_id : String
  pub step_id : Option String
  pub execution : Json

pub data Outcome : Type 0 where
  success client_error server_error : (status : ℕ) → Outcome
  network_error : Message → Outcome

-- The lines that the observer logs
pub data Line : Type 0 where
  delivered delivered_after_retry : (attempt status : ℕ) → Line
  retry : (attempt : ℕ) → (last_status : Option ℕ) → (delay_ms : ℕ) → Line
  dead_letter :
      (url : Text) → (attempts : ℕ) → (last_status : Option ℕ) → (secret_sha256 : Text) → Line
  unexpected : BatchError → Line

-- The world, and the log with its newest line first.
pub record Delivery (W : Type 0) : Type 0 where
  pub world : W
  pub log : List Line

abbrev pub Run : Type 0 → Type 0 → Type 0
Run W A = Exec BatchError (Delivery W) A

-- A request: what `fetch` is called with.
pub record Request : Type 0 where
  pub url : Text
  pub body : Text
  pub signature : Text
  pub timestamp : ℕ
  pub timeout_ms : ℕ

-- `fetch` answers with a status or throws, which a timeout makes it do too.
pub record Host (W : Type 0) : Type 0 where
  pub fetch : Request → Exec BatchError W ℕ
  pub sleep : ℕ → W → W
  pub now_ms : W → ℕ
  pub stringify : WebhookEnvelope → Text
  pub crypto : Crypto

unfoldable pub build_envelope : BatchEvent → WebhookEnvelope
build_envelope event = record {
  version = 1;
  type = event.type;
  timestamp = event.iso_timestamp;
  job_id = event.job_execution_id;
  step_id = event.step_execution_id;
  execution = event.payload;
}

unfoldable pub classify : (status : ℕ) → Outcome
classify status =
    if leb 200 status && ltb status 300
    then success status
    else if leb 400 status && ltb status 500
    then client_error status
    else server_error status

unfoldable pub outcome_of : Result BatchError ℕ → Outcome
unfolding classify
outcome_of (ok status) = classify status
outcome_of (err e) = network_error (message_of e)

unfoldable pub status_of : Outcome → Option ℕ
status_of (network_error e) = none
status_of (success status) = some status
status_of (client_error status) = some status
status_of (server_error status) = some status

-- `this.retryDelaysMs[delayIndex] ?? 0`
unfoldable pub delay_or_zero : Option ℕ → ℕ
delay_or_zero none = 0
delay_or_zero (some ms) = ms

unfoldable pub delay_ms : List ℕ → (attempt : ℕ) → ℕ
unfolding delay_or_zero
delay_ms delays attempt = delay_or_zero (get_elem? delays (min (attempt - 1) (length delays - 1)))

module _ {W : Type 0} (host : Host W) where
  unfoldable pub write : Line → Run W (Unit {0})
  write line = modify (λ s. record s { log = line ∷ s.log })

  -- `sleep`, which returns at once for 0
  unfoldable pub slept : ℕ → W → W
  slept ms world = if ms == 0 then world else host.sleep ms world

  unfoldable pub pause : ℕ → Run W (Unit {0})
  unfolding slept
  pause ms = modify (λ s. record s { world = slept ms s.world })

  -- `attemptOnce`
  unfoldable pub attempt_once : Request → Run W Outcome
  unfolding outcome_of
  attempt_once request s =
      let (answer, world) = host.fetch request s.world in
      (ok (outcome_of answer), record s { world = world })

  module _ (delays : List ℕ) (total_attempts : ℕ) (fingerprint : Text) (request : Request) where
    unfoldable pub give_up : (attempts : ℕ) → Option ℕ → Run W (Unit {0})
    unfolding write
    give_up attempts last_status = write (dead_letter request.url attempts last_status fingerprint)

    -- The end of a turn of the loop, behind an attempt that can be repeated
    unfoldable pub wait : (attempt : ℕ) → Option ℕ → Run W (Unit {0})
    unfolding write pause delay_ms
    wait attempt last_status =
        if ltb attempt total_attempts
        then (do
          write (retry attempt last_status (delay_ms delays attempt))
          pause (delay_ms delays attempt))
        else pure tt

    unfoldable pub note_delivered : (attempt status : ℕ) → Run W (Unit {0})
    unfolding write
    note_delivered attempt status =
        if ltb 1 attempt
        then write (delivered_after_retry attempt status)
        else write (delivered attempt status)

    -- What follows an attempt: `again` is the rest of the loop.
    unfoldable pub after_attempt :
        (attempt : ℕ) → (again : Option ℕ → Run W (Unit {0})) → Outcome → Run W (Unit {0})
    unfolding note_delivered give_up wait status_of
    after_attempt attempt again (success status) = note_delivered attempt status
    after_attempt attempt again (client_error status) = give_up attempt (some status)
    after_attempt attempt again (server_error status) = do
      wait attempt (some status)
      again (some status)
    after_attempt attempt again (network_error e) = do wait attempt none; again none

    -- `for (let attempt = 1; attempt <= totalAttempts; attempt++)`, with `left` turns left.
    unfoldable pub attempts_from : (left attempt : ℕ) → (last_status : Option ℕ) → Run W (Unit {0})
    unfolding give_up attempt_once after_attempt
    attempts_from zero attempt last_status = give_up total_attempts last_status
    attempts_from (suc left) attempt last_status = do
      outcome ← attempt_once request
      after_attempt attempt (attempts_from left (suc attempt)) outcome

  module _ (options : ResolvedOptions) (delays : List ℕ) where
    unfoldable pub deliver_to_url : (url body : Text) → Run W (Unit {0})
    unfolding build_signature_header fingerprint_secret attempts_from
    deliver_to_url url body = do
      now_ms ← gets (λ s. host.now_ms s.world)
      signature ← lift (build_signature_header host.crypto options.secret (now_ms / 1000) body)
      attempts_from delays options.attempts (fingerprint_secret host.crypto options.secret)
          (record {
            url = url;
            body = body;
            signature = signature;
            timestamp = now_ms / 1000;
            timeout_ms = options.timeout_ms;
          })
          options.attempts 1 none

    -- `Promise.all`, in the order in which the deliveries start.
    unfoldable pub deliver_each : (urls : List Text) → (body : Text) → Run W (Unit {0})
    unfolding deliver_to_url
    deliver_each [] body = pure tt
    deliver_each (url ∷ urls) body = do deliver_to_url url body; deliver_each urls body

    unfoldable pub deliver_to_all : BatchEvent → Run W (Unit {0})
    unfolding build_envelope deliver_each
    deliver_to_all event = deliver_each options.urls (host.stringify (build_envelope event))

    -- The `catch` of `onEvent`
    unfoldable pub swallow : Result BatchError (Unit {0}) → Run W (Unit {0})
    unfolding write
    swallow (ok u) = pure tt
    swallow (err e) = write (unexpected e)

    unfoldable pub on_event : BatchEvent → Run W (Unit {0})
    unfolding deliver_to_all swallow
    on_event event =
        if not (member event.type options.events)
        then pure tt
        else if length options.urls == 0
        then pure tt
        else (do outcome ← try_it (deliver_to_all event); swallow outcome)
