-- ===== src/Webhook/Delivering.antt =====
-- How a delivery of packages/webhook/src/webhook-batch.observer.ts ends.
use nest_batch.Prelude.{
  ℕ, zero, suc, ◌+◌, ◌≤◌, ◌<◌, ◌≡◌, refl, Bool, true, false, Option, none, some, List, ◌∷◌, ok, err,
  Result, ltb, if◌then◌else◌, Bool-cases, lt→ltb, subst, sym, inl, inr, arith,
}
use nest_batch.Prelude.Text.{Text}
use nest_batch.Errors.{BatchError}
use nest_batch.Prelude.Effects.{◌>>◌}
use nest_batch.Webhook.Observer.{
  Outcome, success, client_error, server_error, network_error, Line, delivered,
  delivered_after_retry, retry, dead_letter, Delivery, Run, Request, Host, outcome_of, classify,
  delay_ms, slept, pause, write, give_up, wait, note_delivered, status_of, after_attempt,
  attempt_once, attempts_from,
}

-- So many lines of retries were added to a log.
pub data Retries (base : List Line) : ℕ → List Line → Type 0 where
  nothing : Retries base zero base
  one_more :
      {n : ℕ} {log : List Line} (attempt : ℕ) (last_status : Option ℕ) (ms : ℕ)
      → Retries base n log
      → Retries base (suc n) (retry attempt last_status ms ∷ log)

-- The last line of a delivery, by the number of retries before it.
pub data Ending (total : ℕ) (url fingerprint : Text) : ℕ → Line → Type 0 where
  at_first : (status : ℕ) → Ending total url fingerprint 0 (delivered 1 status)
  at_last :
      (n status : ℕ) → 0 < n → Ending total url fingerprint n (delivered_after_retry (suc n) status)
  refused :
      (n status : ℕ)
      → Ending total url fingerprint n (dead_letter url (suc n) (some status) fingerprint)
  exhausted :
      (n : ℕ) (last_status : Option ℕ)
      → suc n ≡ total
      → Ending total url fingerprint n (dead_letter url total last_status fingerprint)

pub record Closed (total : ℕ) (url fingerprint : Text) (base log : List Line) : Type 0 where
  pub retries : ℕ
  pub before : List Line
  pub last : Line
  pub is_log : log ≡ last ∷ before
  pub are_retries : Retries base retries before
  pub ending : Ending total url fingerprint retries last
  pub within : retries < total

module _ {W : Type 0} (host : Host W) (delays : List ℕ) (total : ℕ) (fingerprint : Text)
    (request : Request) (base : List Line) where
  ClosedBy : Run W (Unit {0}) → Delivery W → Type 0
  ClosedBy m s = ((m s).0 ≡ ok tt) × Closed total request.url fingerprint base (m s).1.log

  delivered-Closed :
      (n status : ℕ) (s : Delivery W)
      → n < total
      → Retries base n s.log
      → ClosedBy (note_delivered host delays total fingerprint request (suc n) status) s
  unfolding ClosedBy note_delivered write
  delivered-Closed zero status s lt r = (
    refl,
    record {
      retries = zero;
      before = s.log;
      last = delivered 1 status;
      is_log = refl;
      are_retries = r;
      ending = at_first status;
      within = lt;
    },
  )
  delivered-Closed (suc n) status s lt r =
      let e : ltb 1 (suc (suc n)) ≡ true = ground arith in
      rw e (
        refl,
        record {
          retries = suc n;
          before = s.log;
          last = delivered_after_retry (suc (suc n)) status;
          is_log = refl;
          are_retries = r;
          ending = at_last (suc n) status (omega arith);
          within = lt;
        },
      )

  given_up-Closed :
      (n attempts : ℕ) (last_status : Option ℕ) (s : Delivery W)
      → n < total
      → Retries base n s.log
      → Ending total request.url fingerprint n
          (dead_letter request.url attempts last_status fingerprint)
      → ClosedBy (give_up host delays total fingerprint request attempts last_status) s
  unfolding ClosedBy give_up write
  given_up-Closed n attempts last_status s lt r e = (
    refl,
    record {
      retries = n;
      before = s.log;
      last = dead_letter request.url attempts last_status fingerprint;
      is_log = refl;
      are_retries = r;
      ending = e;
      within = lt;
    },
  )

  after-Closed :
      (n : ℕ) (again : Option ℕ → Run W (Unit {0})) (o : Outcome) (s : Delivery W)
      → n < total
      → Retries base n s.log
      → ((last_status : Option ℕ)
          → ClosedBy
              (wait host delays total fingerprint request (suc n) last_status >> again last_status)
              s)
      → ClosedBy (after_attempt host delays total fingerprint request (suc n) again o) s
  unfolding after_attempt status_of
  after-Closed n again (success status) s lt r later = delivered-Closed n status s lt r
  after-Closed n again (client_error status) s lt r later =
      given_up-Closed n (suc n) (some status) s lt r (refused n status)
  after-Closed n again (server_error status) s lt r later = later (some status)
  after-Closed n again (network_error e) s lt r later = later none

  attempts-Closed :
      (left n : ℕ) (last_status : Option ℕ) (s : Delivery W)
      → suc n + left ≡ total
      → Retries base n s.log
      → ClosedBy
          (attempts_from host delays total fingerprint request (suc left) (suc n) last_status)
          s
  unfolding attempts_from attempt_once wait pause write ClosedBy
  attempts-Closed zero n last_status s e r =
      let after : Delivery W = record s { world = (host.fetch request s.world).1 } in
      let no_more : ltb (suc n) total ≡ false = ground arith in
      after-Closed n (give_up host delays total fingerprint request total)
        (outcome_of (host.fetch request s.world).0) after (omega arith) r
        (λ last.
          rw no_more
            (given_up-Closed n total last after (omega arith) r (exhausted n last (omega arith))))
  attempts-Closed (suc left) n last_status s e r =
      let after : Delivery W = record s { world = (host.fetch request s.world).1 } in
      let more : ltb (suc n) total ≡ true = ground arith in
      after-Closed n (attempts_from host delays total fingerprint request (suc left) (suc (suc n)))
        (outcome_of (host.fetch request s.world).0) after (omega arith) r
        (λ last. rw more (
          attempts-Closed left (suc n) last
            (record {
              world = slept host (delay_ms delays (suc n)) after.world;
              log = retry (suc n) last (delay_ms delays (suc n)) ∷ s.log;
            })
            (omega arith) (one_more (suc n) last (delay_ms delays (suc n)) r)))

module _ {W : Type 0} (host : Host W) (delays : List ℕ) (total : ℕ) (fingerprint : Text)
    (request : Request) where
  pub turns-Closed :
      (turns : ℕ) (s : Delivery W)
      → turns ≡ total
      → 0 < turns
      → ((attempts_from host delays total fingerprint request turns 1 none s).0 ≡ ok tt)
        × Closed total request.url fingerprint s.log
            (attempts_from host delays total fingerprint request turns 1 none s).1.log
  unfolding ClosedBy
  turns-Closed zero s e lt = absurd (ground arith)
  turns-Closed (suc left) s e lt =
      attempts-Closed host delays total fingerprint request s.log left 0 none s (omega arith)
        nothing

unfoldable pub is_retryable : Outcome → Bool
is_retryable (success status) = false
is_retryable (client_error status) = false
is_retryable (server_error status) = true
is_retryable (network_error e) = true

-- An answer of `fetch` that is tried again: a throw, or a status that is in neither the 200s nor
-- the 400s
pub data Temporary : Result BatchError ℕ → Type 0 where
  threw : (e : BatchError) → Temporary (err e)
  below_success : (status : ℕ) → status < 200 → Temporary (ok status)
  redirected : (status : ℕ) → 300 ≤ status → status < 400 → Temporary (ok status)
  server_failed : (status : ℕ) → 500 ≤ status → Temporary (ok status)

outcome_of-success :
    (status : ℕ) → 200 ≤ status → status < 300 → outcome_of (ok status) ≡ success status
unfolding outcome_of classify
outcome_of-success status low high = ground arith

outcome_of-Temporary : (r : Result BatchError ℕ) → Temporary r → is_retryable (outcome_of r) ≡ true
unfolding outcome_of classify is_retryable
outcome_of-Temporary _ (threw e) = refl
outcome_of-Temporary _ (below_success status low) = ground arith
outcome_of-Temporary _ (redirected status low high) = ground arith
outcome_of-Temporary _ (server_failed status low) = ground arith

module _ {W : Type 0} (host : Host W) (delays : List ℕ) (request : Request) (status : ℕ) where
  -- The receiver answers within the 200s at the turn `n`, and before that only with answers that are
  -- tried again.
  pub data Recovers (n : ℕ) : (attempt : ℕ) → W → Type 0 where
    accepts :
        {w : W}
        → (host.fetch request w).0 ≡ ok status
        → 200 ≤ status
        → status < 300
        → Recovers n n w
    fails :
        {attempt : ℕ} {w : W}
        → Temporary (host.fetch request w).0
        → Recovers n (suc attempt) (slept host (delay_ms delays attempt) (host.fetch request w).1)
        → Recovers n attempt w

module _ {W : Type 0} (host : Host W) (delays : List ℕ) (total : ℕ) (fingerprint : Text)
    (request : Request) where
  -- The line that says that the turn `n` delivered
  abbrev pub delivery_line : (n status : ℕ) → Line
  delivery_line n status = if ltb 1 n then delivered_after_retry n status else delivered n status

  abbrev pub DeliveredBy : (n status : ℕ) → Run W (Unit {0}) → Delivery W → Type 0
  DeliveredBy n status m s = (before : List Line) × ((m s).1.log ≡ delivery_line n status ∷ before)

  Recovers-later :
      {n status attempt : ℕ} {w : W} → Recovers host delays request status n attempt w → attempt ≤ n
  Recovers-later (accepts h low high) = omega arith
  Recovers-later (fails r later) = omega (arith, Recovers-later later)

  delivered_now :
      (n status : ℕ) (s : Delivery W)
      → DeliveredBy n status (note_delivered host delays total fingerprint request n status) s
  unfolding note_delivered write
  delivered_now n status s = elim (Bool-cases (ltb 1 n)) [
    | inl e ↦ rw e (s.log, refl)
    | inr e ↦ rw e (s.log, refl)
  ]

  -- An attempt that can be repeated, with turns left
  repeated :
      (attempt n status : ℕ) (again : Option ℕ → Run W (Unit {0})) (o : Outcome) (s : Delivery W)
      → attempt < total
      → is_retryable o ≡ true
      → ((last_status : Option ℕ) (t : Delivery W)
          → t.world ≡ slept host (delay_ms delays attempt) s.world
          → DeliveredBy n status (again last_status) t)
      → DeliveredBy n status (after_attempt host delays total fingerprint request attempt again o) s
  unfolding after_attempt is_retryable status_of wait pause write
  repeated attempt n status again (success c) s lt h later = absurd cc
  repeated attempt n status again (client_error c) s lt h later = absurd cc
  repeated attempt n status again (server_error c) s lt h later = rw (lt→ltb attempt total lt) (
      later (some c)
        (record {
          world = slept host (delay_ms delays attempt) s.world;
          log = retry attempt (some c) (delay_ms delays attempt) ∷ s.log;
        })
        refl)
  repeated attempt n status again (network_error e) s lt h later = rw (lt→ltb attempt total lt) (
      later none
        (record {
          world = slept host (delay_ms delays attempt) s.world;
          log = retry attempt none (delay_ms delays attempt) ∷ s.log;
        })
        refl)

  pub attempts-Delivered :
      (left attempt n status : ℕ) (last_status : Option ℕ) (s : Delivery W)
      → attempt + left ≡ suc total
      → n ≤ total
      → Recovers host delays request status n attempt s.world
      → DeliveredBy n status
          (attempts_from host delays total fingerprint request left attempt last_status)
          s
  unfolding attempts_from attempt_once after_attempt
  attempts-Delivered zero attempt n status last s e lt rec =
      absurd (omega (arith, Recovers-later rec))
  attempts-Delivered (suc left) attempt n status last s e lt (accepts h low high) =
      rw (h, outcome_of-success status low high)
        (delivered_now n status (record s { world = (host.fetch request s.world).1 }))
  attempts-Delivered (suc left) attempt n status last s e lt (fails r rec) =
      repeated attempt n status
        (attempts_from host delays total fingerprint request left (suc attempt))
        (outcome_of (host.fetch request s.world).0)
        (record s { world = (host.fetch request s.world).1 }) (omega (arith, Recovers-later rec))
        (outcome_of-Temporary (host.fetch request s.world).0 r)
        (λ again t w.
          attempts-Delivered left (suc attempt) n status again t (omega arith) lt
            (subst (Recovers host delays request status n (suc attempt)) (sym w) rec))
