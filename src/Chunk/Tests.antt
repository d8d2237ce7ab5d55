-- ===== src/Chunk/Tests.antt =====
-- A small step over a world that is the list of the numbers still to be read, run and put to the
-- theorems. The number 13 cannot be read.
use nest_batch.Prelude.{
  ℕ, min, ◌+◌, ◌-◌, ◌≤◌, ◌≡◌, ◌≢◌, refl, Option, none, some, List, [], ◌∷◌, ok, err, ◌==◌, length,
  if◌then◌else◌, arith, true, false, Bool-cases, inl, inr,
}
use nest_batch.Prelude.Effects.{pure}
use nest_batch.Errors.{BatchError, user_error}
use nest_batch.Context.{
  ExecutionContext, Json, with_last_chunk_index, read_last_checkpoint,
  read_last_checkpoint-with_last_chunk_index,
}
use nest_batch.Chunk.Handlers.{Act, WriterResult, Listeners}
use nest_batch.Chunk.Decision.{Rules, consult}
use nest_batch.Chunk.Phase.{Hooks, run_phase}
use nest_batch.Chunk.Loop.{Setting, loop, iterate, read_hooks, process_hooks, write_hooks}
use nest_batch.Chunk.Step.{start}
use nest_batch.Chunk.Budget.{Keeps, Counted, run_phase-Effect}
use nest_batch.Chunk.Bounds.{InChunks, loop-le-partition, loop-InChunks}
use nest_batch.Chunk.Shrinking.{Takes, TameHooks}
use nest_batch.Chunk.Measure.{one_item, IsFinite}
use nest_batch.Policies.{RetryPolicyConfig, no_backoff}
use nest_batch.Policies.Retry
use nest_batch.Chunk.Attempts.{RetriesBy, run_phase-attempts}
use nest_batch.Chunk.Termination.{loop_terminates}

abbrev World : Type 0
World = List ℕ

abbrev unreadable : BatchError
unreadable = user_error (record { ident = 13; message = "unlucky" })

abbrev read : ℕ → Act World (Option ℕ)
read index [] = (ok none, [])
read index (n ∷ w) = (if n == 13 then err unreadable else ok (some n), w)

abbrev write : ℕ → List ℕ → Act World (Option WriterResult)
write index items = pure none

abbrev empty_context : ExecutionContext
empty_context = record { content = Json.null; version = 0 }

abbrev listeners : Listeners World ℕ
listeners = record {
  before_step = pure tt;
  after_step = pure;
  on_step_error = λ _. pure tt;
  before_chunk = λ _. pure tt;
  after_chunk = λ _ _. pure tt;
  on_chunk_error = λ _ _. pure tt;
  before_read = λ _. pure tt;
  after_read = λ _ _. pure tt;
  on_read_error = λ _ _. pure tt;
  before_process = λ _ _. pure tt;
  after_process = λ _ _ _. pure tt;
  on_process_error = λ _ _ _. pure tt;
  before_write = λ _ _. pure tt;
  after_write = λ _ _ _. pure tt;
  on_write_error = λ _ _ _. pure tt;
  on_skip_read = λ _. pure tt;
  on_skip_process = λ _ _. pure tt;
  on_skip_write = λ _ _. pure tt;
}

abbrev rules : Rules
rules = record {
  skip_policy = some (record { should_skip = λ _ _. ok true });
  retry_policy = none;
  skip_limit = 2;
  retry_limit = 0;
}

abbrev setting : Option (ℕ × ℕ) → Setting World ℕ
setting partition = record {
  handlers = record {
    read = read;
    process = none;
    write = write;
    reader_is_stream = false;
    streams = [];
  };
  listeners = listeners;
  rules = rules;
  sleep = λ _. pure tt;
  with_transaction = λ m. m;
  get_execution_context = pure empty_context;
  save_execution_context = λ _. pure tt;
  chunk_size = 2;
  partition = partition;
  resume_from = none;
}

input : World
input = 5 ∷ 13 ∷ 7 ∷ 8 ∷ 9 ∷ []

run_phase-Effect_example :
    Keeps
      (start (13 ∷ 7 ∷ []))
      (run_phase rules (read_hooks (setting none) 0) (read 0) (start (13 ∷ 7 ∷ []))).1
    × Counted rules
        (start (13 ∷ 7 ∷ []))
        (run_phase rules (read_hooks (setting none) 0) (read 0) (start (13 ∷ 7 ∷ []))).0
        (run_phase rules (read_hooks (setting none) 0) (read 0) (start (13 ∷ 7 ∷ []))).1
run_phase-Effect_example =
    run_phase-Effect rules (read_hooks (setting none) 0) (read 0) (start (13 ∷ 7 ∷ []))

loop-le-partition_example : (loop (setting (some (1, 4))) 9 (start input)).1.read_count ≤ 4 - 1
loop-le-partition_example =
    loop-le-partition (setting (some (1, 4))) 1 4 9 (start input) refl (omega arith)

loop-InChunks_example :
    InChunks
      (setting none)
      (loop (setting none) 9 (start input)).0
      (loop (setting none) 9 (start input)).1
loop-InChunks_example = loop-InChunks (setting none) 9 (start input) refl refl refl

read_takes :
    (index : ℕ) (w : World)
    → Takes (length {A = ℕ}) one_item (read index w).1 (length w) (read index w).0
read_takes index [] = omega arith
read_takes index (n ∷ w) = elim (Bool-cases (n == 13)) [
  | inl e ↦ rw e (omega arith)
  | inr e ↦ rw e (omega arith)
]

-- The hooks leave the world as it is.
calm_hooks :
    {A : Type 0} (left : World → ℕ) (hooks : Hooks World A)
    → ((w : World) → (hooks.before w).1 ≡ w)
    → ((a : A) (w : World) → (hooks.after a w).1 ≡ w)
    → ((e : BatchError) (w : World) → (hooks.on_error e w).1 ≡ w)
    → ((e : BatchError) (w : World) → (hooks.on_skip e w).1 ≡ w)
    → ((ms : ℕ) (w : World) → (hooks.sleep ms w).1 ≡ w)
    → TameHooks left hooks
calm_hooks left hooks before after on_error on_skip sleep = record {
  before = λ w. rw (before w) (omega arith);
  after = λ a w. rw (after a w) (omega arith);
  on_error = λ e w. rw (on_error e w) (omega arith);
  on_skip = λ e w. rw (on_skip e w) (omega arith);
  sleep = λ ms w. rw (sleep ms w) (omega arith);
}

no_item :
    (index : ℕ) (o : Option ℕ) (w : World) → ((read_hooks (setting none) index).after o w).1 ≡ w
unfolding read_hooks
no_item index none w = refl
no_item index (some n) w = refl

input_shrinks : IsFinite (setting none) (length {A = ℕ})
unfolding read_hooks process_hooks write_hooks
input_shrinks = record {
  read = read_takes;
  process = λ process index item h. cc;
  write = λ index items w. omega arith;
  get = λ w. omega arith;
  save = λ ctx w. omega arith;
  before_chunk = λ index w. omega arith;
  after_chunk = λ index t w. omega arith;
  read_hooks_tame = λ index.
      calm_hooks length (read_hooks (setting none) index) (λ _. refl) (no_item index) (λ _ _. refl)
        (λ _ _. refl) (λ _ _. refl);
  process_hooks_tame = λ index item.
      calm_hooks length (process_hooks (setting none) index item) (λ _. refl) (λ _ _. refl)
        (λ _ _. refl) (λ _ _. refl) (λ _ _. refl);
  write_hooks_tame = λ index items.
      calm_hooks length (write_hooks (setting none) index items) (λ _. refl) (λ _ _. refl)
        (λ _ _. refl) (λ _ _. refl) (λ _ _. refl);
}

loop_terminates_example : (loop (setting none) 6 (start input)).0 ≢ ok none
unfolding input
loop_terminates_example =
    loop_terminates (setting none) length input_shrinks 6 (start input) tt (omega arith)

index_read_back : read_last_checkpoint (with_last_chunk_index empty_context 4) ≡ some 4
index_read_back = read_last_checkpoint-with_last_chunk_index empty_context 4

abbrev retry_config : RetryPolicyConfig
retry_config = record { limit = 2; retryable = []; backoff = no_backoff }

abbrev retry_policy : Retry.Policy
retry_policy = record {
  can_retry = Retry.can_retry retry_config;
  backoff_ms = Retry.backoff_ms no_backoff;
}

abbrev retrying : Rules
retrying = record {
  skip_policy = none;
  retry_policy = some retry_policy;
  skip_limit = 0;
  retry_limit = 2;
}

retrying_by : RetriesBy retrying retry_config
unfolding Retry.compile_retry_policy
retrying_by = record { policy = retry_policy; compiled = refl; used = refl; limit = refl }

reads : World → ℕ
reads w = 9 - length w

read_once : (w : World) → reads (read 0 w).1 ≤ reads w + 1
unfolding reads
read_once [] = omega arith
read_once (n ∷ w) = omega arith

run_phase-attempts_example :
    reads (run_phase retrying (read_hooks (setting none) 0) (read 0) (start (13 ∷ 7 ∷ []))).1.world
    ≤ reads (13 ∷ 7 ∷ []) + min 999 (2 + 1)
unfolding read_hooks
run_phase-attempts_example =
    run_phase-attempts retrying retry_config retrying_by (read_hooks (setting none) 0) (read 0)
      reads
      (calm_hooks reads (read_hooks (setting none) 0) (λ _. refl) (no_item 0) (λ _ _. refl)
        (λ _ _. refl) (λ _ _. refl))
      read_once (start (13 ∷ 7 ∷ []))

-- A chunk whose reads are all skipped ends the loop, with input left.
skipped_chunk_ends :
    ((loop (setting none) 9 (start (13 ∷ 13 ∷ 7 ∷ []))).0 ≡ ok (some tt))
    × ((loop (setting none) 9 (start (13 ∷ 13 ∷ 7 ∷ []))).1.world ≡ 7 ∷ [])
unfolding loop iterate run_phase consult
skipped_chunk_ends = (refl, refl)

-- A partition of four items is read as one chunk, though the chunk size is two.
one_chunk :
    ((loop (setting (some (0, 4))) 9 (start (1 ∷ 2 ∷ 3 ∷ 4 ∷ 5 ∷ []))).1.commit_count ≡ 1)
    × ((loop (setting (some (0, 4))) 9 (start (1 ∷ 2 ∷ 3 ∷ 4 ∷ 5 ∷ []))).1.read_count ≡ 4)
unfolding loop iterate run_phase consult
one_chunk = (refl, refl)

-- A restart behind chunk 0 drains the whole partition and then reads as many items behind it.
restart_reads_on :
    (loop
      (record (setting (some (0, 2))) { resume_from = some 0 })
      9
      (start (1 ∷ 2 ∷ 3 ∷ 4 ∷ 5 ∷ []))).1.world
    ≡ 5 ∷ []
unfolding loop iterate run_phase consult
restart_reads_on = refl
