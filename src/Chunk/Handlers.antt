-- ===== src/Chunk/Handlers.antt =====
-- What the chunk executor is handed (its context, packages/core/src/core/item/interfaces.ts and the
-- listener invoker), and what it keeps while it runs.
use nest_batch.Prelude.{ℕ, ◌+◌, Bool, Option, List}
use nest_batch.Prelude.Effects.{Exec}
use nest_batch.Prelude.Text.{Text}
use nest_batch.Errors.{BatchError, Message}
use nest_batch.Status.{StepStatus}
use nest_batch.Context.{ExecutionContext}

-- An asynchronous call that changes the world and may throw.
abbrev pub Act : Type 0 → Type 0 → Type 0
Act W A = Exec BatchError W A

-- `WriterResult` of core/item/interfaces.ts
pub record WriterResult : Type 0 where
  pub written : ℕ
  pub skipped : ℕ

-- `ItemStream` of core/item/interfaces.ts
pub record Stream (W : Type 0) : Type 0 where
  pub open_stream : ExecutionContext → Act W (Unit {0})
  pub update : ExecutionContext → Act W (Option ExecutionContext)
  pub close : Act W (Unit {0})

-- The resolved reader, processor and writer. The number is the `chunkIndex` of the item context.
pub record Handlers (W Item : Type 0) : Type 0 where
  pub read : ℕ → Act W (Option Item)
  pub process : Option (ℕ → Item → Act W (Option Item))
  pub write : ℕ → List Item → Act W (Option WriterResult)
  pub reader_is_stream : Bool
  pub streams : List (Stream W)

-- `ChunkExecutionResult`
pub record ExecutionResult : Type 0 where
  pub status : StepStatus
  pub exit_code : Text
  pub exit_message : Message
  pub read_count : ℕ
  pub write_count : ℕ
  pub skip_count : ℕ
  pub commit_count : ℕ

-- What a listener after a chunk is told.
pub record Totals : Type 0 where
  pub read_count : ℕ
  pub write_count : ℕ
  pub skip_count : ℕ
  pub commit_count : ℕ

-- A listener after the step is handed the result object itself: it returns what it made of it.
pub record Listeners (W Item : Type 0) : Type 0 where
  pub before_step : Act W (Unit {0})
  pub after_step : ExecutionResult → Act W ExecutionResult
  pub on_step_error : BatchError → Act W (Unit {0})
  pub before_chunk : ℕ → Act W (Unit {0})
  pub after_chunk : ℕ → Totals → Act W (Unit {0})
  pub on_chunk_error : ℕ → BatchError → Act W (Unit {0})
  pub before_read : ℕ → Act W (Unit {0})
  pub after_read : ℕ → Item → Act W (Unit {0})
  pub on_read_error : ℕ → BatchError → Act W (Unit {0})
  pub before_process : ℕ → Item → Act W (Unit {0})
  pub after_process : ℕ → Item → Option Item → Act W (Unit {0})
  pub on_process_error : ℕ → Item → BatchError → Act W (Unit {0})
  pub before_write : ℕ → List Item → Act W (Unit {0})
  pub after_write : ℕ → List Item → Option WriterResult → Act W (Unit {0})
  pub on_write_error : ℕ → List Item → BatchError → Act W (Unit {0})
  pub on_skip_read : BatchError → Act W (Unit {0})
  pub on_skip_process : Item → BatchError → Act W (Unit {0})
  pub on_skip_write : List Item → BatchError → Act W (Unit {0})

-- The variables of `execute`, and the world.
pub record Run (W : Type 0) : Type 0 where
  pub read_count : ℕ
  pub write_count : ℕ
  pub skip_count : ℕ
  pub commit_count : ℕ
  pub chunk_index : ℕ
  -- `streamContext`
  pub context : ExecutionContext
  -- `openedStreams`
  pub opened : List (Stream W)
  pub world : W

abbrev pub Task : Type 0 → Type 0 → Type 0
Task W A = Exec BatchError (Run W) A

module _ {W : Type 0} where
  -- A call into the world from inside `execute`.
  unfoldable pub call : {A : Type 0} → Act W A → Exec BatchError (Run W) A
  call m r = let (result, w) = m r.world in (result, record r { world = w })

  abbrev pub totals : Run W → Totals
  totals r = record {
    read_count = r.read_count;
    write_count = r.write_count;
    skip_count = r.skip_count;
    commit_count = r.commit_count;
  }

  abbrev pub add_skips : ℕ → Run W → Run W
  add_skips n r = record r { skip_count = r.skip_count + n }
