-- ===== src/Chunk/Loop.antt =====
-- The chunk loop of `execute` in packages/core/src/execution/chunk-step-executor.ts.
use nest_batch.Prelude.{
  ℕ, zero, suc, ◌+◌, ◌-◌, Bool, false, not, ◌&&◌, Option, none, some, List, [], ◌∷◌, leb, ◌==◌,
  length, if◌then◌else◌,
}
use nest_batch.Prelude.Effects.{pure, gets, modify, ◌>>=◌, ◌>>◌}
use nest_batch.Context.{ExecutionContext, with_last_chunk_index}
use nest_batch.Partitions.{Range}
use nest_batch.Chunk.Handlers.{
  Act, Run, Task, Stream, WriterResult, Handlers, Listeners, call, totals, add_skips,
}
use nest_batch.Chunk.Decision.{Rules}
use nest_batch.Chunk.Phase.{Hooks, PhaseResult, done, skipped, run_phase}

-- What the loop reads of the step and of its context.
pub record Setting (W Item : Type 0) : Type 0 where
  pub handlers : Handlers W Item
  pub listeners : Listeners W Item
  pub rules : Rules
  pub sleep : ℕ → Act W (Unit {0})
  pub with_transaction : Act W (Option WriterResult) → Act W (Option WriterResult)
  pub get_execution_context : Act W ExecutionContext
  pub save_execution_context : ExecutionContext → Act W (Unit {0})
  pub chunk_size : ℕ
  pub partition : Option Range
  pub resume_from : Option ℕ

-- How an iteration of `while (true)` ends.
pub data Ending : Type 0 where
  broke continued : Ending

module _ {W Item : Type 0} (setting : Setting W Item) where
  open setting use {
    handlers, listeners, rules, sleep, with_transaction, get_execution_context,
    save_execution_context, chunk_size, partition, resume_from,
  }

  -- `partition !== null ? Math.max(0, partition.to - partition.from - readCount) : step.chunkSize`
  unfoldable pub remaining : ℕ → ℕ
  remaining read_count = elim partition [
    | none ↦ chunk_size
    | some (first, last) ↦ last - first - read_count
  ]

  -- READ PHASE: a skipped read uses up a round and yields no item.
  unfoldable pub read_hooks : ℕ → Hooks W (Option Item)
  read_hooks index = record {
    before = listeners.before_read index;
    after = λ o. elim o [ none ↦ pure tt | some item ↦ listeners.after_read index item ];
    on_error = listeners.on_read_error index;
    on_skip = listeners.on_skip_read;
    sleep = sleep;
  }

  -- `again` is the rest of the `for` loop. A null item is the end of the input.
  unfoldable pub take_read : Task W (List Item) → PhaseResult (Option Item) → Task W (List Item)
  take_read again skipped = again
  take_read again (done none) = pure []
  take_read again (done (some item)) = do
    modify (λ run. record run { read_count = run.read_count + 1 })
    items ← again
    pure (item ∷ items)

  unfoldable pub read_items : ℕ → ℕ → Task W (List Item)
  unfolding read_hooks take_read
  read_items index zero = pure []
  read_items index (suc rounds) = do
    r ← run_phase rules (read_hooks index) (handlers.read index)
    take_read (λ run. read_items index rounds run) r

  -- PROCESS PHASE: an item that the processor filters out counts as skipped.
  unfoldable pub process_hooks : ℕ → Item → Hooks W (Option Item)
  process_hooks index item = record {
    before = listeners.before_process index item;
    after = listeners.after_process index item;
    on_error = listeners.on_process_error index item;
    on_skip = listeners.on_skip_process item;
    sleep = sleep;
  }

  unfoldable pub take_processed :
      Task W (List Item) → PhaseResult (Option Item) → Task W (List Item)
  take_processed again skipped = again
  take_processed again (done none) = do modify (add_skips 1); again
  take_processed again (done (some out)) = do rest ← again; pure (out ∷ rest)

  unfoldable pub process_items :
      (ℕ → Item → Act W (Option Item)) → ℕ → List Item → Task W (List Item)
  unfolding process_hooks take_processed
  process_items process index [] = pure []
  process_items process index (item ∷ items) = do
    r ← run_phase rules (process_hooks index item) (process index item)
    take_processed (λ run. process_items process index items run) r

  unfoldable pub process_phase : ℕ → List Item → Task W (List Item)
  unfolding process_items
  process_phase index items = elim handlers.process [
    | none ↦ pure items
    | some process ↦ process_items process index items
  ]

  -- WRITE PHASE
  unfoldable pub write_hooks : ℕ → List Item → Hooks W (Option WriterResult)
  write_hooks index items = record {
    before = listeners.before_write index items;
    after = listeners.after_write index items;
    on_error = listeners.on_write_error index items;
    on_skip = listeners.on_skip_write items;
    sleep = sleep;
  }

  -- A writer that returns no result is taken to have written every item.
  unfoldable pub count_write : List Item → PhaseResult (Option WriterResult) → Run W → Run W
  count_write items skipped run = run
  count_write items (done none) run = record run { write_count = run.write_count + length items }
  count_write items (done (some result)) run = record run {
    write_count = run.write_count + result.written;
    skip_count = run.skip_count + result.skipped;
  }

  unfoldable pub write_phase : ℕ → List Item → Task W (Unit {0})
  unfolding write_hooks count_write
  write_phase index [] = pure tt
  write_phase index (item ∷ items) = do
    r ←
        run_phase rules (write_hooks index (item ∷ items))
          (with_transaction (handlers.write index (item ∷ items)))
    modify (count_write (item ∷ items) r)

  -- `updateStreams`: each stream sees what the one before it returned.
  unfoldable pub update_streams : List (Stream W) → ExecutionContext → Act W ExecutionContext
  update_streams [] ctx = pure ctx
  update_streams (stream ∷ streams) ctx = do
    updated ← stream.update ctx
    update_streams streams (elim updated [ none ↦ ctx | some next ↦ next ])

  -- The checkpoint behind a chunk, saved and read back.
  unfoldable pub checkpoint : ℕ → Task W (Unit {0})
  unfolding update_streams call
  checkpoint index = do
    modify (λ run. record run { context = with_last_chunk_index run.context index })
    r ← gets (λ run. run)
    next ← call (update_streams r.opened r.context)
    modify (λ run. record run { context = next })
    call (save_execution_context next)
    saved ← call get_execution_context
    modify (λ run. record run { context = saved })

  -- The restart's skip-drain: at most `rounds` reads, and how many of them gave an item.
  unfoldable pub take_drained : Task W ℕ → Option Item → Task W ℕ
  take_drained again none = pure 0
  take_drained again (some item) = do n ← again; pure (n + 1)

  unfoldable pub drain : ℕ → ℕ → Task W ℕ
  unfolding call take_drained
  drain index zero = pure 0
  drain index (suc rounds) = do
    o ← call (handlers.read index)
    take_drained (λ run. drain index rounds run) o

  -- `resumeFromChunkIndex !== undefined && !readerIsStream && chunkIndex <= resumeFromChunkIndex`
  unfoldable pub is_draining : ℕ → Bool
  is_draining index = elim resume_from [
    | none ↦ false
    | some last ↦ not handlers.reader_is_stream && leb index last
  ]

  unfoldable pub after_draining : ℕ → Task W Ending
  after_draining zero = pure broke
  after_draining (suc n) = do
    modify (λ r. record r { chunk_index = r.chunk_index + 1 })
    pure continued

  -- An iteration that skips a chunk which an earlier run committed.
  unfoldable pub drain_chunk : Run W → Task W Ending
  unfolding drain remaining after_draining
  drain_chunk run =
      let cap = remaining run.read_count in
      if cap == 0
      then pure broke
      else do drained ← drain run.chunk_index cap; after_draining drained

  -- What follows the read phase of a chunk with items.
  unfoldable pub commit_chunk : ℕ → List Item → Task W Ending
  unfolding process_phase write_phase checkpoint call
  commit_chunk index items = do
    processed ← process_phase index items
    write_phase index processed
    checkpoint index
    r ← gets (λ r. r)
    call (listeners.after_chunk index (record (totals r) { commit_count = r.commit_count + 1 }))
    modify
        (λ r'. record r' { commit_count = r'.commit_count + 1; chunk_index = r'.chunk_index + 1 })
    pure continued

  -- A chunk without items ends the loop.
  unfoldable pub end_chunk : ℕ → Task W Ending
  unfolding call
  end_chunk index = do r ← gets (λ r. r); call (listeners.after_chunk index (totals r)); pure broke

  unfoldable pub after_reading : ℕ → List Item → Task W Ending
  unfolding end_chunk commit_chunk
  after_reading index [] = end_chunk index
  after_reading index (item ∷ items) = commit_chunk index (item ∷ items)

  -- An iteration that reads, processes and writes a chunk.
  unfoldable pub run_chunk : Run W → Task W Ending
  unfolding after_reading read_items remaining call
  run_chunk run =
      let cap = remaining run.read_count in
      if cap == 0 then pure broke else do
        call (listeners.before_chunk run.chunk_index)
        items ← read_items run.chunk_index cap
        after_reading run.chunk_index items

  unfoldable pub iterate : Task W Ending
  unfolding drain_chunk run_chunk is_draining
  iterate run = if is_draining run.chunk_index then drain_chunk run run else run_chunk run run

  unfoldable pub next_iteration : Task W (Option (Unit {0})) → Ending → Task W (Option (Unit {0}))
  next_iteration again broke = pure (some tt)
  next_iteration again continued = again

  -- `while (true)` on fuel: `none` means that the fuel ran out.
  unfoldable pub loop : ℕ → Task W (Option (Unit {0}))
  unfolding next_iteration
  loop zero = pure none
  loop (suc fuel) = do ending ← iterate; next_iteration (λ run. loop fuel run) ending
