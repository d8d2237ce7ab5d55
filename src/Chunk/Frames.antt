-- ===== src/Chunk/Frames.antt =====
-- Which counts the phases of a chunk change (packages/core/src/execution/chunk-step-executor.ts).
use nest_batch.Prelude.{
  ℕ, zero, suc, ◌+◌, ◌≤◌, ◌≡◌, Option, none, some, List, [], ◌∷◌, Result, ok, err, arith, length,
}
use nest_batch.Prelude.Effects.{pure, continue, Ensures, bind_rule}
use nest_batch.Errors.{BatchError}
use nest_batch.Chunk.Handlers.{Act, Run, Task, WriterResult, call, add_skips}
use nest_batch.Chunk.Phase.{PhaseResult, done, skipped, run_phase}
use nest_batch.Chunk.Budget.{run_phase-Effect}
use nest_batch.Chunk.Loop.{
  Setting, read_items, read_hooks, take_read, take_processed, process_items, process_hooks,
  process_phase, write_phase, write_hooks, count_write, checkpoint, take_drained, drain,
}

-- The counts of reads, of commits and of chunks stay, whatever the outcome.
abbrev pub Steady : {W : Type 0} → Run W → Run W → Type 0
Steady r s =
    (s.read_count ≡ r.read_count)
    × (s.commit_count ≡ r.commit_count)
    × (s.chunk_index ≡ r.chunk_index)

abbrev pub Reads : {W Item : Type 0} → Run W → ℕ → Result BatchError (List Item) → Run W → Type 0
Reads r rounds (ok items) s =
    (s.read_count ≡ r.read_count + length items)
    × (length items ≤ rounds)
    × (s.commit_count ≡ r.commit_count)
    × (s.chunk_index ≡ r.chunk_index)
Reads r rounds (err e) s =
    (r.read_count ≤ s.read_count)
    × (s.read_count ≤ r.read_count + rounds)
    × (s.commit_count ≡ r.commit_count)
    × (s.chunk_index ≡ r.chunk_index)

module _ {W Item : Type 0} (setting : Setting W Item) where
  open setting use {rules, handlers}

  take_read-Reads :
      (again : Task W (List Item)) (rounds : ℕ) (a : PhaseResult (Option Item)) (r s : Run W)
      → Steady r s
      → ((t : Run W) → Ensures (Reads t rounds) again t)
      → Ensures (Reads r (suc rounds)) (take_read setting again a) s
  unfolding take_read
  take_read-Reads again rounds skipped r s h next = elim_reads (again s).0 (again s).1 (next s)
    where
      elim_reads :
          (result : Result BatchError (List Item)) (t : Run W)
          → Reads s rounds result t
          → Reads r (suc rounds) result t
      elim_reads (ok items) t k = omega arith
      elim_reads (err e) t k = omega arith
  take_read-Reads again rounds (done none) r s h next = omega arith
  take_read-Reads again rounds (done (some item)) r s h next =
      let s' = record s { read_count = s.read_count + 1 } in
      elim_reads (again s').0 (again s').1 (next s')
    where
      elim_reads :
          (result : Result BatchError (List Item)) (t : Run W)
          → Reads (record s { read_count = s.read_count + 1 }) rounds result t
          → Ensures (Reads r (suc rounds)) (continue result (λ items. pure (item ∷ items))) t
      elim_reads (ok items) t k = omega arith
      elim_reads (err e) t k = omega arith

  -- The items read are counted, no more than there are rounds.
  pub read_items-Reads :
      (index rounds : ℕ) (r : Run W) → Ensures (Reads r rounds) (read_items setting index rounds) r
  unfolding read_items
  read_items-Reads index zero r = omega arith
  read_items-Reads index (suc rounds) r =
      let phase = run_phase rules (read_hooks setting index) (handlers.read index) in
      let effect = run_phase-Effect rules (read_hooks setting index) (handlers.read index) r in
      bind_rule (Reads r (suc rounds)) phase _ r
        (λ a e.
          take_read-Reads (λ t. read_items setting index rounds t) rounds a r (phase r).1
            (omega arith) (λ t. read_items-Reads index rounds t))
        (λ _ _. omega arith)

  -- The outcome does not matter.
  abbrev Stays : {A : Type 0} → Run W → Result BatchError A → Run W → Type 0
  Stays r result s = Steady r s

  take_processed-Stays :
      (again : Task W (List Item)) (a : PhaseResult (Option Item)) (r s : Run W)
      → Steady r s
      → ((t : Run W) → Steady r t → Ensures (Stays r) again t)
      → Ensures (Stays r) (take_processed setting again a) s
  unfolding take_processed
  take_processed-Stays again skipped r s h next = next s h
  take_processed-Stays again (done none) r s h next = next (add_skips 1 s) h
  take_processed-Stays again (done (some out)) r s h next =
      bind_rule (Stays r) again _ s (λ _ _. next s h) (λ _ _. next s h)

  process_items-Stays :
      (process : ℕ → Item → Act W (Option Item)) (index : ℕ) (items : List Item) (r s : Run W)
      → Steady r s
      → Ensures (Stays r) (process_items setting process index items) s
  unfolding process_items
  process_items-Stays process index [] r s h = h
  process_items-Stays process index (item ∷ items) r s h =
      let phase = run_phase rules (process_hooks setting index item) (process index item) in
      let effect =
        run_phase-Effect rules (process_hooks setting index item) (process index item) s in
      bind_rule (Stays r) phase _ s
        (λ a _.
          take_processed-Stays (λ t. process_items setting process index items t) a r (phase s).1
            (omega arith) (λ t k. process_items-Stays process index items r t k))
        (λ _ _. omega arith)

  pub process_phase-Stays :
      (index : ℕ) (items : List Item) (r : Run W)
      → Ensures (Stays r) (process_phase setting index items) r
  unfolding process_phase
  process_phase-Stays index items r = by_processor handlers.process
    where
      by_processor :
          (p : Option (ℕ → Item → Act W (Option Item)))
          → Ensures
              (Stays r)
              (elim p [
                | none ↦ pure items
                | some process ↦ process_items setting process index items
              ])
              r
      by_processor none = omega arith
      by_processor (some process) = process_items-Stays process index items r r (omega arith)

  count_write-Steady :
      (items : List Item) (a : PhaseResult (Option WriterResult)) (r s : Run W)
      → Steady r s
      → Steady r (count_write setting items a s)
  unfolding count_write
  count_write-Steady items skipped r s h = h
  count_write-Steady items (done none) r s h = h
  count_write-Steady items (done (some result)) r s h = h

  pub write_phase-Stays :
      (index : ℕ) (items : List Item) (r : Run W)
      → Ensures (Stays r) (write_phase setting index items) r
  unfolding write_phase
  write_phase-Stays index [] r = omega arith
  write_phase-Stays index (item ∷ items) r =
      let write = setting.with_transaction (handlers.write index (item ∷ items)) in
      let phase = run_phase rules (write_hooks setting index (item ∷ items)) write in
      let effect = run_phase-Effect rules (write_hooks setting index (item ∷ items)) write r in
      bind_rule (Stays r) phase _ r
        (λ a _. count_write-Steady (item ∷ items) a r (phase r).1 (omega arith))
        (λ _ _. omega arith)

  pub checkpoint-Stays : (index : ℕ) (r : Run W) → Ensures (Stays r) (checkpoint setting index) r
  unfolding checkpoint call
  checkpoint-Stays index r = ground arith

  take_drained-Stays :
      (again : Task W ℕ) (o : Option Item) (r s : Run W)
      → Steady r s
      → ((t : Run W) → Steady r t → Ensures (Stays r) again t)
      → Ensures (Stays r) (take_drained setting again o) s
  unfolding take_drained
  take_drained-Stays again none r s h next = h
  take_drained-Stays again (some item) r s h next =
      bind_rule (Stays r) again _ s (λ _ _. next s h) (λ _ _. next s h)

  pub drain-Stays :
      (index rounds : ℕ) (r s : Run W)
      → Steady r s
      → Ensures (Stays r) (drain setting index rounds) s
  unfolding drain call
  drain-Stays index zero r s h = h
  drain-Stays index (suc rounds) r s h =
      bind_rule (Stays r) (call (handlers.read index)) _ s
        (λ o _.
          take_drained-Stays (λ t. drain setting index rounds t) o r
            (call (handlers.read index) s).1 h (λ t k. drain-Stays index rounds r t k))
        (λ _ _. h)
