-- ===== src/Chunk/Consumption.antt =====
-- What the phases of a chunk take of a finite input
-- (packages/core/src/execution/chunk-step-executor.ts).
use nest_batch.Prelude.{
  ℕ, zero, suc, ◌+◌, ◌≤◌, ◌≡◌, refl, Option, none, some, List, [], ◌∷◌, Result, arith, length,
}
use nest_batch.Prelude.Effects.{pure, Ensures, bind_rule, ◌>>=◌}
use nest_batch.Errors.{BatchError}
use nest_batch.Context.{ExecutionContext, with_last_chunk_index}
use nest_batch.Chunk.Handlers.{Act, Run, Task, Stream, WriterResult, call, add_skips}
use nest_batch.Chunk.Phase.{PhaseResult, done, skipped, Hooks, run_phase}
use nest_batch.Chunk.Loop.{
  Setting, read_items, read_hooks, take_read, process_items, process_hooks, take_processed,
  process_phase, write_phase, write_hooks, count_write, update_streams, checkpoint,
}
use nest_batch.Chunk.Shrinking.{Tame, TameStreams, Within, TameHooks, run_phase-Took}
use nest_batch.Chunk.Measure.{
  one_item, nothing, IsFinite, Tame-Takes, Taken, Taken-cases, call-Taken, gain_of, Took-Taken,
}

module _ {W Item : Type 0} (setting : Setting W Item) (left : W → ℕ)
    (finite : IsFinite setting left) where
  open setting use {rules, handlers, listeners}

  take_read-Taken :
      (again : Task W (List Item)) (a : PhaseResult (Option Item)) (n : ℕ) (r : Run W)
      → TameStreams left r.opened
      → left r.world + gain_of one_item a ≤ n
      → ((m : ℕ) (s : Run W) → Within left m s → Ensures (Taken left length m) again s)
      → Ensures (Taken left length n) (take_read setting again a) r
  unfolding take_read
  take_read-Taken again skipped n r o h next = next n r (o, omega arith)
  take_read-Taken again (done none) n r o h next = (o, omega arith)
  take_read-Taken again (done (some item)) n r o h next =
      let s = record r { read_count = r.read_count + 1 } in
      Taken-cases left length length again (λ items. pure (item ∷ items)) (left r.world) n s
        (omega arith) (next (left r.world) s (o, omega arith)) (λ items t o' k. (o', omega arith))

  pub read_items-Taken :
      (index rounds n : ℕ) (r : Run W)
      → Within left n r
      → Ensures (Taken left length n) (read_items setting index rounds) r
  unfolding read_items
  read_items-Taken index zero n r h = (h.0, omega (arith, h.1))
  read_items-Taken index (suc rounds) n r h =
      let phase = run_phase rules (read_hooks setting index) (handlers.read index) in
      Taken-cases left (gain_of one_item) length phase _ n n r (omega arith)
        (Took-Taken left one_item n (phase r).0 (phase r).1 (
          run_phase-Took left one_item rules (read_hooks setting index) (handlers.read index)
            (finite.read_hooks_tame index) (finite.read index) n r h))
        (λ a s o k.
          take_read-Taken (λ t. read_items setting index rounds t) a n s o k
            (λ m t h'. read_items-Taken index rounds m t h'))

  take_processed-Taken :
      (again : Task W (List Item)) (a : PhaseResult (Option Item)) (n : ℕ) (r : Run W)
      → Within left n r
      → ((s : Run W) → Within left n s → Ensures (Taken left nothing n) again s)
      → Ensures (Taken left nothing n) (take_processed setting again a) r
  unfolding take_processed
  take_processed-Taken again skipped n r h next = next r h
  take_processed-Taken again (done none) n r h next = next (add_skips 1 r) h
  take_processed-Taken again (done (some out)) n r h next =
      Taken-cases left nothing nothing again (λ rest. pure (out ∷ rest)) n n r (omega arith)
        (next r h) (λ rest s o k. (o, k))

  -- A phase whose operation takes nothing.
  tame_phase :
      {A B : Type 0} (hooks : Hooks W A) (op : Act W A) (f : PhaseResult A → Task W B)
      (gain : B → ℕ) (n : ℕ) (r : Run W)
      → TameHooks left hooks
      → Tame left op
      → Within left n r
      → ((a : PhaseResult A) (s : Run W) → Within left n s → Ensures (Taken left gain n) (f a) s)
      → Ensures (Taken left gain n) (run_phase rules hooks op >>= f) r
  tame_phase hooks op f gain n r th to h next =
      let phase = run_phase rules hooks op in
      Taken-cases left (gain_of nothing) gain phase f n n r (omega arith)
        (Took-Taken left nothing n (phase r).0 (phase r).1
          (run_phase-Took left nothing rules hooks op th (Tame-Takes left op to) n r h))
        (λ a s o k. next a s (o, omega (arith, k)))

  process_items-Taken :
      (process : ℕ → Item → Act W (Option Item)) (index : ℕ) (items : List Item) (n : ℕ) (r : Run W)
      → handlers.process ≡ some process
      → Within left n r
      → Ensures (Taken left nothing n) (process_items setting process index items) r
  unfolding process_items
  process_items-Taken process index [] n r e h = (h.0, omega (arith, h.1))
  process_items-Taken process index (item ∷ items) n r e h =
      tame_phase (process_hooks setting index item) (process index item) _ nothing n r
        (finite.process_hooks_tame index item) (finite.process process index item e) h
        (λ a s k.
          take_processed-Taken (λ t. process_items setting process index items t) a n s k
            (λ t k'. process_items-Taken process index items n t e k'))

  pub process_phase-Taken :
      (index : ℕ) (items : List Item) (n : ℕ) (r : Run W)
      → Within left n r
      → Ensures (Taken left nothing n) (process_phase setting index items) r
  unfolding process_phase
  process_phase-Taken index items n r h = by_processor handlers.process refl
    where
      by_processor :
          (p : Option (ℕ → Item → Act W (Option Item)))
          → handlers.process ≡ p
          → Ensures
              (Taken left nothing n)
              (elim p [
                | none ↦ pure items
                | some process ↦ process_items setting process index items
              ])
              r
      by_processor none e = (h.0, omega (arith, h.1))
      by_processor (some process) e = process_items-Taken process index items n r e h

  count_write-Within :
      (items : List Item) (a : PhaseResult (Option WriterResult)) (n : ℕ) (r : Run W)
      → Within left n r
      → Within left n (count_write setting items a r)
  unfolding count_write
  count_write-Within items skipped n r h = h
  count_write-Within items (done none) n r h = h
  count_write-Within items (done (some result)) n r h = h

  pub write_phase-Taken :
      (index : ℕ) (items : List Item) (n : ℕ) (r : Run W)
      → Within left n r
      → Ensures (Taken left nothing n) (write_phase setting index items) r
  unfolding write_phase
  write_phase-Taken index [] n r h = (h.0, omega (arith, h.1))
  write_phase-Taken index (item ∷ items) n r h =
      tame_phase (write_hooks setting index (item ∷ items)) _ _ nothing n r
        (finite.write_hooks_tame index (item ∷ items)) (finite.write index (item ∷ items)) h
        (λ a s k. let w = count_write-Within (item ∷ items) a n s k in (w.0, omega (arith, w.1)))

  update_streams-Tame :
      (streams : List (Stream W)) (ctx : ExecutionContext)
      → TameStreams left streams
      → Tame left (update_streams setting streams ctx)
  unfolding update_streams
  update_streams-Tame [] ctx h w = omega arith
  update_streams-Tame (stream ∷ streams) ctx h w =
      let first : left (stream.update ctx w).1 ≤ left w = h.0 ctx w in
      bind_rule (λ (_ : Result BatchError ExecutionContext) v. left v ≤ left w) (stream.update ctx)
        _ w
        (λ a _.
          let next : ExecutionContext = elim a [ none ↦ ctx | some c ↦ c ] in
          omega (arith, update_streams-Tame streams next h.1 (stream.update ctx w).1))
        (λ _ _. first)

  pub checkpoint-Taken :
      (index n : ℕ) (r : Run W)
      → Within left n r
      → Ensures (Taken left nothing n) (checkpoint setting index) r
  unfolding checkpoint
  checkpoint-Taken index n r h =
      let ctx = with_last_chunk_index r.context index in
      let s = record r { context = ctx } in
      Taken-cases left nothing nothing (call (update_streams setting r.opened ctx)) _ n n s
        (omega arith)
        (call-Taken left (update_streams setting r.opened ctx) n s
          (update_streams-Tame r.opened ctx h.0) h)
        (λ next t o k.
          Taken-cases left nothing nothing (call (setting.save_execution_context next)) _ n n
            (record t { context = next }) (omega arith)
            (call-Taken left (setting.save_execution_context next) n (record t { context = next })
              (finite.save next) (o, omega (arith, k)))
            (λ _ u o' k'.
              Taken-cases left nothing nothing (call setting.get_execution_context) _ n n u
                (omega arith)
                (call-Taken left setting.get_execution_context n u finite.get
                  (o', omega (arith, k')))
                (λ saved v o'' k''. (o'', k''))))
