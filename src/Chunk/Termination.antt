-- ===== src/Chunk/Termination.antt =====
-- The chunk loop of packages/core/src/execution/chunk-step-executor.ts ends on a finite input.
use nest_batch.Prelude.{
  ℕ, zero, suc, ◌+◌, ◌≤◌, ◌<◌, ◌≢◌, Option, none, some, List, [], ◌∷◌, Result, ok, err, arith,
  length, ◌==◌, Bool-cases, inl, inr,
}
use nest_batch.Prelude.Effects.{pure, continue, Ensures}
use nest_batch.Errors.{BatchError}
use nest_batch.Chunk.Handlers.{Run, Task, call, totals}
use nest_batch.Chunk.Loop.{
  Setting, Ending, broke, continued, remaining, read_items, process_phase, write_phase, checkpoint,
  drain, take_drained, after_draining, drain_chunk, commit_chunk, end_chunk, after_reading,
  run_chunk, is_draining, iterate, next_iteration, loop,
}
use nest_batch.Chunk.Shrinking.{Takes, TameStreams, Within}
use nest_batch.Chunk.Measure.{one_item, nothing, IsFinite, Taken, Taken-cases, call-Taken}
use nest_batch.Chunk.Consumption.{
  read_items-Taken, process_phase-Taken, write_phase-Taken, checkpoint-Taken,
}

module _ {W Item : Type 0} (setting : Setting W Item) (left : W → ℕ)
    (finite : IsFinite setting left) where
  open setting use {rules, handlers, listeners}

  abbrev progress : Ending → ℕ
  progress broke = 0
  progress continued = 1

  end_chunk-Taken :
      (index n : ℕ) (r : Run W)
      → Within left n r
      → Ensures (Taken left progress n) (end_chunk setting index) r
  unfolding end_chunk
  end_chunk-Taken index n r h =
      let after = listeners.after_chunk index (totals r) in
      Taken-cases left nothing progress (call after) _ n n r (omega arith)
        (call-Taken left after n r (finite.after_chunk index (totals r)) h) (λ _ s o k. (o, k))

  commit_chunk-Taken :
      (index : ℕ) (items : List Item) (m : ℕ) (r : Run W)
      → Within left m r
      → Ensures (Taken left progress (suc m)) (commit_chunk setting index items) r
  unfolding commit_chunk
  commit_chunk-Taken index items m r h =
      Taken-cases left nothing progress (process_phase setting index items) _ m (suc m) r
        (omega arith) (process_phase-Taken setting left finite index items m r h)
        (λ processed s o k.
          Taken-cases left nothing progress (write_phase setting index processed) _ m (suc m) s
            (omega arith)
            (write_phase-Taken setting left finite index processed m s (o, omega (arith, k)))
            (λ _ t o' k'.
              Taken-cases left nothing progress (checkpoint setting index) _ m (suc m) t
                (omega arith)
                (checkpoint-Taken setting left finite index m t (o', omega (arith, k')))
                (λ _ u o'' k''.
                  let told = record (totals u) { commit_count = u.commit_count + 1 } in
                  Taken-cases left nothing progress (call (listeners.after_chunk index told)) _ m
                    (suc m) u (omega arith)
                    (call-Taken left (listeners.after_chunk index told) m u
                      (finite.after_chunk index told) (o'', omega (arith, k'')))
                    (λ _ v q l. (q, omega (arith, l))))))

  after_reading-Taken :
      (index : ℕ) (items : List Item) (n : ℕ) (r : Run W)
      → TameStreams left r.opened
      → left r.world + length items ≤ n
      → Ensures (Taken left progress n) (after_reading setting index items) r
  unfolding after_reading
  after_reading-Taken index [] n r o h = end_chunk-Taken index n r (o, omega (arith, h))
  after_reading-Taken index (item ∷ items) zero r o h = absurd (omega arith)
  after_reading-Taken index (item ∷ items) (suc m) r o h =
      commit_chunk-Taken index (item ∷ items) m r (o, omega (arith, h))

  run_chunk-Taken :
      (n : ℕ) (r : Run W)
      → Within left n r
      → Ensures (Taken left progress n) (run_chunk setting r) r
  unfolding run_chunk
  run_chunk-Taken n r h = elim (Bool-cases (remaining setting r.read_count == 0)) [
    | inl empty ↦ rw empty (h.0, omega (arith, h.1))
    | inr some_left ↦ rw some_left (
        let before = listeners.before_chunk r.chunk_index in
        Taken-cases left nothing progress (call before) _ n n r (omega arith)
          (call-Taken left before n r (finite.before_chunk r.chunk_index) h)
          (λ _ s o k.
            Taken-cases left length progress
              (read_items setting r.chunk_index (remaining setting r.read_count)) _ n n s
              (omega arith)
              (read_items-Taken setting left finite r.chunk_index (remaining setting r.read_count) n
                s (o, omega (arith, k)))
              (λ items t o' k'. after_reading-Taken r.chunk_index items n t o' k')))
  ]

  take_drained-Taken :
      (again : Task W ℕ) (o : Option Item) (n : ℕ) (r : Run W)
      → TameStreams left r.opened
      → left r.world + one_item o ≤ n
      → ((m : ℕ) (s : Run W) → Within left m s → Ensures (Taken left (λ k. k) m) again s)
      → Ensures (Taken left (λ k. k) n) (take_drained setting again o) r
  unfolding take_drained
  take_drained-Taken again none n r q h next = (q, omega arith)
  take_drained-Taken again (some item) n r q h next =
      Taken-cases left (λ k. k) (λ k. k) again (λ k. pure (k + 1)) (left r.world) n r (omega arith)
        (next (left r.world) r (q, omega arith)) (λ k s q' l. (q', omega arith))

  drain-Taken :
      (index rounds n : ℕ) (r : Run W)
      → Within left n r
      → Ensures (Taken left (λ k. k) n) (drain setting index rounds) r
  unfolding drain call
  drain-Taken index zero n r h = (h.0, omega (arith, h.1))
  drain-Taken index (suc rounds) n r h =
      Taken-cases left one_item (λ k. k) (call (handlers.read index)) _ n n r (omega arith)
        (read_once r h)
        (λ o s q l.
          take_drained-Taken (λ t. drain setting index rounds t) o n s q l
            (λ m t h'. drain-Taken index rounds m t h'))
    where
      read_once :
          (s : Run W)
          → Within left n s
          → Ensures (Taken left one_item n) (call (handlers.read index)) s
      read_once s k = by_outcome (handlers.read index s.world).0 (finite.read index s.world)
        where
          by_outcome :
              (x : Result BatchError (Option Item))
              → Takes left one_item (handlers.read index s.world).1 (left s.world) x
              → Taken left one_item n x (call (handlers.read index) s).1
          by_outcome (ok a) t = (k.0, omega arith)
          by_outcome (err e) t = (k.0, omega arith)

  after_draining-Taken :
      (k n : ℕ) (r : Run W)
      → TameStreams left r.opened
      → left r.world + k ≤ n
      → Ensures (Taken left progress n) (after_draining setting k) r
  unfolding after_draining
  after_draining-Taken zero n r o h = (o, omega arith)
  after_draining-Taken (suc k) n r o h = (o, omega arith)

  drain_chunk-Taken :
      (n : ℕ) (r : Run W)
      → Within left n r
      → Ensures (Taken left progress n) (drain_chunk setting r) r
  unfolding drain_chunk
  drain_chunk-Taken n r h = elim (Bool-cases (remaining setting r.read_count == 0)) [
    | inl empty ↦ rw empty (h.0, omega (arith, h.1))
    | inr some_left ↦ rw some_left (
        Taken-cases left (λ k. k) progress
          (drain setting r.chunk_index (remaining setting r.read_count)) _ n n r (omega arith)
          (drain-Taken r.chunk_index (remaining setting r.read_count) n r h)
          (λ k s o l. after_draining-Taken k n s o l))
  ]

  iterate-Taken :
      (n : ℕ) (r : Run W) → Within left n r → Ensures (Taken left progress n) (iterate setting) r
  unfolding iterate
  iterate-Taken n r h = elim (Bool-cases (is_draining setting r.chunk_index)) [
    | inl e ↦ rw e (drain_chunk-Taken n r h)
    | inr e ↦ rw e (run_chunk-Taken n r h)
  ]

  -- An outcome that is not the end of the fuel.
  abbrev Ended : Result BatchError (Option (Unit {0})) → Run W → Type 0
  Ended result s = result ≢ ok none

  next_iteration-Ended :
      (fuel : ℕ) (ending : Ending) (n : ℕ) (s : Run W)
      → n < suc fuel
      → TameStreams left s.opened
      → left s.world + progress ending ≤ n
      → ((r : Run W)
          → TameStreams left r.opened
          → left r.world < fuel
          → Ensures Ended (loop setting fuel) r)
      → Ensures Ended (next_iteration setting (λ run. loop setting fuel run) ending) s
  unfolding next_iteration
  next_iteration-Ended fuel broke n s lt o h again = λ e. cc
  next_iteration-Ended fuel continued n s lt o h again = again s o (omega arith)

  -- The chunk loop does not run out of fuel when it has more of it than there is input left: on a
  -- reader whose every item takes one from a count of what is left, and with other calls that give
  -- nothing back, the loop ends or throws.
  pub loop_terminates :
      (fuel : ℕ) (r : Run W)
      → TameStreams left r.opened
      → left r.world < fuel
      → (loop setting fuel r).0 ≢ ok none
  unfolding loop
  loop_terminates zero r o h = absurd (omega arith)
  loop_terminates (suc fuel) r o h =
      by_outcome (iterate setting r).0 (iterate-Taken (left r.world) r (o, omega arith))
        (λ s o' lt. loop_terminates fuel s o' lt)
    where
      by_outcome :
          (x : Result BatchError Ending)
          → Taken left progress (left r.world) x (iterate setting r).1
          → ((s : Run W)
              → TameStreams left s.opened
              → left s.world < fuel
              → Ensures Ended (loop setting fuel) s)
          → (continue x
              (next_iteration setting (λ run. loop setting fuel run))
              (iterate setting r).1).0
            ≢ ok none
      by_outcome (ok ending) k again =
          next_iteration-Ended fuel ending (left r.world) (iterate setting r).1 h k.0 k.1 again
      by_outcome (err e) k again = λ q. cc
