-- ===== src/Chunk/Bounds.antt =====
-- Bounds on what the chunk loop of packages/core/src/execution/chunk-step-executor.ts reads and
-- commits.
use nest_batch.Prelude.{
  ℕ, zero, suc, ◌+◌, ◌-◌, ◌*◌, ◌≤◌, ◌≡◌, ap, subst, Option, none, some, List, [], ◌∷◌, Result, ok,
  err, arith, ◌==◌, Bool-cases, ◌⊎◌, inl, inr,
}
use nest_batch.Prelude.Effects.{Ensures, bind_rule}
use nest_batch.Errors.{BatchError}
use nest_batch.Chunk.Handlers.{Run, call, totals}
use nest_batch.Chunk.Loop.{
  Setting, Ending, broke, continued, remaining, read_items, process_phase, write_phase, checkpoint,
  drain, after_draining, drain_chunk, commit_chunk, end_chunk, after_reading, run_chunk,
  is_draining, iterate, next_iteration, loop,
}
use nest_batch.Chunk.Frames.{
  Steady, Reads, read_items-Reads, process_phase-Stays, write_phase-Stays, checkpoint-Stays,
  drain-Stays,
}

module _ {W Item : Type 0} (setting : Setting W Item) where
  open setting use {rules, handlers, listeners}

  -- What one iteration does to the counts. It reads no more than `remaining` allows. If the loop goes
  -- on, the chunk index moves by one, and the chunk was either committed, with an item at least, or
  -- skipped by the restart, with no read counted. Else no chunk was committed.
  abbrev pub Iterated : Run W → Result BatchError Ending → Run W → Type 0
  Iterated r (ok continued) s =
      (s.chunk_index ≡ r.chunk_index + 1)
      × (((s.commit_count ≡ r.commit_count) × (s.read_count ≡ r.read_count))
          ⊎ ((s.commit_count ≡ r.commit_count + 1)
              × (suc r.read_count ≤ s.read_count)
              × (s.read_count ≤ r.read_count + remaining setting r.read_count)))
  Iterated r (ok broke) s = Steady r s
  Iterated r (err e) s =
      (r.read_count ≤ s.read_count)
      × (s.read_count ≤ r.read_count + remaining setting r.read_count)
      × (s.commit_count ≡ r.commit_count)
      × (s.chunk_index ≡ r.chunk_index)

  end_chunk-Iterated :
      (index : ℕ) (r s : Run W) → Steady r s → Ensures (Iterated r) (end_chunk setting index) s
  unfolding end_chunk call
  end_chunk-Iterated index r s h =
      bind_rule (Iterated r) (call (listeners.after_chunk index (totals s))) _ s (λ _ _. h)
        (λ _ _. omega arith)

  -- The state behind the read phase of a chunk with an item.
  abbrev HasRead : Run W → Run W → Type 0
  HasRead r s =
      (suc r.read_count ≤ s.read_count)
      × (s.read_count ≤ r.read_count + remaining setting r.read_count)
      × (s.commit_count ≡ r.commit_count)
      × (s.chunk_index ≡ r.chunk_index)

  commit_chunk-Iterated :
      (index : ℕ) (items : List Item) (r s : Run W)
      → HasRead r s
      → Ensures (Iterated r) (commit_chunk setting index items) s
  unfolding commit_chunk call
  commit_chunk-Iterated index items r s h =
      let k1 = process_phase-Stays setting index items s in
      let s1 = (process_phase setting index items s).1 in
      bind_rule (Iterated r) (process_phase setting index items) _ s
        (λ processed _.
          let k2 = write_phase-Stays setting index processed s1 in
          let s2 = (write_phase setting index processed s1).1 in
          bind_rule (Iterated r) (write_phase setting index processed) _ s1
            (λ _ _.
              let k3 = checkpoint-Stays setting index s2 in
              let s3 = (checkpoint setting index s2).1 in
              bind_rule (Iterated r) (checkpoint setting index) _ s2
                (λ _ _.
                  bind_rule (Iterated r)
                    (call (
                      listeners.after_chunk index
                        (record (totals s3) { commit_count = s3.commit_count + 1 })))
                    _ s3 (λ _ _. (omega arith, inr (omega arith))) (λ _ _. omega arith))
                (λ _ _. omega arith))
            (λ _ _. omega arith))
        (λ _ _. omega arith)

  after_reading-Iterated :
      (index : ℕ) (items : List Item) (r s : Run W)
      → Reads r (remaining setting r.read_count) (ok items) s
      → Ensures (Iterated r) (after_reading setting index items) s
  unfolding after_reading
  after_reading-Iterated index [] r s h = end_chunk-Iterated index r s (omega arith)
  after_reading-Iterated index (item ∷ items) r s h =
      commit_chunk-Iterated index (item ∷ items) r s (omega arith)

  run_chunk-Iterated : (r : Run W) → Ensures (Iterated r) (run_chunk setting r) r
  unfolding run_chunk call
  run_chunk-Iterated r = elim (Bool-cases (remaining setting r.read_count == 0)) [
    | inl empty ↦ rw empty (omega arith)
    | inr some_left ↦ rw some_left (
        let before = call (listeners.before_chunk r.chunk_index) in
        let s = (before r).1 in
        let cap = remaining setting r.read_count in
        let reads = read_items-Reads setting r.chunk_index cap s in
        bind_rule (Iterated r) before _ r
          (λ _ _.
            bind_rule (Iterated r) (read_items setting r.chunk_index cap) _ s
              (λ items e.
                after_reading-Iterated r.chunk_index items r
                  (read_items setting r.chunk_index cap s).1
                  (subst (λ x. Reads r cap x (read_items setting r.chunk_index cap s).1) e reads))
              (λ x e.
                subst (λ y. Reads r cap y (read_items setting r.chunk_index cap s).1) e reads))
          (λ _ _. omega arith))
  ]

  after_draining-Iterated :
      (n : ℕ) (r s : Run W) → Steady r s → Ensures (Iterated r) (after_draining setting n) s
  unfolding after_draining
  after_draining-Iterated zero r s h = h
  after_draining-Iterated (suc n) r s h = (omega arith, inl (omega arith))

  drain_chunk-Iterated : (r : Run W) → Ensures (Iterated r) (drain_chunk setting r) r
  unfolding drain_chunk
  drain_chunk-Iterated r = elim (Bool-cases (remaining setting r.read_count == 0)) [
    | inl empty ↦ rw empty (omega arith)
    | inr some_left ↦ rw some_left (
        let cap = remaining setting r.read_count in
        let steady = drain-Stays setting r.chunk_index cap r r (omega arith) in
        bind_rule (Iterated r) (drain setting r.chunk_index cap) _ r
          (λ n _. after_draining-Iterated n r (drain setting r.chunk_index cap r).1 steady)
          (λ _ _. omega arith))
  ]

  pub iterate-Iterated : (r : Run W) → Ensures (Iterated r) (iterate setting) r
  unfolding iterate
  iterate-Iterated r = elim (Bool-cases (is_draining setting r.chunk_index)) [
    | inl e ↦ rw e (drain_chunk-Iterated r)
    | inr e ↦ rw e (run_chunk-Iterated r)
  ]

  -- The loop keeps `P` at its head; `Q` follows where it ends.
  module _ (P : Run W → Type 0) (Q : Result BatchError (Option (Unit {0})) → Run W → Type 0)
      (goes_on : (r s : Run W) → P r → Iterated r (ok continued) s → P s)
      (ends : (r s : Run W) → P r → Steady r s → Q (ok (some tt)) s)
      (throws : (e : BatchError) (r s : Run W) → P r → Iterated r (err e) s → Q (err e) s)
      (stops : (r : Run W) → P r → Q (ok none) r) where
    loop_rule : (fuel : ℕ) (r : Run W) → P r → Ensures Q (loop setting fuel) r
    unfolding loop next_iteration
    loop_rule zero r p = stops r p
    loop_rule (suc fuel) r p =
        let s = (iterate setting r).1 in
        let effect = iterate-Iterated r in
        bind_rule Q (iterate setting) _ r
          (λ ending e. go ending (subst (λ x. Iterated r x s) e effect) (loop_rule fuel s))
          (λ x e. throws x r s p (subst (λ y. Iterated r y s) e effect))
      where
        go :
            (ending : Ending)
            → Iterated r (ok ending) (iterate setting r).1
            → (P (iterate setting r).1 → Ensures Q (loop setting fuel) (iterate setting r).1)
            → Ensures Q
                (next_iteration setting (λ run. loop setting fuel run) ending)
                (iterate setting r).1
        go broke h again = ends r _ p h
        go continued h again = again (goes_on r _ p h)

  remaining_partition :
      {first last : ℕ} (n : ℕ)
      → setting.partition ≡ some (first, last)
      → remaining setting n ≡ last - first - n
  unfolding remaining
  remaining_partition n h = rw h

  remaining_whole : (n : ℕ) → setting.partition ≡ none → remaining setting n ≡ setting.chunk_size
  unfolding remaining
  remaining_whole n h = rw h

  -- A partitioned chunk step never counts more reads than its range is long, however the loop
  -- ends.
  pub loop-le-partition :
      (first last fuel : ℕ) (r : Run W)
      → setting.partition ≡ some (first, last)
      → r.read_count ≤ last - first
      → (loop setting fuel r).1.read_count ≤ last - first
  loop-le-partition first last fuel r h fits =
      loop_rule (λ s. s.read_count ≤ last - first) (λ _ s. s.read_count ≤ last - first)
        (λ s t p i. within s t p (omega arith)) (λ s t p i. omega arith)
        (λ e s t p i. omega (arith, remaining_partition s.read_count h)) (λ s p. p) fuel r fits
    where
      within :
          (s t : Run W)
          → s.read_count ≤ last - first
          → t.read_count ≤ s.read_count + remaining setting s.read_count
          → t.read_count ≤ last - first
      within s t p i = omega (arith, remaining_partition s.read_count h)

  -- Behind the loop of a step without partition the reads of a committed chunk number at least one and
  -- at most `chunkSize`; an error adds the reads of the chunk that it broke off.
  abbrev pub InChunks : Result BatchError (Option (Unit {0})) → Run W → Type 0
  InChunks (ok _) s =
      (s.commit_count ≤ s.read_count) × (s.read_count ≤ s.commit_count * setting.chunk_size)
  InChunks (err _) s =
      (s.commit_count ≤ s.read_count)
      × (s.read_count ≤ s.commit_count * setting.chunk_size + setting.chunk_size)

  -- A chunk step without partition that starts from zero counts at least one and at most
  -- `chunkSize` reads for each committed chunk; an error adds the reads of the chunk that it broke
  -- off.
  pub loop-InChunks :
      (fuel : ℕ) (r : Run W)
      → setting.partition ≡ none
      → r.read_count ≡ 0
      → r.commit_count ≡ 0
      → InChunks (loop setting fuel r).0 (loop setting fuel r).1
  loop-InChunks fuel r h no_reads no_commits =
      loop_rule (InChunks (ok none)) InChunks (λ s t p i. goes_on s t p i.1)
        (λ s t p i. omega (arith, scaled t s i.1))
        (λ e s t p i. omega (arith, remaining_whole s.read_count h, scaled t s i.2)) (λ s p. p) fuel
        r (omega arith)
    where
      scaled :
          (s t : Run W)
          → s.commit_count ≡ t.commit_count
          → s.commit_count * setting.chunk_size ≡ t.commit_count * setting.chunk_size
      scaled s t e = ap (λ (n : ℕ). n * setting.chunk_size) e

      goes_on :
          (s t : Run W)
          → InChunks (ok none) s
          → ((t.commit_count ≡ s.commit_count) × (t.read_count ≡ s.read_count))
            ⊎ ((t.commit_count ≡ s.commit_count + 1)
                × (suc s.read_count ≤ t.read_count)
                × (t.read_count ≤ s.read_count + remaining setting s.read_count))
          → InChunks (ok none) t
      goes_on s t p (inl (c, d)) = omega (arith, scaled t s c)
      goes_on s t p (inr (c, d, e)) =
          omega (arith, remaining_whole s.read_count h, ap (λ (n : ℕ). n * setting.chunk_size) c)
