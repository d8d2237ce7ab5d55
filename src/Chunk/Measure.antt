-- ===== src/Chunk/Measure.antt =====
-- A finite input, and what the parts of the chunk loop of
-- packages/core/src/execution/chunk-step-executor.ts take of it.
use nest_batch.Prelude.{ℕ, ◌+◌, ◌≤◌, ◌≡◌, Option, none, some, List, Result, ok, err, arith}
use nest_batch.Prelude.Effects.{continue, Ensures, ◌>>=◌}
use nest_batch.Errors.{BatchError}
use nest_batch.Context.{ExecutionContext}
use nest_batch.Chunk.Handlers.{Act, Run, Task, Totals, call}
use nest_batch.Chunk.Phase.{PhaseResult, done, skipped}
use nest_batch.Chunk.Loop.{Setting, read_hooks, process_hooks, write_hooks}
use nest_batch.Chunk.Shrinking.{Tame, Takes, TameStreams, Within, call-Within, TameHooks, Took}

abbrev pub one_item : {Item : Type 0} → Option Item → ℕ
one_item none = 0
one_item (some item) = 1

abbrev pub nothing : {A : Type 0} → A → ℕ
nothing a = 0

-- Each item that the reader returns takes one from what is left, and no other call gives any back.
pub record IsFinite {W Item : Type 0} (setting : Setting W Item) (left : W → ℕ) : Type 0 where
  pub read :
      (index : ℕ) (w : W)
      → Takes left one_item
          (setting.handlers.read index w).1
          (left w)
          (setting.handlers.read index w).0
  pub process :
      (process : ℕ → Item → Act W (Option Item)) (index : ℕ) (item : Item)
      → setting.handlers.process ≡ some process
      → Tame left (process index item)
  pub write :
      (index : ℕ) (items : List Item)
      → Tame left (setting.with_transaction (setting.handlers.write index items))
  pub get : Tame left setting.get_execution_context
  pub save : (ctx : ExecutionContext) → Tame left (setting.save_execution_context ctx)
  pub before_chunk : (index : ℕ) → Tame left (setting.listeners.before_chunk index)
  pub after_chunk : (index : ℕ) (t : Totals) → Tame left (setting.listeners.after_chunk index t)
  pub read_hooks_tame : (index : ℕ) → TameHooks left (read_hooks setting index)
  pub process_hooks_tame :
      (index : ℕ) (item : Item) → TameHooks left (process_hooks setting index item)
  pub write_hooks_tame :
      (index : ℕ) (items : List Item) → TameHooks left (write_hooks setting index items)

pub Tame-Takes :
    {W A : Type 0} (left : W → ℕ) (m : Act W A)
    → Tame left m
    → (w : W) → Takes left nothing (m w).1 (left w) (m w).0
Tame-Takes {A = A} left m tame w = by_outcome (m w).0 (tame w)
  where
    by_outcome :
        (r : Result BatchError A) → left (m w).1 ≤ left w → Takes left nothing (m w).1 (left w) r
    by_outcome (ok a) h = omega arith
    by_outcome (err e) h = h

-- The outcome of a phase, as `Taken` sees it.
abbrev pub gain_of : {A : Type 0} → (A → ℕ) → PhaseResult A → ℕ
gain_of gain (done a) = gain a
gain_of gain skipped = 0

module _ {W : Type 0} (left : W → ℕ) where
  -- `k` of the input was taken, where a value says so.
  abbrev pub Taken : {A : Type 0} → (A → ℕ) → ℕ → Result BatchError A → Run W → Type 0
  Taken gain n (ok a) r = TameStreams left r.opened × (left r.world + gain a ≤ n)
  Taken gain n (err e) r = Within left n r

  pub Taken-cases :
      {A B : Type 0} (gain : A → ℕ) (gain' : B → ℕ) (m : Task W A) (f : A → Task W B) (p n : ℕ)
      (r : Run W)
      → p ≤ n
      → Ensures (Taken gain p) m r
      → ((a : A) (s : Run W)
          → TameStreams left s.opened
          → left s.world + gain a ≤ p
          → Ensures (Taken gain' n) (f a) s)
      → Ensures (Taken gain' n) (m >>= f) r
  Taken-cases {A = A} gain gain' m f p n r le h next = by_outcome (m r).0 h
    where
      by_outcome :
          (x : Result BatchError A)
          → Taken gain p x (m r).1
          → Ensures (Taken gain' n) (continue x f) (m r).1
      by_outcome (ok a) k = next a (m r).1 k.0 k.1
      by_outcome (err e) k = (k.0, omega (arith, k.1))

  pub call-Taken :
      {A : Type 0} (m : Act W A) (n : ℕ) (r : Run W)
      → Tame left m
      → Within left n r
      → Ensures (Taken nothing n) (call m) r
  call-Taken {A = A} m n r tame h = by_outcome (call m r).0 (call-Within left m n r tame h)
    where
      by_outcome :
          (x : Result BatchError A) → Within left n (call m r).1 → Taken nothing n x (call m r).1
      by_outcome (ok a) k = (k.0, omega arith)
      by_outcome (err e) k = k

  pub Took-Taken :
      {A : Type 0} (gain : A → ℕ) (n : ℕ) (x : Result BatchError (PhaseResult A)) (s : Run W)
      → Took left gain n x s
      → Taken (gain_of gain) n x s
  Took-Taken gain n (ok (done a)) s h = h
  Took-Taken gain n (ok skipped) s h = h
  Took-Taken gain n (err e) s h = h
