-- ===== src/Repository/Contexts.antt =====
-- The execution contexts of packages/core/src/repository/in-memory/in-memory-job-repository.ts.
use nest_batch.Prelude.{ℕ, ◌+◌, Option, none, some}
use nest_batch.Prelude.Table.{get, set}
use nest_batch.Prelude.Effects.{lift, gets, modify, ◌>>=◌, ◌>>◌}
use nest_batch.Context.{Json, ExecutionContext, assert_json_serializable}
use nest_batch.Repository.{ExecutionScope}
use nest_batch.Repository.State.{Repo, scope_key}

-- A scope without a context reads as null in version 0.
unfoldable pub context_or_empty : Option ExecutionContext → ExecutionContext
context_or_empty none = record { content = Json.null; version = 0 }
context_or_empty (some ctx) = ctx

unfoldable pub get_execution_context : ExecutionScope → Repo ExecutionContext
unfolding scope_key context_or_empty
get_execution_context scope = gets (λ s. context_or_empty (get (scope_key scope) s.contexts))

-- `version !== undefined ? version : (current?.version ?? 0) + 1`
unfoldable pub next_version : Option ℕ → Option ExecutionContext → ℕ
next_version (some version) current = version
next_version none none = 1
next_version none (some ctx) = ctx.version + 1

unfoldable pub put_context : ExecutionScope → ExecutionContext → Option ℕ → Repo (Unit {0})
unfolding scope_key next_version
put_context scope ctx version = do
  current ← gets (λ s. get (scope_key scope) s.contexts)
  let next : ExecutionContext = record {
    content = ctx.content;
    version = next_version version current;
  }
  modify (λ s. record s { contexts = set (scope_key scope) next s.contexts })

unfoldable pub save_execution_context :
    ExecutionScope → ExecutionContext → Option ℕ → Repo (Unit {0})
unfolding put_context
save_execution_context scope ctx version = do
  lift (assert_json_serializable 0 ctx.content)
  put_context scope ctx version
