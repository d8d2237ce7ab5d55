-- ===== src/Builder/StepBuilder.antt =====
-- packages/core/src/builder/step-builder.ts, one function per method.
use nest_batch.Prelude.{
  ℕ, String, Bool, Option, none, some, List, [], ◌∷◌, ◌++◌, ok, err, ◌==◌, ◌===◌, if◌then◌else◌,
  ◌>>=◌,
}
use nest_batch.Errors.{plain_error, Throws}
use nest_batch.Policies.{SkipPolicyConfig, RetryPolicyConfig}
use nest_batch.Builder.{
  Ref, ListenerKind, ListenerPhase, ListenerDefinition, Step, chunk_step, tasklet_step,
}

pub record StepBuilder : Type 0 where
  pub chunk_size : Option ℕ
  pub reader : Option Ref
  pub processor : Option Ref
  pub writer : Option Ref
  pub task : Option Ref
  pub id : Option String
  pub skip_policy : Option SkipPolicyConfig
  pub retry_policy : Option RetryPolicyConfig
  pub item_listeners : List Ref
  pub listener_defs : List ListenerDefinition

-- `new StepBuilder()`
unfoldable pub new : StepBuilder
new = record {
  chunk_size = none;
  reader = none;
  processor = none;
  writer = none;
  task = none;
  id = none;
  skip_policy = none;
  retry_policy = none;
  item_listeners = [];
  listener_defs = [];
}

-- The third argument of `chunk`
pub record ChunkConfig : Type 0 where
  pub reader : Ref
  pub processor : Option Ref
  pub writer : Ref
  pub skip_policy : Option SkipPolicyConfig
  pub retry_policy : Option RetryPolicyConfig

unfoldable pub configured : Option ChunkConfig → StepBuilder → StepBuilder
configured none b = b
configured (some config) b = record b {
  reader = some config.reader;
  processor = config.processor;
  writer = some config.writer;
  skip_policy = config.skip_policy;
  retry_policy = config.retry_policy;
}

-- The calls on a builder
pub data Call : Type 0 where
  chunk : String → ℕ → Option ChunkConfig → Call
  tasklet : String → Ref → Call
  reader processor writer : Ref → Call
  skip_policy : SkipPolicyConfig → Call
  retry_policy : RetryPolicyConfig → Call
  add_listener : Ref → ListenerKind → ListenerPhase → Option Bool → Call

unfoldable pub call : Call → StepBuilder → Throws StepBuilder
unfolding configured
call (chunk id size config) b =
    if size == 0
    then err (plain_error "chunkSize must be a positive integer")
    else ok (configured config (record b { id = some id; chunk_size = some size }))
call (tasklet id ref) b = ok (record b { id = some id; task = some ref })
call (reader ref) b = ok (record b { reader = some ref })
call (processor ref) b = ok (record b { processor = some ref })
call (writer ref) b = ok (record b { writer = some ref })
call (skip_policy p) b = ok (record b { skip_policy = some p })
call (retry_policy p) b = ok (record b { retry_policy = some p })
call (add_listener ref kind phase non_critical) b = ok (record b {
  item_listeners = b.item_listeners ++ ref ∷ [];
  listener_defs =
      b.listener_defs
      ++ record {
        kind = kind;
        ref = ref;
        phase = phase;
        skip_kind = none;
        non_critical = non_critical;
      }
        ∷ [];
})

unfoldable pub calls : List Call → StepBuilder → Throws StepBuilder
unfolding call
calls [] b = ok b
calls (c ∷ cs) b = call c b >>= calls cs

unfoldable pub no_kind : Throws Step
no_kind = err (plain_error "Step must be either tasklet or chunk with reader+writer")

-- The chunk step, where `chunkSize`, `reader` and `writer` are there.
unfoldable pub build_chunk : String → StepBuilder → Option ℕ → Option Ref → Option Ref → Throws Step
unfolding no_kind
build_chunk id b (some size) (some r) (some w) = ok (
    chunk_step (record {
      step = record {
        id = id;
        chunk_size = size;
        skip_policy = b.skip_policy;
        retry_policy = b.retry_policy;
        partitions = none;
      };
      reader = r;
      processor = b.processor;
      writer = w;
      listeners = b.item_listeners;
    }))
build_chunk id b _ _ _ = no_kind

unfoldable pub build_kind : String → StepBuilder → Option Ref → Throws Step
unfolding build_chunk
build_kind id b (some ref) =
    ok (tasklet_step (record { id = id; task = ref; listeners = b.item_listeners }))
build_kind id b none = build_chunk id b b.chunk_size b.reader b.writer

unfoldable pub no_id : Throws Step
no_id = err (plain_error "Step must have an id (call .chunk() or .tasklet() first)")

-- An empty id counts as none.
unfoldable pub build_with : StepBuilder → Option String → Throws Step
unfolding no_id build_kind
build_with b none = no_id
build_with b (some id) = if id === "" then no_id else build_kind id b b.task

unfoldable pub build : StepBuilder → Throws Step
unfolding build_with
build b = build_with b b.id
