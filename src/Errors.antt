-- ===== src/Errors.antt =====
-- The error classes of packages/core/src/core/errors.ts, the partition error of
-- packages/core/src/partition-helpers.ts, and what user code throws. The text of a message is not
-- modelled: `message_of` stands for the message that an error's constructor composes.
use nest_batch.Prelude.{ℕ, String, Result}

-- The `code` that an `InvalidFlowGraphError` is built with.
pub data FlowCode : Type 0 where
  empty_job no_start_step invalid_chunk_size invalid_partitions missing_target duplicate_decider
        unreachable_step cycle_detected ambiguous_transition invalid_skip_limit :
      FlowCode

-- Something that user code throws: what the policies can ask of it is a number that names it.
pub record Thrown : Type 0 where
  pub ident : ℕ
  pub message : String

pub data BatchError : Type 0 where
  job_not_found : String → BatchError
  duplicate_job_definition : String → BatchError
  invalid_flow_graph : FlowCode → BatchError
  skip_limit_exceeded : ℕ → BatchError
  retry_limit_exceeded : ℕ → BatchError
  job_execution_already_running : String → BatchError
  job_execution_not_found : String → BatchError
  job_instance_not_found : String → BatchError
  invalid_job_operation : String → BatchError
  job_not_restartable : String → BatchError
  invalid_execution_context : BatchError
  provider_token_not_found : String → BatchError
  -- `ProviderNotFoundError` of packages/core/src/compiler/definition-compiler.ts
  provider_not_found : (token : String) → BatchError
  invalid_partitions_error : BatchError
  -- `new Error(...)` with a message of the program's own
  plain_error : String → BatchError
  -- a value that user code threw
  user_error : Thrown → BatchError

-- An `exitMessage`.
pub data Message : Type 0 where
  message : String → Message
  message_of : BatchError → Message

abbrev pub Throws : Type 0 → Type 0
Throws A = Result BatchError A
