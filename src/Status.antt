-- ===== src/Status.antt =====
-- packages/core/src/core/status.ts. The values of the string enums are given where they reach a
-- transition's pattern or an exit code.
use nest_batch.Prelude.{Bool, true, false}
use nest_batch.Prelude.Text.{Text, text}

pub data FlowExecutionStatus : Type 0 where
  completed failed stopped unknown : FlowExecutionStatus

pub data JobStatus : Type 0 where
  starting started completed failed stopping stopped abandoned unknown : JobStatus

pub data StepStatus : Type 0 where
  starting started completed failed stopped unknown : StepStatus

-- The string value of a `FlowExecutionStatus`.
abbrev pub flow_text : FlowExecutionStatus → Text
flow_text FlowExecutionStatus.completed = text "COMPLETED"
flow_text FlowExecutionStatus.failed = text "FAILED"
flow_text FlowExecutionStatus.stopped = text "STOPPED"
flow_text FlowExecutionStatus.unknown = text "UNKNOWN"

-- `status === other`
abbrev pub job_status_eq : JobStatus → JobStatus → Bool
job_status_eq JobStatus.starting JobStatus.starting = true
job_status_eq JobStatus.started JobStatus.started = true
job_status_eq JobStatus.completed JobStatus.completed = true
job_status_eq JobStatus.failed JobStatus.failed = true
job_status_eq JobStatus.stopping JobStatus.stopping = true
job_status_eq JobStatus.stopped JobStatus.stopped = true
job_status_eq JobStatus.abandoned JobStatus.abandoned = true
job_status_eq JobStatus.unknown JobStatus.unknown = true
job_status_eq _ _ = false

abbrev pub step_status_eq : StepStatus → StepStatus → Bool
step_status_eq StepStatus.starting StepStatus.starting = true
step_status_eq StepStatus.started StepStatus.started = true
step_status_eq StepStatus.completed StepStatus.completed = true
step_status_eq StepStatus.failed StepStatus.failed = true
step_status_eq StepStatus.stopped StepStatus.stopped = true
step_status_eq StepStatus.unknown StepStatus.unknown = true
step_status_eq _ _ = false
