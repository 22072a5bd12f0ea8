-- ===== src/StateMachine.antt =====
-- state_machine.py: the transition table of training jobs. The statuses are those of contracts.py.
pub mod Laws
use scooling_lab.Base.{Bool, true, false, if◌then◌else◌, ◌||◌, String, Option, some, none, str_eq}
use scooling_lab.Errors.{Result, ok, err, api, invalid_transition}

-- `class TrainingJobStatus`
pub data TrainingJobStatus : Type 0 where
  queued running succeeded failed cancelled deleted : TrainingJobStatus

unfoldable pub status_value : TrainingJobStatus → String
status_value queued = "queued"
status_value running = "running"
status_value succeeded = "succeeded"
status_value failed = "failed"
status_value cancelled = "cancelled"
status_value deleted = "deleted"

-- `TrainingJobStatus(text)`; `none` is the `ValueError`
unfoldable pub status_of_value : String → Option TrainingJobStatus
status_of_value s =
    if str_eq s "queued"
    then some queued
    else if str_eq s "running"
    then some running
    else if str_eq s "succeeded"
    then some succeeded
    else if str_eq s "failed"
    then some failed
    else if str_eq s "cancelled"
    then some cancelled
    else if str_eq s "deleted"
    then some deleted
    else none

-- `==` on statuses
abbrev pub same : TrainingJobStatus → TrainingJobStatus → Bool
same queued queued = true
same running running = true
same succeeded succeeded = true
same failed failed = true
same cancelled cancelled = true
same deleted deleted = true
same _ _ = false

-- `target in TRANSITION_TABLE[current]`
unfoldable pub transition_table : TrainingJobStatus → TrainingJobStatus → Bool
transition_table queued target = same target running || same target failed || same target cancelled
transition_table running target =
    same target succeeded || same target failed || same target cancelled
transition_table succeeded target = same target deleted
transition_table deleted target = false
transition_table failed target = false
transition_table cancelled target = false

unfoldable pub transition : TrainingJobStatus → TrainingJobStatus → Result TrainingJobStatus
unfolding transition_table
transition current target =
    if same current target
    then ok current
    else if transition_table current target
    then ok target
    else err (api invalid_transition 409)

abbrev pub is_terminal : TrainingJobStatus → Bool
is_terminal queued = false
is_terminal running = false
is_terminal _ = true

unfoldable pub cancel : TrainingJobStatus → Result TrainingJobStatus
unfolding transition
cancel current = if is_terminal current then ok current else transition current cancelled
