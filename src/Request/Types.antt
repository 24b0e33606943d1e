-- ===== src/Request/Types.antt =====
-- core/request/model.go, result.go, completion.go: the records of the request store.
-- Unix times, sizes and counts are natural numbers: the tests of a negative `int64`, which the
-- code makes on rows that it loads, have no case here.
use codex_link_clawbot.Prelude.{ℕ, ◌*◌, ◌^◌, Bool, true, false, List}
use codex_link_clawbot.Text.{Text, text, text_eq}
use codex_link_clawbot.Presentation.{ResponseMode, Style}
use codex_link_clawbot.Map.{Map}

pub data State : Type 0 where
  running delivering succeeded failed interrupted cancelled : State
  other : Text → State

unfoldable pub state_eq : State → State → Bool
unfolding text_eq
state_eq running running = true
state_eq delivering delivering = true
state_eq succeeded succeeded = true
state_eq failed failed = true
state_eq interrupted interrupted = true
state_eq cancelled cancelled = true
state_eq (other s) (other t) = text_eq s t
state_eq _ _ = false

-- `State.Valid`
unfoldable pub valid_state : State → Bool
valid_state (other t) = false
valid_state _ = true

-- `State.Terminal`
unfoldable pub terminal : State → Bool
terminal succeeded = true
terminal failed = true
terminal interrupted = true
terminal cancelled = true
terminal _ = false

abbrev pub index_version : ℕ
index_version = 4

abbrev pub request_version : ℕ
request_version = 2

abbrev pub result_version : ℕ
result_version = 2

abbrev pub max_records_per_owner : ℕ
max_records_per_owner = 1000

abbrev pub max_result_store_bytes : ℕ
max_result_store_bytes = 2 ^ 30

abbrev pub max_image_bytes : ℕ
max_image_bytes = 20 * 2 ^ 20

abbrev pub max_file_bytes : ℕ
max_file_bytes = 50 * 2 ^ 20

abbrev pub max_task_bytes : ℕ
max_task_bytes = 100 * 2 ^ 20

abbrev pub max_input_store_bytes : ℕ
max_input_store_bytes = 500 * 2 ^ 20

abbrev pub max_request_text_bytes : ℕ
max_request_text_bytes = 2 ^ 20

abbrev pub max_context_token_bytes : ℕ
max_context_token_bytes = 64 * 2 ^ 10

abbrev pub max_source_data_bytes : ℕ
max_source_data_bytes = 128 * 2 ^ 10

abbrev pub max_result_reply_bytes : ℕ
max_result_reply_bytes = 5 * 2 ^ 20

abbrev pub max_result_artifacts : ℕ
max_result_artifacts = 8

abbrev pub max_result_urls : ℕ
max_result_urls = 8

-- Seconds: 24 hours, 7 days, 30 days.
abbrev pub payload_retention : ℕ
payload_retention = 86400

abbrev pub result_retention : ℕ
result_retention = 604800

abbrev pub history_retention : ℕ
history_retention = 2592000

pub record Task : Type 0 where
  pub input_pending : Bool
  pub archive_failed : Bool
  pub turn_id : Text
  pub target_id : Text
  pub execution_completed_at : ℕ
  pub result_expires_at : ℕ
  pub result_bytes : ℕ
  pub id : Text
  pub source_message_key : Text
  pub owner_id : Text
  pub project_id : Text
  pub thread_id : Text
  pub summary : Text
  pub state : State
  pub stage : Text
  pub reason : Text
  pub response_mode : ResponseMode
  pub visual_style : Style
  pub order : ℕ
  pub created_at : ℕ
  pub started_at : ℕ
  pub finished_at : ℕ
  pub payload_expires_at : ℕ
  pub retry_of : Text
  pub image_count : ℕ
  pub file_count : ℕ
  pub payload_bytes : ℕ
  pub input_tokens : ℕ
  pub output_tokens : ℕ
  pub total_tokens : ℕ

-- `Rejection`: the receipt of an instruction that was refused, without its text.
pub record Rejection : Type 0 where
  pub source : Text
  pub owner_id : Text
  pub target_id : Text
  pub thread_id : Text
  pub task_id : Text
  pub turn_id : Text
  pub at : ℕ

-- `ClearedReceipt`: what is kept of a request that its owner removed.
pub record ClearedReceipt : Type 0 where
  pub owner_id : Text
  pub task_id : Text
  pub state : State
  pub execution_completed_at : ℕ
  pub at : ℕ

-- `indexFile`. `OwnerRecords` holds one list of tasks, so an owner maps to that list.
pub record Index : Type 0 where
  pub version : ℕ
  pub next_order : ℕ
  pub owners : Map (List Task)
  pub rejected : Map Rejection
  pub cleared : Map ClearedReceipt

pub record Attachment : Type 0 where
  pub name : Text
  pub path : Text
  pub content_type : Text
  pub size : ℕ
  pub sha256 : Text

pub record Request : Type 0 where
  pub source_data : List ℕ
  pub version : ℕ
  pub source_message_key : Text
  pub text : Text
  pub context_token : Text
  pub images : List Attachment
  pub files : List Attachment

pub record InputAttachment : Type 0 where
  pub name : Text
  pub content_type : Text
  pub content : List ℕ

pub record StartInput : Type 0 where
  pub source_data : List ℕ
  pub target_id : Text
  pub source_message_key : Text
  pub owner_id : Text
  pub project_id : Text
  pub thread_id : Text
  pub summary : Text
  pub text : Text
  pub context_token : Text
  pub response_mode : ResponseMode
  pub visual_style : Style
  pub retry_of : Text
  pub images : List InputAttachment
  pub files : List InputAttachment

pub data DeliveryOutcome : Type 0 where
  pending succeeded explicit_failure ambiguous : DeliveryOutcome
  other : Text → DeliveryOutcome

-- `DeliveryOutcome.valid`
unfoldable pub valid_outcome : DeliveryOutcome → Bool
valid_outcome (DeliveryOutcome.other t) = false
valid_outcome _ = true

unfoldable pub is_pending : DeliveryOutcome → Bool
is_pending pending = true
is_pending _ = false

unfoldable pub is_delivered : DeliveryOutcome → Bool
is_delivered DeliveryOutcome.succeeded = true
is_delivered _ = false

pub record DeliveryReceipt : Type 0 where
  pub operation_id : Text
  pub outcome : DeliveryOutcome
  pub attempted_at : ℕ
  pub media_sent : ℕ
  pub text_sent : Bool
  pub failure_code : Text

pub record ResultArtifact : Type 0 where
  pub name : Text
  pub path : Text
  pub size : ℕ
  pub sha256 : Text

pub record Result : Type 0 where
  pub attempts : List DeliveryReceipt
  pub version : ℕ
  pub reply : Text
  pub artifacts : List ResultArtifact
  pub image_urls : List Text
  pub response_mode : ResponseMode
  pub visual_style : Style
  pub frozen_at : ℕ
  pub receipt : DeliveryReceipt

pub record Completion : Type 0 where
  pub version : ℕ
  pub reply : Text
  pub at : ℕ

-- The error values that the store's functions return, one for each message.
pub data Error : Type 0 where
  capacity session_busy already_rejected already_cleared : Error
  task_not_found invalid_start invalid_index_schema invalid_owner duplicated_id : Error
  duplicated_source several_active owner_limit invalid_cleared cleared_has_execution : Error
  invalid_rejection rejected_has_execution : Error
  invalid_identity invalid_project invalid_display invalid_state invalid_target : Error
  invalid_completion inconsistent_completion invalid_retention : Error
  invalid_timestamps invalid_retry_source invalid_attachments invalid_phase_times : Error
  invalid_request invalid_receipt invalid_result invalid_reason invalid_stage : Error
  invalid_thread thread_fixed not_running not_active completed_not_cancellable : Error
  transition_refused turn_fixed not_completable reply_limit not_terminal : Error
  result_limits result_unavailable result_frozen result_store_full storage_failed : Error
  files_failed id_failed receipt_incomplete operation_unknown invalid_operation : Error
  not_redeliverable attempt_limit not_initial_delivery input_closed input_unavailable : Error
  recovery_failed not_retryable operation_used : Error

-- The stage lines and reasons that the store writes.
abbrev pub reason_interrupt_unconfirmed : Text
reason_interrupt_unconfirmed = text "interrupt_unconfirmed"

abbrev pub reason_restart_running : Text
reason_restart_running = text "restart_running"

abbrev pub reason_restart_delivery : Text
reason_restart_delivery = text "restart_delivery"

abbrev pub reason_delivery_ambiguous : Text
reason_delivery_ambiguous = text "delivery_ambiguous"

abbrev pub reason_result_freeze_failed : Text
reason_result_freeze_failed = text "result_freeze_failed"
