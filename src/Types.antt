-- ===== src/Types.antt =====
-- onset/types.py: the events and messages that the components of a call exchange.
use telnyx_onset.Prelude.{ℕ, Text, List, Option}

pub data BenchmarkMode : Type 0 where
  production onset_fd_vad onset_fd_transcript onset_half_duplex : BenchmarkMode

pub data SttEventType : Type 0 where
  transcript_interim transcript_final utterance_end speech_started : SttEventType

pub record SttEvent : Type 0 where
  pub type : SttEventType
  pub transcript : Text

-- `outcome` is "completed" or "failed"; the category names the exception of a failed send.
pub data FlushOutcome : Type 0 where
  completed : FlushOutcome
  failed : Text → FlushOutcome

pub record MediaFlushResult : Type 0 where
  pub old_epoch : ℕ
  pub new_epoch : ℕ
  pub invalidated_ns : ℕ
  pub send_started_ns : ℕ
  pub send_finished_ns : ℕ
  pub outcome : FlushOutcome

pub record ToolCallRequest : Type 0 where
  pub id : Text
  pub name : Text
  pub arguments : Text

pub data Role : Type 0 where
  system user assistant tool : Role

-- `tool_calls` is empty where the source has None: the code only tests its truth.
pub record LlmMessage : Type 0 where
  pub role : Role
  pub content : Text
  pub tool_calls : List ToolCallRequest
  pub tool_call_id : Option Text

pub data LlmEvent : Type 0 where
  text_delta : Text → LlmEvent
  tool_call : ToolCallRequest → LlmEvent
