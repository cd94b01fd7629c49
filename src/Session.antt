-- ===== src/Session.antt =====
-- The stream between an agent and the control plane: its messages (proto/qf/v1/agent.proto), the
-- signature of a bundle, and both ends of a session.
pub mod Signature
pub mod Client
pub mod Service
pub mod Agent
pub mod Files
pub mod Renewal
pub mod Provider
pub mod Opening
pub mod Applied
pub mod CatchUp
use qf.Common.{ℕ, Bool, Option, List, Text}
use qf.Common.Int.{ℤ}
use qf.Proto.{PolicyBundle}
use qf.Handler.{BundleApplied}
use qf.Server.Registry.{DisconnectSignal}

-- A PolicyBundle with the two fields that the signature fills; `signed_at` is none where it is not
-- set, and the signature is empty where there is none.
pub record SignedBundle : Type 0 where
  pub bundle : PolicyBundle
  pub signed_at : Option ℕ
  pub signature : List ℕ

-- Of the messages, the versions and the certificate renewal request (Renewal) are left out.
pub record ConfigUpdate : Type 0 where
  pub heartbeat_interval_ms : ℕ
  pub counter_report_interval_ms : ℕ
  pub event_batch_size : ℕ
  pub event_batch_max_age_ms : ℕ
  pub default_log_rate_limit_per_sec : ℕ
  pub flow_events_enabled : Bool

pub record Welcome : Type 0 where
  pub accepted : Bool
  pub reject_reason : Text
  pub server_generation : ℤ
  pub config : ConfigUpdate

pub data ServerMessage : Type 0 where
  welcome : Welcome → ServerMessage
  policy_bundle : SignedBundle → ServerMessage
  config_update : ConfigUpdate → ServerMessage
  disconnect_request : DisconnectSignal → ServerMessage
  cert_renewal_response : Bool → ServerMessage

pub record BundleAck : Type 0 where
  pub generation : ℤ
  pub signature_verified : Bool
  pub has_error_message : Bool

-- The messages of telemetry are known by a number here.
pub data AgentMessage : Type 0 where
  hello : ℤ → AgentMessage
  heartbeat : ℤ → AgentMessage
  bundle_ack : BundleAck → AgentMessage
  bundle_applied : BundleApplied → AgentMessage
  log_events flow_events counter_update system_event : ℕ → AgentMessage
  other_message : AgentMessage
