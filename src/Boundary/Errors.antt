-- ===== src/Boundary/Errors.antt =====
-- `ApiError` of src/error.rs, what a handler or a guard answers when it refuses.
use nowledge.Prelude.{ℕ, String, Option}

pub data LlmFailureKind : Type 0 where
  auth_failed rate_limited quota_exhausted model_unsupported server_error request_failed :
      LlmFailureKind

pub record LlmUpstreamError : Type 0 where
  pub kind : LlmFailureKind
  pub provider : String
  pub model : String
  pub upstream_status : Option ℕ
  pub retry_after_seconds : Option ℕ
  pub attempts : ℕ

pub data ApiError : Type 0 where
  bad_request : String → ApiError
  validation : (field message : String) → ApiError
  unauthorized forbidden not_found conflict : String → ApiError
  payload_too_large : ApiError
  too_many_requests service_unavailable : ℕ → ApiError
  timeout : ApiError
  llm_upstream : LlmUpstreamError → ApiError
  upstream internal : String → ApiError
