-- ===== src/Telegram/Failures.antt =====
-- Failures of the Bot API in internal/telegram/client.go. A Go error is what errors.Is and errors.As find
-- on its chain.
use omp_telegram.Common.{
  ℕ, ℤ, pos, Text, codes, text_eq, is_empty, trim_space, Bool, true, false, ◌&&◌, ◌||◌, ltb, ◌==◌,
  if◌then◌else◌, Option, none, some,
}

pub record ApiError : Type 0 where
  pub code : ℕ
  pub description : Text
  pub retry_after : ℤ

-- What ClassifyError and DeliveryUncertain ask of an error: whether it is a cancellation or an expired
-- deadline, the first deliveryError, APIError and reasonError on its chain, and whether it timed out.
pub record Failure : Type 0 where
  pub cancelled : Bool
  pub deadline_exceeded : Bool
  pub delivery : Option Bool
  pub api : Option ApiError
  pub reason : Option Text
  pub times_out : Bool

pub record ErrorInfo : Type 0 where
  pub code : ℕ
  pub reason : Text
  pub retry_after : ℤ
  pub uncertain : Bool

-- DeliveryUncertain of an error: what its deliveryError says, and otherwise the worst.
unfoldable pub delivery_uncertain : Option Failure → Bool
delivery_uncertain none = false
delivery_uncertain (some f) = elim (f.delivery) [ none ↦ true | some uncertain ↦ uncertain ]

unfoldable pub api_error_uncertain : ApiError → Bool
unfolding trim_space is_empty
api_error_uncertain e =
    ltb (e.code) 400 || ltb 599 (e.code) || is_empty (trim_space (e.description))

-- The `uncertain` of a deliveryError, if there is one.
abbrev pub marked_uncertain : Option Bool → Bool
marked_uncertain none = false
marked_uncertain (some uncertain) = uncertain

-- A reason and no more.
abbrev pub plain_info : Text → Bool → ErrorInfo
plain_info reason uncertain = record {
  code = 0;
  reason = reason;
  retry_after = pos 0;
  uncertain = uncertain;
}

module _ (to_lower : Text → Text) where
  unfoldable pub message_thread_not_found : Text → Bool
  unfolding trim_space text_eq
  message_thread_not_found description =
      let s = to_lower (trim_space description) in
      text_eq s (codes "bad request: message thread not found")
      || text_eq s (codes "message thread not found")

  unfoldable pub reply_target_not_found : Text → Bool
  unfolding trim_space text_eq
  reply_target_not_found description =
      let s = to_lower (trim_space description) in
      text_eq s (codes "bad request: reply message not found")
      || text_eq s (codes "reply message not found")
      || text_eq s (codes "bad request: message to reply not found")
      || text_eq s (codes "message to reply not found")
      || text_eq s (codes "bad request: message to be replied not found")
      || text_eq s (codes "message to be replied not found")

  unfoldable pub api_reason : ApiError → Text
  unfolding message_thread_not_found reply_target_not_found
  api_reason e =
      if e.code == 429
      then codes "rate_limited"
      else if e.code == 400 && message_thread_not_found (e.description)
      then codes "message_thread_not_found"
      else if e.code == 400 && reply_target_not_found (e.description)
      then codes "reply_target_not_found"
      else if e.code == 400
      then codes "api_bad_request"
      else codes "api_error"

  -- The information on an APIError, whose own code decides where no deliveryError does.
  unfoldable pub classify_api : Option Bool → ApiError → ErrorInfo
  unfolding api_reason api_error_uncertain
  classify_api delivery e = record {
    code = e.code;
    reason = api_reason e;
    retry_after = e.retry_after;
    uncertain = elim delivery [ none ↦ api_error_uncertain e | some uncertain ↦ uncertain ];
  }

  -- ClassifyError of an error that is not nil.
  unfoldable pub classify_failure : Failure → ErrorInfo
  unfolding classify_api delivery_uncertain
  classify_failure f =
      let unsure = delivery_uncertain (some f) in
      if f.cancelled
      then plain_info (codes "cancelled") (marked_uncertain (f.delivery))
      else if f.deadline_exceeded
      then plain_info (codes "timeout") (marked_uncertain (f.delivery))
      else elim (f.api) [
        | some e ↦ classify_api (f.delivery) e
        | none ↦ elim (f.reason) [
          | some reason ↦ plain_info reason unsure
          | none ↦ plain_info (if f.times_out then codes "timeout" else codes "unknown") unsure
        ]
      ]

  unfoldable pub classify_error : Option Failure → ErrorInfo
  unfolding classify_failure
  classify_error none = record {
    code = 0;
    reason = codes "unknown";
    retry_after = pos 0;
    uncertain = false;
  }
  classify_error (some f) = classify_failure f
