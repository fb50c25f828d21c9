-- ===== src/Turn/Message.antt =====
-- src/turn/message.rs: the error ascii and their reason phrases. `TurnError` is used nowhere.
use uturn.Common.{ℕ}
use uturn.Common.Bytes.{Str, ascii}

pub data TurnErrorCode : Type 0 where
  bad_request unauthorized forbidden unknown_attribute allocation_mismatch stale_nonce :
      TurnErrorCode
  wrong_credentials unsupported_transport allocation_quota_reached server_error : TurnErrorCode
  insufficient_capacity : TurnErrorCode

-- `self as u16`
abbrev pub error_number : TurnErrorCode → ℕ
error_number bad_request = 400
error_number unauthorized = 401
error_number forbidden = 403
error_number unknown_attribute = 420
error_number allocation_mismatch = 437
error_number stale_nonce = 438
error_number wrong_credentials = 441
error_number unsupported_transport = 442
error_number allocation_quota_reached = 486
error_number server_error = 500
error_number insufficient_capacity = 508

abbrev pub reason : TurnErrorCode → Str
reason bad_request = ascii "Bad Request"
reason unauthorized = ascii "Unauthorized"
reason forbidden = ascii "Forbidden"
reason unknown_attribute = ascii "Unknown Attribute"
reason allocation_mismatch = ascii "Allocation Mismatch"
reason stale_nonce = ascii "Stale Nonce"
reason wrong_credentials = ascii "Wrong Credentials"
reason unsupported_transport = ascii "Unsupported Transport Protocol"
reason allocation_quota_reached = ascii "Allocation Quota Reached"
reason server_error = ascii "Server Error"
reason insufficient_capacity = ascii "Insufficient Capacity"
