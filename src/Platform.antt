-- ===== src/Platform.antt =====
-- internal/platform: the shared errors and identifiers.
use flowanything.Common.{String, Bool, ◌==◌, trim_space}

-- apperrors.Code (internal/platform/kernel/errors)
pub data Code : Type 0 where
  invalid_argument not_found conflict unauthorized forbidden internal unavailable : Code

-- apperrors.Error: New, and Wrap around an error. `foreign` is any other error, by its text.
pub data AppError : Type 0 where
  new : Code → String → AppError
  wrap : Code → String → AppError → AppError
  foreign : String → AppError

-- id.ID.Empty and tenant.ID.Empty
unfoldable pub is_empty : String → Bool
is_empty id = trim_space id == ""

-- What a call returns as (value, error), where it cannot panic.
pub data Answer (A : Type 0) : Type 0 where
  fine : A → Answer A
  fails : AppError → Answer A
