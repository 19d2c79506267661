-- ===== src/Validation/Error.antt =====
-- validation/validation.go: the sentinels of the package, and the errors without one.

pub data ValidationError : Type 0 where
  validation_build provider_failure provider_output registry : ValidationError
  request_refused nil_provider refused : ValidationError
