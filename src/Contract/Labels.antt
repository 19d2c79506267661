-- ===== src/Contract/Labels.antt =====
-- The names and numbers that the enumerations print as (the `_name` tables of contract/v1).
use blueveil.Prelude.{String}
use blueveil.Prelude.Text.{signed_decimal}
use blueveil.Contract.Enums.{Severity, OperationType}

-- Severity.String()
unfoldable pub severity_name : Severity → String
unfolding signed_decimal
severity_name Severity.unspecified = "SEVERITY_UNSPECIFIED"
severity_name Severity.info = "SEVERITY_INFO"
severity_name Severity.low = "SEVERITY_LOW"
severity_name Severity.medium = "SEVERITY_MEDIUM"
severity_name Severity.high = "SEVERITY_HIGH"
severity_name Severity.critical = "SEVERITY_CRITICAL"
severity_name (Severity.out_of_range n) = signed_decimal n

-- OperationType.String()
unfoldable pub operation_name : OperationType → String
unfolding signed_decimal
operation_name OperationType.unspecified = "OPERATION_TYPE_UNSPECIFIED"
operation_name OperationType.read = "OPERATION_TYPE_READ"
operation_name OperationType.observe = "OPERATION_TYPE_OBSERVE"
operation_name OperationType.analyze = "OPERATION_TYPE_ANALYZE"
operation_name OperationType.recommend = "OPERATION_TYPE_RECOMMEND"
operation_name OperationType.write = "OPERATION_TYPE_WRITE"
operation_name OperationType.modify = "OPERATION_TYPE_MODIFY"
operation_name OperationType.block = "OPERATION_TYPE_BLOCK"
operation_name OperationType.isolate = "OPERATION_TYPE_ISOLATE"
operation_name OperationType.delete = "OPERATION_TYPE_DELETE"
operation_name OperationType.execute = "OPERATION_TYPE_EXECUTE"
operation_name (OperationType.out_of_range n) = signed_decimal n

-- fmt.Sprint(int32(op))
unfoldable pub operation_number : OperationType → String
unfolding signed_decimal
operation_number OperationType.unspecified = "0"
operation_number OperationType.read = "1"
operation_number OperationType.observe = "2"
operation_number OperationType.analyze = "3"
operation_number OperationType.recommend = "4"
operation_number OperationType.write = "5"
operation_number OperationType.modify = "6"
operation_number OperationType.block = "7"
operation_number OperationType.isolate = "8"
operation_number OperationType.delete = "9"
operation_number OperationType.execute = "10"
operation_number (OperationType.out_of_range n) = signed_decimal n
