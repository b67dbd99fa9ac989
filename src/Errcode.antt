-- ===== src/Errcode.antt =====
-- internal/errcode/common.go: the catalogue of API errors.
use ginblade.Prelude.Int.{pos}
use ginblade.Errors.{Error, new_error}

unfoldable pub invalid_params : Error
unfolding new_error
invalid_params = new_error (pos 1001) "INVALID_PARAMS"

unfoldable pub unauthorized : Error
unfolding new_error
unauthorized = new_error (pos 1002) "UNAUTHORIZED"

abbrev pub permission_denied : Error
unfolding new_error
permission_denied = new_error (pos 1003) "PERMISSION_DENIED"

abbrev pub too_many_requests : Error
unfolding new_error
too_many_requests = new_error (pos 1004) "TOO_MANY_REQUESTS"

abbrev pub request_timeout : Error
unfolding new_error
request_timeout = new_error (pos 1005) "REQUEST_TIMEOUT"

abbrev pub internal_error : Error
unfolding new_error
internal_error = new_error (pos 9001) "INTERNAL_ERROR"

unfoldable pub database_error : Error
unfolding new_error
database_error = new_error (pos 9002) "DATABASE_ERROR"

unfoldable pub queue_unavailable : Error
unfolding new_error
queue_unavailable = new_error (pos 9003) "QUEUE_UNAVAILABLE"

unfoldable pub queue_error : Error
unfolding new_error
queue_error = new_error (pos 9004) "QUEUE_ERROR"
