-- ===== src/Error/HttpStatus.antt =====
-- packages/dubbo/src/protocol-triple/http-status.ts and protocol-grpc/http-status.ts: HTTP
-- statuses and codes, in the Triple protocol and in gRPC.
use node_dubbo.Prelude.{ℕ, ◌==◌, if◌then◌else◌}
use node_dubbo.Error.Codes.{Code}

-- protocol-triple/http-status.ts
unfoldable pub code_from_http_status : ℕ → Code
code_from_http_status status =
    if status == 400
    then Code.invalid_argument
    else if status == 401
    then Code.unauthenticated
    else if status == 403
    then Code.permission_denied
    else if status == 404
    then Code.unimplemented
    else if status == 408
    then Code.deadline_exceeded
    else if status == 409
    then Code.aborted
    else if status == 412
    then Code.failed_precondition
    else if status == 413
    then Code.resource_exhausted
    else if status == 415
    then Code.internal
    else if status == 429
    then Code.unavailable
    else if status == 431
    then Code.resource_exhausted
    else if status == 502
    then Code.unavailable
    else if status == 503
    then Code.unavailable
    else if status == 504
    then Code.unavailable
    else Code.unknown

unfoldable pub code_to_http_status : Code → ℕ
code_to_http_status Code.canceled = 408
code_to_http_status Code.unknown = 500
code_to_http_status Code.invalid_argument = 400
code_to_http_status Code.deadline_exceeded = 408
code_to_http_status Code.not_found = 404
code_to_http_status Code.already_exists = 409
code_to_http_status Code.permission_denied = 403
code_to_http_status Code.resource_exhausted = 429
code_to_http_status Code.failed_precondition = 412
code_to_http_status Code.aborted = 409
code_to_http_status Code.out_of_range = 400
code_to_http_status Code.unimplemented = 404
code_to_http_status Code.internal = 500
code_to_http_status Code.unavailable = 503
code_to_http_status Code.data_loss = 500
code_to_http_status Code.unauthenticated = 401
code_to_http_status (Code.other n) = 500

-- protocol-grpc/http-status.ts
unfoldable pub grpc_code_from_http_status : ℕ → Code
grpc_code_from_http_status status =
    if status == 400
    then Code.internal
    else if status == 401
    then Code.unauthenticated
    else if status == 403
    then Code.permission_denied
    else if status == 404
    then Code.unimplemented
    else if status == 429
    then Code.unavailable
    else if status == 502
    then Code.unavailable
    else if status == 503
    then Code.unavailable
    else if status == 504
    then Code.unavailable
    else Code.unknown
