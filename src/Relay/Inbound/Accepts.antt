-- ===== src/Relay/Inbound/Accepts.antt =====
-- relay/inbound/grpc.rs: which requests `validate_request` lets through.
use tobira.Base.{◌≡◌, ◌↔◌, true, none, String, arith, eq_iff, codes}
use tobira.Http.{starts_with}
use tobira.Relay.Inbound.{Request, or_default, expected_path, validate_request}

-- The request is a POST to the service's path whose content type starts with "application/grpc".
abbrev pub IsTunnel : Request → String → Type 0
IsTunnel request service_name =
    (request.method ≡ "POST")
    × (request.path ≡ expected_path service_name)
    × (starts_with (codes "application/grpc") (codes (or_default request.content_type)) ≡ true)

-- A request is let through just if it is a tunnel of the service; one without a content type is not.
pub validate_request_iff :
    (request : Request) (service_name : String)
    → (validate_request request service_name ≡ none) ↔ IsTunnel request service_name
unfolding validate_request
validate_request_iff request service_name =
    ground (arith, eq_iff request.method "POST", eq_iff request.path (expected_path service_name))
