-- ===== src/Ssrf/Examples.antt =====
-- common/ssrf.go: addresses, and the theorems at concrete inputs.
use agent_tool.Base.{
  ◌≡◌, ◌≢◌, ◌↔◌, refl, true, List, [], ◌∷◌, Option, none, some, if◌then◌else◌, Bytes, codes,
  bytes_eq, All,
}
use agent_tool.Ssrf.{
  Ip, to4, shortest, in_link_local, is_cloud_metadata_ip, is_private_ip, is_loopback, accepted,
  validate_resolved_ip_with_policy, validate_each, blocked_metadata, check_host_ssrf, check_ip,
}
use agent_tool.Ssrf.Policy.{
  IsAllowed, validate_resolved_ip_with_policy_iff, check_host_ssrf-IsAllowed,
}

abbrev metadata : Ip
metadata = 169 ∷ (254 ∷ (169 ∷ (254 ∷ [])))

abbrev local_host : Ip
local_host = 127 ∷ (0 ∷ (0 ∷ (1 ∷ [])))

-- A resolver that knows one name.
abbrev parse_none : Bytes → Option Ip
parse_none s = if bytes_eq s (codes "127.0.0.1") then some local_host else none

abbrev lookup_local : Bytes → Option (List Bytes)
lookup_local host = some (codes "127.0.0.1" ∷ [])

blocks_metadata :
    validate_resolved_ip_with_policy (local_host ∷ (metadata ∷ [])) true ≡ blocked_metadata metadata
unfolding validate_resolved_ip_with_policy validate_each is_cloud_metadata_ip is_private_ip shortest
    to4 in_link_local bytes_eq
blocks_metadata = refl

validate_resolved_ip_with_policy_iff_example :
    (validate_resolved_ip_with_policy (local_host ∷ (metadata ∷ [])) true ≡ accepted)
    ↔ (((local_host ∷ (metadata ∷ [])) ≢ []) × All (IsAllowed true) (local_host ∷ (metadata ∷ [])))
validate_resolved_ip_with_policy_iff_example =
    validate_resolved_ip_with_policy_iff (local_host ∷ (metadata ∷ [])) true

check_host_ssrf-IsAllowed_example : IsAllowed true local_host × (true ≡ is_private_ip local_host)
unfolding check_host_ssrf check_ip is_cloud_metadata_ip is_private_ip is_loopback shortest to4
    in_link_local bytes_eq
check_host_ssrf-IsAllowed_example =
    check_host_ssrf-IsAllowed parse_none lookup_local (codes "localhost") true local_host true refl
