-- ===== src/Ssrf.antt =====
-- common/ssrf.go: which addresses a tool may connect to. An address is its 4 or 16 bytes, and `nil` the
-- empty list. `net.ParseIP` and the resolver are parameters.
pub mod Policy
pub mod Examples
use agent_tool.Base.{
  ℕ, suc, ◌+◌, ◌/◌, ◌%◌, Bool, true, false, not, ◌&&◌, ◌||◌, List, [], ◌∷◌, ◌++◌, Option, none,
  some, ltb, leb, ◌==◌, if◌then◌else◌, Bytes, bytes_eq, length, replicate,
}

abbrev pub Ip : Type 0
Ip = Bytes

-- What an IPv4 address starts with in its form of 16 bytes, and the loopback and unspecified addresses.
abbrev pub mapped_prefix : Bytes
mapped_prefix = replicate 10 0 ++ (0xff ∷ (0xff ∷ []))

abbrev pub ipv6_loopback : Ip
ipv6_loopback = replicate 15 0 ++ (1 ∷ [])

-- `ip.To4()`: the four bytes of an IPv4 address in either form.
abbrev pub strip_prefix : Bytes → Bytes → Option Bytes
strip_prefix s [] = some s
strip_prefix [] (p ∷ ps) = none
strip_prefix (c ∷ s) (p ∷ ps) = if c == p then strip_prefix s ps else none

abbrev pub four_bytes : Bytes → Bool
four_bytes s = length s == 4

unfoldable pub to4 : Ip → Option Ip
to4 ip =
    if four_bytes ip
    then some ip
    else if length ip == 16
    then strip_prefix ip mapped_prefix
    else none

-- `if v4 := ip.To4(); v4 != nil { ip = v4 }`.
abbrev pub or_itself : Ip → Option Ip → Ip
or_itself ip none = ip
or_itself ip (some v4) = v4

unfoldable pub shortest : Ip → Ip
shortest ip = or_itself ip (to4 ip)

-- `r.Contains(ip)` for 169.254.0.0/16 and fe80::/10.
unfoldable pub in_link_local : Ip → Bool
in_link_local (a ∷ b ∷ s) =
    length s == 2 && (a == 169 && b == 254) || length s == 14 && (a == 0xfe && b / 64 == 2)
in_link_local s = false

-- 100.100.100.200 and fd00:ec2::254.
abbrev pub alibaba_metadata : Ip
alibaba_metadata = 100 ∷ (100 ∷ (100 ∷ (200 ∷ [])))

abbrev pub aws_metadata : Ip
aws_metadata = 0xfd ∷ (0 ∷ (0x0e ∷ (0xc2 ∷ (replicate 10 0 ++ (2 ∷ (0x54 ∷ []))))))

unfoldable pub is_cloud_metadata_ip : Ip → Bool
is_cloud_metadata_ip [] = true
is_cloud_metadata_ip (c ∷ s) =
    let ip = shortest (c ∷ s) in
    in_link_local ip || (bytes_eq ip alibaba_metadata || bytes_eq ip aws_metadata)

-- The tests of package net, on an address in its shortest form.
unfoldable pub is_loopback : Ip → Bool
is_loopback [] = false
is_loopback (a ∷ s) = length s == 3 && a == 127 || bytes_eq (a ∷ s) ipv6_loopback

unfoldable pub is_link_local_multicast : Ip → Bool
is_link_local_multicast (a ∷ b ∷ c ∷ s) =
    length s == 1 && (a == 224 && (b == 0 && c == 0))
    || length s == 13 && (a == 0xff && b % 16 == 2)
is_link_local_multicast s = false

unfoldable pub is_unspecified : Ip → Bool
is_unspecified ip = bytes_eq ip (replicate 4 0) || bytes_eq ip (replicate 16 0)

unfoldable pub is_private : Ip → Bool
is_private (a ∷ b ∷ s) =
    length s == 2 && (a == 10 || (a == 172 && b / 16 == 1 || a == 192 && b == 168))
    || length s == 14 && a / 2 == 0x7e
is_private s = false

unfoldable pub is_private_ip : Ip → Bool
is_private_ip [] = true
is_private_ip (c ∷ s) =
    let ip = shortest (c ∷ s) in
    is_loopback ip
    || (in_link_local ip || (is_link_local_multicast ip || (is_unspecified ip || is_private ip)))

-- The results of `ValidateResolvedIPWithPolicy`.
pub data Verdict : Type 0 where
  accepted no_addresses : Verdict
  blocked_metadata blocked_private : Ip → Verdict

unfoldable pub validate_each : List Ip → Bool → Verdict
validate_each [] allow_private = accepted
validate_each (ip ∷ ips) allow_private =
    let rest = validate_each ips allow_private in
    if is_cloud_metadata_ip ip
    then blocked_metadata ip
    else if not allow_private && is_private_ip ip
    then blocked_private ip
    else rest

unfoldable pub validate_resolved_ip_with_policy : List Ip → Bool → Verdict
validate_resolved_ip_with_policy [] allow_private = no_addresses
validate_resolved_ip_with_policy (ip ∷ ips) allow_private = validate_each (ip ∷ ips) allow_private

-- The results of `CheckHostSSRF`: an address and whether there is a warning, or the error.
pub data HostCheck : Type 0 where
  passed : Ip → Bool → HostCheck
  resolution_failed nothing_resolved invalid_resolved_ip : HostCheck
  host_metadata host_private : Ip → HostCheck

unfoldable pub check_ip : Ip → Bool → HostCheck
check_ip ip allow_private =
    if is_cloud_metadata_ip ip
    then host_metadata ip
    else if is_private_ip ip
    then if allow_private then passed ip true else host_private ip
    else passed ip false

module _ (parse_ip : Bytes → Option Ip) (lookup_host : Bytes → Option (List Bytes)) where
  abbrev pub check_parsed : Option Ip → Bool → HostCheck
  check_parsed none allow_private = invalid_resolved_ip
  check_parsed (some ip) allow_private = check_ip ip allow_private

  abbrev pub check_resolved : Option (List Bytes) → Bool → HostCheck
  check_resolved none allow_private = resolution_failed
  check_resolved (some []) allow_private = nothing_resolved
  check_resolved (some (a ∷ as')) allow_private = check_parsed (parse_ip a) allow_private

  abbrev pub check_host : Option Ip → Bytes → Bool → HostCheck
  check_host (some ip) host allow_private = check_ip ip allow_private
  check_host none host allow_private = check_resolved (lookup_host host) allow_private

  unfoldable pub check_host_ssrf : Bytes → Bool → HostCheck
  check_host_ssrf host allow_private = check_host (parse_ip host) host allow_private
