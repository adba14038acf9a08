-- ===== src/Ssrf/Policy.antt =====
-- common/ssrf.go: what the policy lets through.
use agent_tool.Base.{
  ℕ, ◌≡◌, ◌≢◌, ◌↔◌, refl, Bool, true, false, not, ◌&&◌, List, [], ◌∷◌, ◌++◌, Option, some, inl, inr,
  arith, Bool-cases, Option-cases, Bytes, All,
}
use agent_tool.Ssrf.{
  Ip, mapped_prefix, to4, shortest, is_cloud_metadata_ip, is_private_ip, accepted, validate_each,
  validate_resolved_ip_with_policy, passed, check_ip, check_host_ssrf, check_resolved,
}

-- An address that the policy lets through.
abbrev pub IsAllowed : Bool → Ip → Type 0
IsAllowed allow_private ip =
    (is_cloud_metadata_ip ip ≡ false) × ((not allow_private && is_private_ip ip) ≡ false)

validate_each-IsAllowed :
    (ips : List Ip) (allow : Bool) → validate_each ips allow ≡ accepted → All (IsAllowed allow) ips
unfolding validate_each
validate_each-IsAllowed [] allow h = tt
validate_each-IsAllowed (ip ∷ ips) allow h = elim (Bool-cases (is_cloud_metadata_ip ip)) [
  | inl e ↦ let bad = rw e at h in ground arith
  | inr e ↦ elim (Bool-cases (not allow && is_private_ip ip)) [
    | inl e' ↦ let bad = rw (e, e') at h in ground arith
    | inr e' ↦ ((e, e'), validate_each-IsAllowed ips allow (rw (e, e') at h))
  ]
]

IsAllowed-validate_each :
    (ips : List Ip) (allow : Bool) → All (IsAllowed allow) ips → validate_each ips allow ≡ accepted
unfolding validate_each
IsAllowed-validate_each [] allow h = refl
IsAllowed-validate_each (ip ∷ ips) allow ((e, e'), hs) =
    rw (e, e') (IsAllowed-validate_each ips allow hs)

-- Resolved addresses are accepted exactly if there is at least one and none of them is a metadata
-- address, whatever the policy, or a private one, where the policy does not allow these.
pub validate_resolved_ip_with_policy_iff :
    (ips : List Ip) (allow : Bool)
    → (validate_resolved_ip_with_policy ips allow ≡ accepted)
      ↔ ((ips ≢ []) × All (IsAllowed allow) ips)
unfolding validate_resolved_ip_with_policy
validate_resolved_ip_with_policy_iff [] allow = (λ h. ground arith, λ h. absurd (h.0 refl))
validate_resolved_ip_with_policy_iff (ip ∷ ips) allow = (
  λ h. (λ e. ground arith, validate_each-IsAllowed (ip ∷ ips) allow h),
  λ h. IsAllowed-validate_each (ip ∷ ips) allow h.1,
)

check_ip-IsAllowed :
    (ip : Ip) (allow : Bool) (to : Ip) (warned : Bool)
    → check_ip ip allow ≡ passed to warned
    → IsAllowed allow to × (warned ≡ is_private_ip to)
unfolding check_ip
check_ip-IsAllowed ip allow to warned h = elim (Bool-cases (is_cloud_metadata_ip ip)) [
  | inl e ↦ let bad = rw e at h in ground arith
  | inr e ↦ elim (Bool-cases (is_private_ip ip)) [
    | inr e' ↦
        let same = rw (e, e') at h in
        let is : ip ≡ to = ground arith in
        let w : false ≡ warned = ground arith in rw (← is, ← w, e, e') ((refl, ground arith), refl)
    | inl e' ↦ elim (Bool-cases allow) [
      | inr a ↦ let bad = rw (e, e', a) at h in ground arith
      | inl a ↦
          let same = rw (e, e', a) at h in
          let is : ip ≡ to = ground arith in
          let w : true ≡ warned = ground arith in rw (← is, ← w, e, e', a) ((refl, refl), refl)
    ]
  ]
]

-- A host passes only with an address that the policy lets through, whatever the parser and the resolver
-- answer, and there is a warning exactly if the address is private.
pub check_host_ssrf-IsAllowed :
    (parse_ip : Bytes → Option Ip) (lookup_host : Bytes → Option (List Bytes)) (host : Bytes)
    (allow : Bool) (to : Ip) (warned : Bool)
    → check_host_ssrf parse_ip lookup_host host allow ≡ passed to warned
    → IsAllowed allow to × (warned ≡ is_private_ip to)
unfolding check_host_ssrf
check_host_ssrf-IsAllowed parse_ip lookup_host host allow to warned h =
    elim (Option-cases (parse_ip host)) [
      | inr (ip, e) ↦ check_ip-IsAllowed ip allow to warned (rw e at h)
      | inl e ↦ elim (Option-cases (lookup_host host)) [
        | inl f ↦ let bad = rw (e, f) at h in ground arith
        | inr (addresses, f) ↦ resolved addresses (rw (e, f) at h)
      ]
    ]
  where
    resolved :
        (addresses : List Bytes)
        → check_resolved parse_ip lookup_host (some addresses) allow ≡ passed to warned
        → IsAllowed allow to × (warned ≡ is_private_ip to)
    resolved [] h' = ground arith
    resolved (a ∷ as') h' = elim (Option-cases (parse_ip a)) [
      | inl g ↦ let bad = rw g at h' in ground arith
      | inr (ip, g) ↦ check_ip-IsAllowed ip allow to warned (rw g at h')
    ]

-- An IPv4 address written as an IPv6 address is taken for the same: neither a metadata address nor a
-- private one is let through in the longer form.
pub mapped_prefix_same :
    (a b c d : ℕ)
    → (is_cloud_metadata_ip (mapped_prefix ++ (a ∷ (b ∷ (c ∷ (d ∷ [])))))
        ≡ is_cloud_metadata_ip (a ∷ (b ∷ (c ∷ (d ∷ [])))))
      × (is_private_ip (mapped_prefix ++ (a ∷ (b ∷ (c ∷ (d ∷ [])))))
          ≡ is_private_ip (a ∷ (b ∷ (c ∷ (d ∷ [])))))
unfolding is_cloud_metadata_ip is_private_ip shortest to4
mapped_prefix_same a b c d = (refl, refl)
