-- ===== src/Kube/Policies.antt =====
-- pkg/kubecluster/composite/createcrpforcertificate/createcrpforcertificate.go: the policy that
-- approves the requests of one certificate.
pub mod Outcome
use backup_tool.Base.{
  ℕ, Bool, true, false, not, ◌||◌, Option, none, some, List, [], ◌∷◌, if◌then◌else◌, ◌==◌, nat_eq,
  list_eq, is_some, is_empty,
}
use backup_tool.Base.Text.{Chars}
use backup_tool.Errors.{Errors}
use backup_tool.Exec.{Exec, wrapping, ◌>>=◌}
use backup_tool.Kube.Api.{History, policy, creating, asking}
use backup_tool.Kube.Certs.{
  Certificate, CertificateSpec, PrivateKey, KeyAlgorithm, unset, ed25519, other, KeyConstraints,
  Constraints, Allowed, PolicySpec, Policy, policy_id, ApproverPolicy,
}

abbrev pub is_ed25519 : KeyAlgorithm → Bool
is_ed25519 ed25519 = true
is_ed25519 _ = false

abbrev pub unless_unset : KeyAlgorithm → Option KeyAlgorithm
unless_unset unset = none
unless_unset ed25519 = some ed25519
unless_unset (other a) = some (other a)

abbrev pub unless_empty : Chars → Option Chars
unless_empty s = if s == [] then none else some s

abbrev pub unless_zero : ℕ → Option ℕ
unless_zero n = if n == 0 then none else some n

abbrev pub unless_nil : List Chars → Option (List Chars)
unless_nil [] = none
unless_nil (x ∷ xs) = some (x ∷ xs)

-- The constraints on the private key, if any is set.
unfoldable pub key_constraints : Option PrivateKey → Option KeyConstraints
key_constraints none = none
key_constraints (some key) =
    let algorithm = unless_unset key.algorithm in
    let size = unless_zero key.size in
    if is_ed25519 key.algorithm
    then none
    else if is_some algorithm || is_some size
    then some (record { algorithm = algorithm; min_size = size; max_size = size })
    else none

unfoldable pub constraints_of : CertificateSpec → Option Constraints
unfolding key_constraints
constraints_of spec =
    let key = key_constraints spec.private_key in
    if is_some spec.duration || is_some key
    then some
        (record { min_duration = spec.duration; max_duration = spec.duration; private_key = key })
    else none

unfoldable pub allowed_of : CertificateSpec → Option Allowed
allowed_of spec =
    let common_name = unless_empty spec.common_name in
    let dns_names = unless_nil spec.dns_names in
    let ip_addresses = unless_nil spec.ip_addresses in
    let uris = unless_nil spec.uris in
    let email_addresses = unless_nil spec.email_addresses in
    let is_ca : Option Bool = if spec.is_ca then some true else none in
    if is_some common_name
      || is_some dns_names
      || is_some ip_addresses
      || is_some uris
      || is_some email_addresses
      || is_some is_ca
      || is_some spec.usages
    then some (record {
      common_name = common_name;
      dns_names = dns_names;
      ip_addresses = ip_addresses;
      uris = uris;
      email_addresses = email_addresses;
      is_ca = is_ca;
      usages = spec.usages;
    })
    else none

unfoldable pub policy_spec : Certificate → PolicySpec
unfolding constraints_of allowed_of
policy_spec cert = record {
  match_names = cert.namespace ∷ [];
  issuer_ref = cert.spec.issuer_ref;
  constraints = constraints_of cert.spec;
  allowed = allowed_of cert.spec;
}

module _ (E : Errors) (ap : ApproverPolicy E.Error) where
  -- CreateCRPForCertificate
  unfoldable pub create_crp_for_certificate : Certificate → ℕ → Exec E.Error History Policy
  unfolding policy_spec
  create_crp_for_certificate cert timeout = do
    crp ←
        wrapping E "failed to create certificate request policy for certificate"
          (creating policy cert.name policy_id (ap.create_policy cert.name (policy_spec cert)))
    wrapping E "failed waiting for certificate request policy to become ready"
        (asking policy crp.name (ap.wait_for_ready_policy crp.name timeout))
