-- ===== src/Kube/Certs.antt =====
-- The data of certificates and their policies, and the clients of
-- pkg/kubecluster/primatives/certmanager and approverpolicy as far as the composites call them.
-- A client's function takes the history of calls last.
use backup_tool.Base.{ℕ, ◌≡◌, Bool, Option, List, []}
use backup_tool.Base.Text.{Chars}
use backup_tool.Errors.{Result, ok}
use backup_tool.Kube.Api.{History, Resource, certificate, policy, issuer}

-- cmmeta.IssuerReference
pub record IssuerReference : Type 0 where
  pub name : Chars
  pub kind : Chars
  pub group : Chars

-- certmanagerv1.PrivateKeyAlgorithm; `unset` is the empty string
pub data KeyAlgorithm : Type 0 where
  unset ed25519 : KeyAlgorithm
  other : Chars → KeyAlgorithm

-- certmanagerv1.KeyUsage
pub data KeyUsage : Type 0 where
  server_auth client_auth cert_sign : KeyUsage

pub record PrivateKey : Type 0 where
  pub algorithm : KeyAlgorithm
  pub size : ℕ

-- certmanagerv1.CertificateSpec
pub record CertificateSpec : Type 0 where
  pub issuer_ref : IssuerReference
  pub secret_name : Chars
  pub duration : Option ℕ
  pub private_key : Option PrivateKey
  pub common_name : Chars
  pub dns_names : List Chars
  pub ip_addresses : List Chars
  pub uris : List Chars
  pub email_addresses : List Chars
  pub is_ca : Bool
  pub usages : Option (List KeyUsage)

pub record Certificate : Type 0 where
  pub namespace : Chars
  pub name : Chars
  pub spec : CertificateSpec

-- certmanager.CreateCertificateOptions
pub record CertificateOptions : Type 0 where
  pub common_name : Chars
  pub dns_names : List Chars
  pub is_ca : Bool
  -- whether CAConstraints exclude every name, critically
  pub excludes_names : Bool
  pub usages : List KeyUsage
  -- whether SecretLabels set the label that CNPG watches
  pub watched : Bool

pub record Issuer : Type 0 where
  pub namespace : Chars
  pub name : Chars

pub data IssuerConfig : Type 0 where
  self_signed : IssuerConfig
  -- the name of the CA's secret
  ca : Chars → IssuerConfig

-- CertificateRequestPolicyConstraintsPrivateKey
pub record KeyConstraints : Type 0 where
  pub algorithm : Option KeyAlgorithm
  pub min_size : Option ℕ
  pub max_size : Option ℕ

pub record Constraints : Type 0 where
  pub min_duration : Option ℕ
  pub max_duration : Option ℕ
  pub private_key : Option KeyConstraints

-- CertificateRequestPolicyAllowed; what is given is required as well
pub record Allowed : Type 0 where
  pub common_name : Option Chars
  pub dns_names : Option (List Chars)
  pub ip_addresses : Option (List Chars)
  pub uris : Option (List Chars)
  pub email_addresses : Option (List Chars)
  pub is_ca : Option Bool
  pub usages : Option (List KeyUsage)

-- CertificateRequestPolicySpec
pub record PolicySpec : Type 0 where
  pub match_names : List Chars
  pub issuer_ref : IssuerReference
  pub constraints : Option Constraints
  pub allowed : Option Allowed

-- A CertificateRequestPolicy, which has no namespace.
pub record Policy : Type 0 where
  pub name : Chars
  pub spec : PolicySpec

abbrev pub certificate_id : Certificate → Resource
certificate_id c = record { kind = certificate; namespace = c.namespace; name = c.name }

abbrev pub policy_id : Policy → Resource
policy_id p = record { kind = policy; namespace = []; name = p.name }

abbrev pub issuer_id : Issuer → Resource
issuer_id i = record { kind = issuer; namespace = i.namespace; name = i.name }

module _ (X : Type 0) where
  pub record CertManager : Type 0 where
    pub create_certificate :
        Chars → Chars → IssuerReference → CertificateOptions → History → Result X Certificate
    pub reissue_certificate : Chars → Chars → History → Result X Certificate
    pub wait_for_ready_certificate : Chars → Chars → ℕ → History → Result X Certificate
    pub delete_certificate : Chars → Chars → History → Option X
    pub create_issuer : Chars → Chars → IssuerConfig → History → Result X Issuer
    pub wait_for_ready_issuer : Chars → Chars → ℕ → History → Result X Issuer
    pub delete_issuer : Chars → Chars → History → Option X

  pub record ApproverPolicy : Type 0 where
    pub is_available : History → Result X Bool
    pub create_policy : Chars → PolicySpec → History → Result X Policy
    pub wait_for_ready_policy : Chars → ℕ → History → Result X Policy
    pub delete_policy : Chars → History → Option X

-- The API server answers with the object that was asked for.
pub record KeepsNames {X : Type 0} (cm : CertManager X) : Type 0 where
  pub of_create :
      (ns n : Chars) (i : IssuerReference) (o : CertificateOptions) (h : History) (c : Certificate)
      → cm.create_certificate ns n i o h ≡ ok c
      → (c.namespace ≡ ns) × (c.name ≡ n)
  pub of_reissue :
      (ns n : Chars) (h : History) (c : Certificate)
      → cm.reissue_certificate ns n h ≡ ok c
      → (c.namespace ≡ ns) × (c.name ≡ n)
  pub of_wait :
      (ns n : Chars) (t : ℕ) (h : History) (c : Certificate)
      → cm.wait_for_ready_certificate ns n t h ≡ ok c
      → (c.namespace ≡ ns) × (c.name ≡ n)
  pub of_create_issuer :
      (ns n : Chars) (g : IssuerConfig) (h : History) (i : Issuer)
      → cm.create_issuer ns n g h ≡ ok i
      → (i.namespace ≡ ns) × (i.name ≡ n)
  pub of_wait_issuer :
      (ns n : Chars) (t : ℕ) (h : History) (i : Issuer)
      → cm.wait_for_ready_issuer ns n t h ≡ ok i
      → (i.namespace ≡ ns) × (i.name ≡ n)
