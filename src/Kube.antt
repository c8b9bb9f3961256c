-- ===== src/Kube.antt =====
-- pkg/kubecluster: the composite operations on Kubernetes resources, over the clients of its
-- primitives.
pub mod Api
pub mod Building
pub mod Certs
pub mod Policies
pub mod UserCert
pub mod Leaks
pub mod Databases
pub mod Recovery
pub mod Clone
pub mod Volumes
pub mod VolumeGroups
