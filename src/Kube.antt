-- ===== src/Kube.antt =====
-- pkg/kubernetes: the clients, and the queries and waits the operator is built on.
pub mod Client
pub mod Resources
pub mod Rbac
pub mod Wait
pub mod Returning
