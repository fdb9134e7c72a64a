-- ===== src/Client.antt =====
-- pkg/client: the listers and the shared informers of SSO resources.
pub mod Library
pub mod Lister
pub mod Factory
pub mod SsoInformer
pub mod Rest
pub mod Typed
pub mod Clientset
pub mod Fake
pub mod FakeClientset
