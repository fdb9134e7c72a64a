-- ===== src/Proxy.antt =====
-- pkg/proxy: the proxy's names, secrets, configuration and resources.
pub mod Names
pub mod CookieKey
pub mod Upstream
pub mod Config
pub mod Resources
pub mod Deploy
pub mod Update
pub mod Expose
pub mod Returning
