-- ===== src/Proxy.antt =====
-- internal/proxy/proxy.go: the data plane. Path reads and rewrites request paths, Routes picks the
-- upstream, ClientIp finds the client's address, PullAuth checks its credentials, Headers and
-- Exchange talk to the upstream, Redirects and Clients belong to the HTTP clients, and Serve is the
-- handler of a request with the state of the proxy.
pub mod ClientIp
pub mod Clients
pub mod Exchange
pub mod Headers
pub mod Path
pub mod PullAuth
pub mod Redirects
pub mod Request
pub mod Routes
pub mod Serve
