-- ===== src/Proxy/Headers/Tests.antt =====
-- A client that sends credentials and hop-by-hop fields of its own.
use easy_docker_proxy.Base.{[], ◌∷◌, codes}
use easy_docker_proxy.Config.{RegistryConfig, basic}
use easy_docker_proxy.Config.Validate.Tests.{registry}
use easy_docker_proxy.Proxy.Request.{Header}

abbrev client : Header
client =
    (codes "authorization", codes "Basic c2VjcmV0")
    ∷ (codes "Accept", codes "*/*")
    ∷ (codes "Connection", codes "close, X-Debug")
    ∷ (codes "X-Debug", codes "1")
    ∷ (codes "Te", codes "trailers")
    ∷ []

abbrev hub : RegistryConfig
hub = record (registry (codes "hub") (codes "https://registry-1.docker.io") []) {
  auth = record { type = basic; username = codes "bot"; password = codes "pw" };
}
