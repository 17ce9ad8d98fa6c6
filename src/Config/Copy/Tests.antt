-- ===== src/Config/Copy/Tests.antt =====
-- A copy of a configuration with two registries.
use easy_docker_proxy.Base.{[], codes}
use easy_docker_proxy.Config.{RegistryConfig}
use easy_docker_proxy.Config.Validate.Tests.{registry}

abbrev hub : RegistryConfig
hub = registry (codes "hub") (codes "https://registry-1.docker.io") []

abbrev ghcr : RegistryConfig
ghcr = registry (codes "ghcr") (codes "https://ghcr.io") []
