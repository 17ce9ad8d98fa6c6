-- ===== src/Proxy/ClientIp/Tests.antt =====
-- Client addresses at concrete headers.
use easy_docker_proxy.Base.{◌≡◌, refl, codes, [], ◌∷◌, List, Str, trim_space}
use easy_docker_proxy.Net.{IpNet, net4, contains}
use easy_docker_proxy.Net.Parse.{parse_ip}
use easy_docker_proxy.Proxy.Request.{Request, remote_ip, split_host_port, ip_in_nets}
use easy_docker_proxy.Proxy.ClientIp.{is_ip, client_ip, client_ip_from_xff, walk_back, left_most}
use easy_docker_proxy.Proxy.ClientIp.Spoof.{client_ip_spoofed}

-- 10.0.0.0/8
abbrev trusted : List IpNet
trusted = net4 0x0a000000 8 ∷ []

abbrev request : Str → Request
request xff = record {
  method = codes "GET";
  path = codes "/v2/";
  raw_query = [];
  host = codes "reg.example.com";
  remote_addr = codes "10.0.0.1:4242";
  header = (codes "X-Forwarded-For", xff) ∷ [];
}

addresses :
    (client_ip trusted (request (codes "1.1.1.1, 203.0.113.9, 10.0.0.2")) ≡ codes "203.0.113.9")
    × (client_ip trusted (request (codes "10.0.0.3,bogus,10.0.0.2")) ≡ codes "10.0.0.3")
    × (client_ip trusted (request (codes "bogus")) ≡ codes "10.0.0.1")
    × (client_ip [] (request (codes "203.0.113.9")) ≡ codes "10.0.0.1")
unfolding client_ip client_ip_from_xff walk_back left_most is_ip parse_ip trim_space ip_in_nets
    remote_ip split_host_port contains
addresses = (refl, refl, refl, refl)

client_ip_spoofed_example :
    client_ip trusted (request (codes "1.1.1.1, 203.0.113.9, 10.0.0.2")) ≡ codes "203.0.113.9"
unfolding is_ip parse_ip remote_ip split_host_port ip_in_nets contains trim_space
client_ip_spoofed_example =
    client_ip_spoofed trusted (request (codes "1.1.1.1, 203.0.113.9, 10.0.0.2")) (codes "1.1.1.1")
      (codes " 203.0.113.9, 10.0.0.2") (codes "203.0.113.9") refl refl refl
