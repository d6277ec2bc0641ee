-- ===== src/Router/Crates.antt =====
-- The crates `ipnetwork`, `ipnet` and `regex`, the IP addresses of `std::net` and `str::trim`, as the
-- matchers use them.
use rog.Prelude.{Bool, Option}
use rog.Prelude.Word.{Bytes}

pub record Net : Type 1 where
  pub Ip : Type 0
  pub parse_ip : Bytes → Option Ip
  pub ip_to_string : Ip → Bytes
  pub ip_eq : Ip → Ip → Bool
  pub IpNetwork : Type 0
  pub parse_network : Bytes → Option IpNetwork
  pub network_contains : IpNetwork → Ip → Bool
  pub IpNet : Type 0
  pub parse_ipnet : Bytes → Option IpNet
  pub ipnet_contains : IpNet → Ip → Bool
  pub Regex : Type 0
  pub regex_new : Bytes → Option Regex
  pub regex_match : Regex → Bytes → Bool
  pub trim : Bytes → Bytes
