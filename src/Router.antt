-- ===== src/Router.antt =====
-- src/router.rs and src/router/default_router.rs: which connector a destination goes to. The log
-- lines are left out.
pub mod Crates
pub mod Matcher
pub mod Exclude
pub mod Route
pub mod Hosts
pub mod Resolver
pub mod Direct
use rog.Prelude.{
  Bool, true, false, if◌then◌else◌, not, bytes_eq, Option, none, some, List, [], ◌∷◌, ◌++◌, Result,
  ok, err, panics,
}
use rog.Prelude.Word.{Bytes, codes}
use rog.Router.Crates.{Net}
use rog.Router.Exclude.{ExcludeMatcher, is_match}

module _ (net : Net) where
  -- `CompiledRouteRule`.
  pub record RouteRule : Type 0 where
    pub name : Bytes
    pub select : Bytes
    pub domain_to_ip : Bool
    pub dns : Option Bytes
    pub exclude : ExcludeMatcher net

  -- `resolve` stands for what the resolver answers during one call; the data map for the matchers
  -- that were loaded.
  pub record DefaultBaseRouter : Type 0 where
    pub default_tag : Bytes
    pub rules : List RouteRule
    pub data_map : Bytes → Option (Bytes → Bool)
    pub resolve : Bytes → Bytes → Result (List net.Ip)

  abbrev pub contains : List Bytes → Bytes → Bool
  contains [] h = false
  contains (x ∷ xs) h = if bytes_eq x h then true else contains xs h

  unfoldable pub push_new : List Bytes → List net.Ip → List Bytes
  push_new hosts [] = hosts
  push_new hosts (ip ∷ ips) =
      let ip_str = net.ip_to_string ip in
      push_new (if contains hosts ip_str then hosts else hosts ++ ip_str ∷ []) ips

  -- A failed resolution is only logged.
  abbrev pub with_ips : List Bytes → Result (List net.Ip) → List Bytes
  with_ips hosts (ok ips) = push_new hosts ips
  with_ips hosts _ = hosts

  abbrev pub dns_or_empty : Option Bytes → Bytes
  dns_or_empty none = []
  dns_or_empty (some dns) = dns

  unfoldable pub hosts_of : DefaultBaseRouter → RouteRule → Bytes → List Bytes
  hosts_of r rule addr =
      let hosts = addr ∷ [] in
      if rule.domain_to_ip then with_ips hosts (r.resolve addr (dns_or_empty rule.dns)) else hosts

  unfoldable pub try_host : Option (Bytes → Bool) → RouteRule → Bytes → Bool
  try_host none rule host = false
  try_host (some data') rule host = if is_match net rule.exclude host then false else data' host

  unfoldable pub try_hosts : DefaultBaseRouter → RouteRule → List Bytes → Bool
  try_hosts r rule [] = false
  try_hosts r rule (host ∷ hosts) =
      if try_host (r.data_map rule.name) rule host then true else try_hosts r rule hosts

  unfoldable pub try_rules : DefaultBaseRouter → List RouteRule → Bytes → Bytes × Bytes
  try_rules r [] addr = (codes "default", r.default_tag)
  try_rules r (rule ∷ rules) addr =
      if try_hosts r rule (hosts_of r rule addr)
      then (rule.name, rule.select)
      else try_rules r rules addr

  unfoldable pub route : DefaultBaseRouter → Bytes → Bytes × Bytes
  route r addr = try_rules r r.rules addr

  -- `DefaultRouter::route`, on the routers by name.
  unfoldable pub route_set : (Bytes → Option DefaultBaseRouter) → Bytes → Bytes → Bytes
  route_set router_map r_name addr = pick (router_map r_name) addr
    where
      pick : Option DefaultBaseRouter → Bytes → Bytes
      pick none addr = codes "default"
      pick (some r) addr = (route r addr).1
