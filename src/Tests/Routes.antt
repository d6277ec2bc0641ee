-- ===== src/Tests/Routes.antt =====
-- Runs of the router. An address begins with a digit, a network ends in a slash and holds the
-- addresses that begin with it, and a regular expression matches itself.
use rog.Prelude.{
  ◌≢◌, false, bytes_eq_iff, refl, arith, ℕ, ◌≡◌, ◌↔◌, ◌⊎◌, Bool, true, ◌==◌, leb, ◌&&◌,
  if◌then◌else◌, bytes_eq, Option, none, some, List, [], ◌∷◌, ok, length, take,
}
use rog.Prelude.Word.{Bytes, codes}
use rog.Router.Crates.{Net}
use rog.Router.Matcher.{cidr_matcher_factory, match_host}
use rog.Router.Exclude.{new}
use rog.Router.Direct.{any, cidr_line_takes, match_host-cidr_matcher_factory}
use rog.Router.Resolver.{
  Servers, answered, failed, Action, asking, hit, replied, cache_key, look, insert, cleanup_cache,
  ask, step, run,
}
use rog.Router.Resolver as Resolver
use rog.Router.Resolver.Reused.{reply_reused}
use rog.Router.{RouteRule, DefaultBaseRouter, hosts_of, route, dns_or_empty}
use rog.Router.Route.{In, Routed, route_first}
use rog.Router.Hosts.{Resolved, hosts_of_iff}

abbrev digit_first : Bytes → Option Bytes
digit_first [] = none
digit_first (b ∷ bs) = if leb b b'9' && leb b'0' b then some (b ∷ bs) else none

abbrev before_slash : Bytes → Option Bytes
before_slash [] = none
before_slash (b ∷ bs) = if b == b'/' then some [] else prepend b (before_slash bs)
  where
    prepend : ℕ → Option Bytes → Option Bytes
    prepend b none = none
    prepend b (some bs) = some (b ∷ bs)

abbrev begins : Bytes → Bytes → Bool
begins n ip = bytes_eq (take (length n) ip) n

abbrev non_empty : Bytes → Option Bytes
non_empty [] = none
non_empty (b ∷ bs) = some (b ∷ bs)

abbrev trim_start : Bytes → Bytes
trim_start [] = []
trim_start (b ∷ bs) = if b == b' ' then trim_start bs else b ∷ bs

abbrev net : Net
net = record {
  Ip = Bytes;
  parse_ip = digit_first;
  ip_to_string = λ ip. ip;
  ip_eq = bytes_eq;
  IpNetwork = Bytes;
  parse_network = before_slash;
  network_contains = begins;
  IpNet = Bytes;
  parse_ipnet = before_slash;
  ipnet_contains = begins;
  Regex = Bytes;
  regex_new = non_empty;
  regex_match = bytes_eq;
  trim = trim_start;
}

abbrev lines : List Bytes
lines = codes " 10./8" ∷ codes "  " ∷ codes "a.example" ∷ []

match_host-cidr_matcher_factory_example :
    match_host net (cidr_matcher_factory net lines) (codes "10.1.1.1")
    ≡ any (λ line. cidr_line_takes net (codes "10.1.1.1") (trim_start line)) lines
match_host-cidr_matcher_factory_example =
    match_host-cidr_matcher_factory net lines (codes "10.1.1.1")

abbrev rule : RouteRule net
rule = record {
  name = codes "lan";
  select = codes "direct";
  domain_to_ip = true;
  dns = none;
  exclude = new net (codes "10.9./16" ∷ []);
}

abbrev router : DefaultBaseRouter net
router = record {
  default_tag = codes "proxy";
  rules = rule ∷ [];
  data_map = λ name. some (match_host net (cidr_matcher_factory net lines));
  resolve = λ host dns. ok (codes "10.1.1.1" ∷ []);
}

route_first_example :
    Routed net router (codes "b.example") router.rules (route net router (codes "b.example"))
route_first_example = route_first net router (codes "b.example")

hosts_of_iff_example : In (codes "10.1.1.1") (hosts_of net router rule (codes "b.example")) ↔ (
    (codes "10.1.1.1" ≡ codes "b.example")
    ⊎ ((rule.domain_to_ip ≡ true)
        × ((ips : List Bytes) × (router.resolve (codes "b.example") (dns_or_empty net rule.dns)
              ≡ ok ips)
            × (Resolved net router (codes "b.example") (codes "10.1.1.1") ips))))
hosts_of_iff_example = hosts_of_iff net router (codes "b.example") rule (codes "10.1.1.1")

abbrev servers : Servers ℕ
servers = record {
  default_dns = λ host. answered (1 ∷ []);
  doh = λ host dns. failed (codes "down");
  specific_dns = λ host dns. answered (2 ∷ []);
}

abbrev others : Servers ℕ
others = record {
  default_dns = λ host. answered (7 ∷ []);
  doh = λ host dns. answered (8 ∷ []);
  specific_dns = λ host dns. failed [];
}

-- A first call finds nothing, and waits; a second one for the same name and one for another name wait
-- as well, and the cache is cleaned.
abbrev waiting : List (Action ℕ)
waiting =
    Action.begins 0 (codes "h") [] 70
    ∷ Action.begins 1 (codes "g") [] 71
    ∷ Action.begins 3 (codes "h") [] 72
    ∷ []

abbrev meanwhile : List (Action ℕ)
meanwhile = Action.stores 1 others 75 ∷ Action.cleans 60000 ∷ []

keys_differ : cache_key ℕ (codes "g") [] ≢ cache_key ℕ (codes "h") []
unfolding bytes_eq
keys_differ e = absurd (let f : false ≡ true = (bytes_eq_iff _ _).1 e in cc)

-- The second call for the name is left waiting.
reply_reused_example :
    let s = step ℕ (Action.stores 0 servers 80) (run ℕ (Resolver.new ℕ) waiting) in
    (s.calls 0
      ≡ some (record {
        addr = codes "h";
        dns_config = [];
        phase = replied (ask ℕ servers (codes "h") []) 80;
      }))
    × ((step ℕ (Action.begins 2 (codes "h") [] 9000) (run ℕ s meanwhile)).calls 2
        ≡ some (record {
          addr = codes "h";
          dns_config = [];
          phase = hit (ask ℕ servers (codes "h") []) 9000;
        }))
unfolding run step Resolver.new look insert cleanup_cache ask bytes_eq
reply_reused_example =
    reply_reused ℕ (run ℕ (Resolver.new ℕ) waiting) 0
      (record { addr = codes "h"; dns_config = []; phase = asking }) servers 80 meanwhile 2
      (codes "h") [] 9000 refl refl (λ _ e. keys_differ e, (omega arith, tt)) refl refl
      (omega arith)
