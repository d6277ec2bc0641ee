-- ===== src/Router/Matcher.antt =====
-- src/router/matcher/cidr.rs and regex.rs: the matchers of route data. Each line is a network, or a
-- regular expression, or a host.
use rog.Prelude.{Bool, true, false, if◌then◌else◌, bytes_eq, Option, none, some, List, [], ◌∷◌}
use rog.Prelude.Word.{Bytes}
use rog.Router.Crates.{Net}

-- `host.as_ref().map(|h| h == line).unwrap_or(false)`.
abbrev pub is_host : Option Bytes → Bytes → Bool
is_host none line = false
is_host (some h) line = bytes_eq h line

module _ (net : Net) where
  pub record CidrLine : Type 0 where
    pub cidr : Option net.IpNetwork
    pub host : Option Bytes

  abbrev pub cidr_line : Bytes → Option net.IpNetwork → CidrLine
  cidr_line line none = record { cidr = none; host = some line }
  cidr_line line (some c) = record { cidr = some c; host = none }

  -- Each line is trimmed, and left out if nothing remains.
  abbrev pub add_cidr : Bytes → List CidrLine → List CidrLine
  add_cidr [] rest = rest
  add_cidr (b ∷ bs) rest = cidr_line (b ∷ bs) (net.parse_network (b ∷ bs)) ∷ rest

  unfoldable pub cidr_matcher_factory : List Bytes → List CidrLine
  cidr_matcher_factory [] = []
  cidr_matcher_factory (l ∷ ls) = add_cidr (net.trim l) (cidr_matcher_factory ls)

  abbrev pub match_cidr : Option net.IpNetwork → Option net.Ip → Option Bytes → Bytes → Bool
  match_cidr (some c) (some ip) host line = net.network_contains c ip
  match_cidr (some c) none host line = is_host host line
  match_cidr none ip host line = is_host host line

  unfoldable pub match_line : CidrLine → Bytes → Bool
  match_line l line = match_cidr l.cidr (net.parse_ip line) l.host line

  unfoldable pub match_host : List CidrLine → Bytes → Bool
  match_host [] host = false
  match_host (item ∷ items) host = if match_line item host then true else match_host items host

  pub record RegexLine : Type 0 where
    pub regex : Option net.Regex
    pub cidr : Option net.IpNetwork
    pub host : Option Bytes

  abbrev pub classified : Bytes → Option net.IpNetwork → Option net.Regex → RegexLine
  classified line (some c) _ = record { regex = none; cidr = some c; host = none }
  classified line none (some re) = record { regex = some re; cidr = none; host = none }
  classified line none none = record { regex = none; cidr = none; host = some line }

  unfoldable pub parse_regex_line : Bytes → RegexLine
  parse_regex_line line = classified line (net.parse_network line) (net.regex_new line)

  abbrev pub add_regex : Bytes → List RegexLine → List RegexLine
  add_regex [] rest = rest
  add_regex (b ∷ bs) rest = parse_regex_line (b ∷ bs) ∷ rest

  unfoldable pub regex_matcher_factory : List Bytes → List RegexLine
  regex_matcher_factory [] = []
  regex_matcher_factory (l ∷ ls) = add_regex (net.trim l) (regex_matcher_factory ls)

  abbrev pub match_ip : Option net.IpNetwork → net.Ip → Option Bytes → Bytes → Bool
  match_ip (some c) ip h host = net.network_contains c ip
  match_ip none ip h host = is_host h host

  abbrev pub match_name : Option net.Regex → Option Bytes → Bytes → Bool
  match_name (some re) h host = net.regex_match re host
  match_name none h host = is_host h host

  abbrev pub match_regex : RegexLine → Option net.Ip → Bytes → Bool
  match_regex l (some ip) host = match_ip l.cidr ip l.host host
  match_regex l none host = match_name l.regex l.host host

  unfoldable pub match_regex_line : RegexLine → Bytes → Bool
  match_regex_line l host = match_regex l (net.parse_ip host) host

  unfoldable pub match_regex_host : List RegexLine → Bytes → Bool
  match_regex_host [] host = false
  match_regex_host (item ∷ items) host =
      if match_regex_line item host then true else match_regex_host items host
