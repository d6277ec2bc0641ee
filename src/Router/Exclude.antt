-- ===== src/Router/Exclude.antt =====
-- src/router/matcher/util.rs: what a rule excludes.
use rog.Prelude.{Bool, true, false, if◌then◌else◌, ◌==◌, ◌||◌, Option, none, some, List, [], ◌∷◌}
use rog.Prelude.Word.{Bytes}
use rog.Router.Crates.{Net}

unfoldable pub has_slash : Bytes → Bool
has_slash [] = false
has_slash (b ∷ bs) = b == b'/' || has_slash bs

module _ (net : Net) where
  pub data ExcludeRule : Type 0 where
    ip : net.Ip → ExcludeRule
    cidr : net.IpNet → ExcludeRule
    regex : net.Regex → ExcludeRule

  pub record ExcludeMatcher : Type 0 where
    pub rules : List ExcludeRule

  abbrev pub from_cidr : Option net.IpNet → List ExcludeRule → List ExcludeRule
  from_cidr none rest = rest
  from_cidr (some network) rest = cidr network ∷ rest

  abbrev pub from_text : Option net.Ip → Option net.Regex → List ExcludeRule → List ExcludeRule
  from_text (some i) _ rest = ip i ∷ rest
  from_text none (some re) rest = regex re ∷ rest
  from_text none none rest = rest

  -- What is neither of the three is left out.
  unfoldable pub compile : List Bytes → List ExcludeRule
  compile [] = []
  compile (e ∷ es) =
      if has_slash e
      then from_cidr (net.parse_ipnet e) (compile es)
      else from_text (net.parse_ip e) (net.regex_new e) (compile es)

  unfoldable pub new : List Bytes → ExcludeMatcher
  new excludes = record { rules = compile excludes }

  abbrev pub match_rule : Option net.Ip → ExcludeRule → Bytes → Bool
  match_rule (some i) (ip rule_ip) host = net.ip_eq i rule_ip
  match_rule (some i) (cidr network) host = net.ipnet_contains network i
  match_rule none (ip rule_ip) host = false
  match_rule none (cidr network) host = false
  match_rule (some i) (regex re) host = net.regex_match re host
  match_rule none (regex re) host = net.regex_match re host

  unfoldable pub match_rules : Option net.Ip → List ExcludeRule → Bytes → Bool
  match_rules i [] host = false
  match_rules i (rule ∷ rules) host =
      if match_rule i rule host then true else match_rules i rules host

  unfoldable pub is_match : ExcludeMatcher → Bytes → Bool
  is_match m host = match_rules (net.parse_ip host) m.rules host
