-- ===== src/Router/Direct.antt =====
-- The matchers of src/router/matcher/, which compile their lines first, against a direct reading of
-- each line.
use rog.Prelude.{
  ◌≡◌, refl, Bool, true, false, Bool-cases, inl, inr, ◌||◌, if◌then◌else◌, bytes_eq, Option, none,
  some, List, [], ◌∷◌,
}
use rog.Prelude.Word.{Bytes}
use rog.Router.Crates.{Net}
use rog.Router.Matcher.{
  CidrLine, RegexLine, cidr_line, cidr_matcher_factory, add_cidr, add_regex, match_cidr, match_line,
  match_host, classified, parse_regex_line, regex_matcher_factory, match_regex, match_regex_line,
  match_regex_host,
}
use rog.Router.Exclude.{
  ExcludeRule, from_cidr, from_text, has_slash, compile, new, match_rules, is_match,
}

abbrev pub any : (Bytes → Bool) → List Bytes → Bool
any p [] = false
any p (x ∷ xs) = p x || any p xs

if-or : (b c : Bool) → (if b then true else c) ≡ (b || c)
if-or true c = refl
if-or false c = refl

module _ (net : Net) where
  -- A network takes the addresses in it; any other line is a host, taken as it stands.
  abbrev cidr_takes : Option net.IpNetwork → Option net.Ip → Bytes → Bytes → Bool
  cidr_takes (some c) (some ip) line host = net.network_contains c ip
  cidr_takes (some c) none line host = false
  cidr_takes none _ line host = bytes_eq line host

  abbrev pub cidr_line_takes : Bytes → Bytes → Bool
  cidr_line_takes host [] = false
  cidr_line_takes host (b ∷ bs) =
      cidr_takes (net.parse_network (b ∷ bs)) (net.parse_ip host) (b ∷ bs) host

  cidr_line_lem :
      (o : Option net.IpNetwork) (i : Option net.Ip) (line host : Bytes)
      → match_cidr net (cidr_line net line o).cidr i (cidr_line net line o).host host
        ≡ cidr_takes o i line host
  cidr_line_lem none i line host = refl
  cidr_line_lem (some c) none line host = refl
  cidr_line_lem (some c) (some ip) line host = refl

  add_cidr-match_host :
      (t host : Bytes) (rest : List (CidrLine net)) (b : Bool)
      → match_host net rest host ≡ b
      → match_host net (add_cidr net t rest) host ≡ (cidr_line_takes host t || b)
  unfolding match_host match_line
  add_cidr-match_host [] host rest b h = h
  add_cidr-match_host (x ∷ xs) host rest b h =
      rw (cidr_line_lem (net.parse_network (x ∷ xs)) (net.parse_ip host) (x ∷ xs) host, h)
        (if-or (cidr_line_takes host (x ∷ xs)) b)

  -- A CIDR matcher takes a host exactly where one of its lines does, which is trimmed and skipped if
  -- nothing remains: an address in the network of the line, or, where the line is no network, the
  -- host that stands there.
  pub match_host-cidr_matcher_factory :
      (lines : List Bytes) (host : Bytes)
      → match_host net (cidr_matcher_factory net lines) host
        ≡ any (λ line. cidr_line_takes host (net.trim line)) lines
  unfolding match_host cidr_matcher_factory
  match_host-cidr_matcher_factory [] host = refl
  match_host-cidr_matcher_factory (l ∷ ls) host =
      add_cidr-match_host (net.trim l) host (cidr_matcher_factory net ls) _
        (match_host-cidr_matcher_factory ls host)

  -- A network takes the addresses in it. A regular expression takes the names that it matches, and
  -- no address. Any other line is a host, taken as it stands.
  abbrev regex_takes :
      Option net.IpNetwork → Option net.Regex → Option net.Ip → Bytes → Bytes → Bool
  regex_takes (some c) re (some ip) line host = net.network_contains c ip
  regex_takes (some c) re none line host = false
  regex_takes none (some re) (some ip) line host = false
  regex_takes none (some re) none line host = net.regex_match re host
  regex_takes none none i line host = bytes_eq line host

  abbrev pub regex_line_takes : Bytes → Bytes → Bool
  regex_line_takes host [] = false
  regex_line_takes host (b ∷ bs) =
      regex_takes (net.parse_network (b ∷ bs)) (net.regex_new (b ∷ bs)) (net.parse_ip host) (b ∷ bs)
        host

  regex_line_lem :
      (o : Option net.IpNetwork) (re : Option net.Regex) (i : Option net.Ip) (line host : Bytes)
      → match_regex net (classified net line o re) i host ≡ regex_takes o re i line host
  regex_line_lem (some c) re (some ip) line host = refl
  regex_line_lem (some c) re none line host = refl
  regex_line_lem none (some re) (some ip) line host = refl
  regex_line_lem none (some re) none line host = refl
  regex_line_lem none none (some ip) line host = refl
  regex_line_lem none none none line host = refl

  add_regex-match_regex_host :
      (t host : Bytes) (rest : List (RegexLine net)) (b : Bool)
      → match_regex_host net rest host ≡ b
      → match_regex_host net (add_regex net t rest) host ≡ (regex_line_takes host t || b)
  unfolding match_regex_host match_regex_line parse_regex_line
  add_regex-match_regex_host [] host rest b h = h
  add_regex-match_regex_host (x ∷ xs) host rest b h =
      rw
        (
          regex_line_lem (net.parse_network (x ∷ xs)) (net.regex_new (x ∷ xs)) (net.parse_ip host)
              (x ∷ xs) host,
          h,
        )
        (if-or (regex_line_takes host (x ∷ xs)) b)

  -- A regex matcher takes a host exactly where one of its lines does, which is trimmed and skipped
  -- if nothing remains. A line that is a network takes the addresses in it; else, if it is a regular
  -- expression, the names that it matches, but no address; any other line takes the host that stands
  -- there.
  pub match_regex_host-regex_matcher_factory :
      (lines : List Bytes) (host : Bytes)
      → match_regex_host net (regex_matcher_factory net lines) host
        ≡ any (λ line. regex_line_takes host (net.trim line)) lines
  unfolding match_regex_host regex_matcher_factory
  match_regex_host-regex_matcher_factory [] host = refl
  match_regex_host-regex_matcher_factory (l ∷ ls) host =
      add_regex-match_regex_host (net.trim l) host (regex_matcher_factory net ls) _
        (match_regex_host-regex_matcher_factory ls host)

  -- A text with a slash excludes the addresses of its network; else a text that is an address
  -- excludes that address; else a regular expression excludes what it matches.
  abbrev network_excludes : Option net.IpNet → Option net.Ip → Bool
  network_excludes (some n) (some ip) = net.ipnet_contains n ip
  network_excludes _ _ = false

  abbrev text_excludes : Option net.Ip → Option net.Regex → Option net.Ip → Bytes → Bool
  text_excludes (some i) re (some ip) host = net.ip_eq ip i
  text_excludes (some i) re none host = false
  text_excludes none (some re) ip host = net.regex_match re host
  text_excludes none none ip host = false

  abbrev pub excludes : Bytes → Bytes → Bool
  excludes host e =
      if has_slash e
      then network_excludes (net.parse_ipnet e) (net.parse_ip host)
      else text_excludes (net.parse_ip e) (net.regex_new e) (net.parse_ip host) host

  from_cidr_lem :
      (o : Option net.IpNet) (i : Option net.Ip) (rest : List (ExcludeRule net)) (host : Bytes)
      → match_rules net i (from_cidr net o rest) host
        ≡ (network_excludes o i || match_rules net i rest host)
  unfolding match_rules
  from_cidr_lem none i rest host = refl
  from_cidr_lem (some n) none rest host = refl
  from_cidr_lem (some n) (some ip) rest host =
      if-or (net.ipnet_contains n ip) (match_rules net (some ip) rest host)

  from_text_lem :
      (o : Option net.Ip) (re : Option net.Regex) (i : Option net.Ip)
      (rest : List (ExcludeRule net)) (host : Bytes)
      → match_rules net i (from_text net o re rest) host
        ≡ (text_excludes o re i host || match_rules net i rest host)
  unfolding match_rules
  from_text_lem (some j) re none rest host = refl
  from_text_lem (some j) re (some ip) rest host =
      if-or (net.ip_eq ip j) (match_rules net (some ip) rest host)
  from_text_lem none (some re) none rest host =
      if-or (net.regex_match re host) (match_rules net none rest host)
  from_text_lem none (some re) (some ip) rest host =
      if-or (net.regex_match re host) (match_rules net (some ip) rest host)
  from_text_lem none none i rest host = refl

  compile_lem :
      (es : List Bytes) (host : Bytes)
      → match_rules net (net.parse_ip host) (compile net es) host ≡ any (excludes host) es
  unfolding compile match_rules
  compile_lem [] host = refl
  compile_lem (e ∷ es) host = elim (Bool-cases (has_slash e)) [
    | inl s ↦
        rw
          (
            s,
            from_cidr_lem (net.parse_ipnet e) (net.parse_ip host) (compile net es) host,
            compile_lem es host,
          )
          refl
    | inr s ↦
        rw
          (
            s,
            from_text_lem (net.parse_ip e) (net.regex_new e) (net.parse_ip host) (compile net es)
                host,
            compile_lem es host,
          )
          refl
  ]

  -- A rule excludes a host exactly where one of its texts does: a text with a slash the addresses of
  -- its network, else a text that is an address that address, else a regular expression what it
  -- matches, and any other text nothing.
  pub is_match-new :
      (texts : List Bytes) (host : Bytes)
      → is_match net (new net texts) host ≡ any (excludes host) texts
  unfolding is_match new
  is_match-new texts host = compile_lem texts host
