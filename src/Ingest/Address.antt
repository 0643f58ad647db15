-- ===== src/Ingest/Address.antt =====
-- The addresses that morf/ingest/https.go and morf/utils/webhook.go refuse, with the predicates of
-- package net on them. `v6` holds the 128 bits of an address that is not an IPv4 address in disguise.
use morf.Prelude.{
  ℕ, ◌/◌, ◌%◌, ◌^◌, String, Bool, false, not, ◌&&◌, ◌||◌, Option, none, some, List, [], ◌∷◌, str_eq,
  ◌==◌, any,
}

pub data Ip : Type 0 where
  v4 : ℕ → ℕ → ℕ → ℕ → Ip
  v6 : ℕ → Ip

abbrev pub is_loopback : Ip → Bool
is_loopback (v4 a b c d) = a == 127
is_loopback (v6 n) = n == 1

abbrev pub is_unspecified : Ip → Bool
is_unspecified (v4 a b c d) = a == 0 && b == 0 && c == 0 && d == 0
is_unspecified (v6 n) = n == 0

abbrev pub is_private : Ip → Bool
is_private (v4 a b c d) = a == 10 || (a == 172 && b / 16 == 1) || (a == 192 && b == 168)
is_private (v6 n) = n / 2 ^ 121 == 126

abbrev pub is_link_local_unicast : Ip → Bool
is_link_local_unicast (v4 a b c d) = a == 169 && b == 254
is_link_local_unicast (v6 n) = n / 2 ^ 118 == 1018

abbrev pub is_link_local_multicast : Ip → Bool
is_link_local_multicast (v4 a b c d) = a == 224 && b == 0 && c == 0
is_link_local_multicast (v6 n) = n / 2 ^ 120 == 255 && n / 2 ^ 112 % 16 == 2

abbrev pub is_multicast : Ip → Bool
is_multicast (v4 a b c d) = a / 16 == 14
is_multicast (v6 n) = n / 2 ^ 120 == 255

-- the explicit test for fc00::/7
abbrev pub is_unique_local : Ip → Bool
is_unique_local (v4 a b c d) = false
is_unique_local (v6 n) = n / 2 ^ 120 / 2 == 126

unfoldable pub is_disallowed_ip : Ip → Bool
is_disallowed_ip ip =
    is_loopback ip
    || is_link_local_unicast ip
    || is_link_local_multicast ip
    || is_multicast ip
    || is_unspecified ip
    || is_private ip
    || is_unique_local ip

pub record Resolver : Type 0 where
  pub parse_ip : String → Option Ip
  -- the host of "host:port"
  pub split_host_port : String → Option String
  pub lookup_ip_addr : String → Option (List Ip)

module _ (net : Resolver) where
  abbrev parsed_allowed : Option Ip → Bool
  parsed_allowed none = false
  parsed_allowed (some ip) = not (is_disallowed_ip ip)

  abbrev host_allowed : Option String → Bool
  host_allowed none = false
  host_allowed (some host) = parsed_allowed (net.parse_ip host)

  -- the Control hook of the dialer, on an address that it is about to connect to
  unfoldable pub control : String → Bool
  unfolding is_disallowed_ip
  control address = host_allowed (net.split_host_port address)

  abbrev resolved_allowed : Option (List Ip) → Bool
  resolved_allowed none = false
  resolved_allowed (some []) = false
  resolved_allowed (some (ip ∷ ips)) = not (any is_disallowed_ip (ip ∷ ips))

  abbrev host_resolves : String → Option Ip → Bool
  host_resolves host none = resolved_allowed (net.lookup_ip_addr host)
  host_resolves host (some ip) = not (is_disallowed_ip ip)

  -- `ValidateWebhookURL` on the scheme and the host name of a URL that parses
  unfoldable pub validate_webhook_url : String → String → Bool
  unfolding is_disallowed_ip
  validate_webhook_url scheme host =
      (str_eq scheme "http" || str_eq scheme "https")
      && not (str_eq host "")
      && host_resolves host (net.parse_ip host)
