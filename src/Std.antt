-- ===== src/Std.antt =====
-- What the gateway calls of Go's standard library and is not written out here: the tables of
-- package unicode, the URLs of net/url, the addresses of package net, and SHA-256.
use vial_gateway.Prelude.{ℕ, Bool, List, Option}
use vial_gateway.Text.{Text, Unicode}
use vial_gateway.Url.{UrlLib}

-- net.IPNet
pub record IpNet : Type 0 where
  pub ip : List ℕ
  pub mask : List ℕ

-- A net.IP is its bytes; `none` is nil, or an error.
pub record NetLib : Type 0 where
  pub parse_ip : Text → Option (List ℕ)
  pub parse_cidr : Text → Option IpNet
  -- ip.To4() and ip.String()
  pub to4 : List ℕ → Option (List ℕ)
  pub ip_string : List ℕ → Text
  -- network.Contains(ip), where ip may be nil
  pub contains : IpNet → Option (List ℕ) → Bool
  pub is_global_unicast : List ℕ → Bool
  pub is_private : List ℕ → Bool
  pub is_loopback : List ℕ → Bool
  -- the host that net.SplitHostPort gives, empty on an error
  pub split_host : Text → Text

pub record Std : Type 0 where
  pub unicode : Unicode
  pub urls : UrlLib
  pub nets : NetLib
  -- sha256.Sum256
  pub sha256 : Text → List ℕ
