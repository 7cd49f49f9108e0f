-- ===== src/Trust.antt =====
-- Proxies and client addresses: parseTrustedProxies, isTrusted, clientIP and setForwardedHeaders of
-- cmd/gateway/app.go.
pub mod Laws
use vial_gateway.Prelude.{
  ℕ, Bool, true, false, List, [], ◌∷◌, ◌++◌, Option, none, some, if◌then◌else◌, any, map, Result,
  ok, err, ◌>>=◌,
}
use vial_gateway.Text.{Text, codes, is_empty, split_on, trim_space}
use vial_gateway.Header.{Header}
use vial_gateway.Header
use vial_gateway.Std.{Std, IpNet}

abbrev pub forwarded_for : Text
forwarded_for = codes "X-Forwarded-For"

-- The fields of http.Request that these functions read; `tls` says that request.TLS is not nil.
pub record Peer : Type 0 where
  pub remote_addr : Text
  pub host : Text
  pub tls : Bool

-- net.CIDRMask(bits, bits): all ones, a byte for each eight bits
abbrev full_mask : List ℕ → List ℕ
full_mask = map (λ b. 255)

module _ (std : Std) where
  -- The network of one address: its four bytes if it is an IPv4 address, all sixteen otherwise.
  unfoldable pub host_net : List ℕ → IpNet
  host_net ip = elim (std.nets.to4 ip) [
    | none ↦ record { ip = ip; mask = full_mask ip }
    | some short ↦ record { ip = short; mask = full_mask short }
  ]

  unfoldable pub parse_trusted_proxies : List Text → Option (List IpNet)
  parse_trusted_proxies [] = some []
  parse_trusted_proxies (value ∷ values) =
      let rest = parse_trusted_proxies values in
      let network : Option IpNet = elim (std.nets.parse_ip value) [
        | some ip ↦ some (host_net ip)
        | none ↦ std.nets.parse_cidr value
      ] in
      elim network [ none ↦ none | some n ↦ elim rest [ none ↦ none | some ns ↦ some (n ∷ ns) ] ]

  unfoldable pub is_trusted : Option (List ℕ) → List IpNet → Bool
  is_trusted ip trusted = any (λ network. std.nets.contains network ip) trusted

  abbrev pub remote_of : Peer → Text
  remote_of peer = std.nets.split_host peer.remote_addr

  -- Whether the peer is a trusted proxy.
  abbrev pub from_trusted : Peer → List IpNet → Bool
  from_trusted peer trusted = is_trusted (std.nets.parse_ip (remote_of peer)) trusted

  abbrev first_field : List Text → Text
  first_field [] = []
  first_field (v ∷ vs) = v

  abbrev parses : Option (List ℕ) → Bool
  parses none = false
  parses (some ip) = true

  -- strings.Split gives at least one field, so the test on their number always passes.
  unfoldable pub client_ip : Peer → Header → List IpNet → Text
  client_ip peer header trusted =
      let first =
        trim_space std.unicode (first_field (split_on b',' (Header.get header forwarded_for))) in
      if from_trusted peer trusted
      then (if parses (std.nets.parse_ip first) then first else remote_of peer)
      else remote_of peer

  unfoldable pub set_forwarded_headers : Header → Peer → List IpNet → Header
  set_forwarded_headers upstream original trusted =
      let remote = remote_of original in
      let h =
        if from_trusted original trusted then upstream else Header.del upstream forwarded_for in
      let previous = Header.get h forwarded_for in
      let chain = if is_empty previous then remote else previous ++ (codes ", " ++ remote) in
      let h₁ = Header.set h forwarded_for chain in
      let h₂ = Header.set h₁ (codes "X-Forwarded-Host") original.host in
      Header.set h₂ (codes "X-Forwarded-Proto")
        (if original.tls then codes "https" else codes "http")
