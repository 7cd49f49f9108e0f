-- ===== src/Examples/Requests.antt =====
-- Requests: endpoints picked, rates, headers, addresses, scopes and paths.
use vial_gateway.Prelude.{
  ℕ, ◌+◌, ◌*◌, ◌-◌, ◌≤◌, ◌<◌, zero, suc, ◌≡◌, refl, true, List, [], ◌∷◌, none, All, arith,
  replicate,
}
use vial_gateway.Text.{codes, text_eq}
use vial_gateway.RateLimit.Script.{granted, granted-le}
use vial_gateway.Header.{Header, canonical_key, hop_headers, remove_hop_headers}
use vial_gateway.Header
use vial_gateway.Trust.{Peer, forwarded_for, set_forwarded_headers, client_ip, is_trusted}
use vial_gateway.Trust.Laws.{untrusted_chain}
use vial_gateway.Std.{IpNet}
use vial_gateway.Examples.Setup.{std, proxy_ip}

pub sevens : (n : ℕ) → All (λ b. b < 256) (replicate n 7)
sevens zero = tt
sevens (suc n) = (omega arith, sevens n)

granted-le_example :
    suc 999 * granted 3 2 (suc 999) (0 ∷ 100 ∷ 200 ∷ 1500 ∷ []) none ≤ 3 * suc 999 + 2 * (1500 - 0)
granted-le_example =
    granted-le 3 2 999 (omega arith) 0 (100 ∷ 200 ∷ 1500 ∷ [])
      (omega arith, (omega arith, (omega arith, tt)))

abbrev chain : Header
chain = (codes "X-Forwarded-For", codes "1.2.3.4, 5.6.7.8" ∷ []) ∷ []

abbrev client : Peer
client = record { remote_addr = codes "1.2.3.4"; host = codes "h"; tls = true }

abbrev proxies : List IpNet
proxies = record { ip = proxy_ip; mask = 255 ∷ 255 ∷ 255 ∷ 255 ∷ [] } ∷ []

untrusted_chain_example :
    (Header.get (set_forwarded_headers std chain client proxies) forwarded_for ≡ codes "1.2.3.4")
    × (client_ip std client chain proxies ≡ codes "1.2.3.4")
unfolding is_trusted text_eq
untrusted_chain_example = untrusted_chain std chain client proxies refl
