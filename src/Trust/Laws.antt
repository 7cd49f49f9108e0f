-- ===== src/Trust/Laws.antt =====
-- What upstreams are told of a client, and by which address it is limited.
use vial_gateway.Prelude.{◌≡◌, refl, true, false, List, [], ◌∷◌, ◌++◌, some, ◌∙◌, ℕ, All, ◌≢◌}
use vial_gateway.Text.{Text, codes, text_eq, is_empty, trim_space}
use vial_gateway.Text.Split.{split_on-append}
use vial_gateway.Header.{Header, canonical_key}
use vial_gateway.Header
use vial_gateway.Header.Laws.{get-set, get-del}
use vial_gateway.Std.{Std, IpNet}
use vial_gateway.Trust.{
  Peer, forwarded_for, from_trusted, remote_of, client_ip, set_forwarded_headers,
}

keys_apart :
    (text_eq (canonical_key (codes "X-Forwarded-Host")) (canonical_key forwarded_for) ≡ false)
    × (text_eq (canonical_key (codes "X-Forwarded-Proto")) (canonical_key forwarded_for) ≡ false)
    × (text_eq (canonical_key forwarded_for) (canonical_key forwarded_for) ≡ true)
unfolding canonical_key text_eq
keys_apart = (refl, refl, refl)

get_chain :
    (h : Header) (chain host proto : Text)
    → Header.get
        (Header.set
          (Header.set (Header.set h forwarded_for chain) (codes "X-Forwarded-Host") host)
          (codes "X-Forwarded-Proto")
          proto)
        forwarded_for
      ≡ chain
get_chain h chain host proto =
    get-set (Header.set (Header.set h forwarded_for chain) (codes "X-Forwarded-Host") host)
      (codes "X-Forwarded-Proto") proto forwarded_for
    ∙ rw keys_apart.1 (
        get-set (Header.set h forwarded_for chain) (codes "X-Forwarded-Host") host forwarded_for
        ∙ rw keys_apart.0 (get-set h forwarded_for chain forwarded_for ∙ rw keys_apart.2))

get-del_chain : (h : Header) → Header.get (Header.del h forwarded_for) forwarded_for ≡ []
get-del_chain h = get-del h forwarded_for forwarded_for ∙ rw keys_apart.2

module _ (std : Std) (upstream : Header) (peer : Peer) (trusted : List IpNet) where
  -- A peer that is no trusted proxy cannot set the chain: upstreams see its address alone, whatever
  -- X-Forwarded-For it sent, and it is limited by that address.
  pub untrusted_chain :
      from_trusted std peer trusted ≡ false
      → (Header.get (set_forwarded_headers std upstream peer trusted) forwarded_for
          ≡ remote_of std peer)
        × (client_ip std peer upstream trusted ≡ remote_of std peer)
  unfolding set_forwarded_headers client_ip
  untrusted_chain h = (
    rw h (get_chain (Header.del upstream forwarded_for) _ _ _ ∙ rw (get-del_chain upstream)),
    rw h,
  )

  -- A trusted proxy's chain is kept, and its own address put behind it.
  trusted_chain :
      from_trusted std peer trusted ≡ true
      → is_empty (Header.get upstream forwarded_for) ≡ false
      → Header.get (set_forwarded_headers std upstream peer trusted) forwarded_for
        ≡ Header.get upstream forwarded_for ++ (codes ", " ++ remote_of std peer)
  unfolding set_forwarded_headers
  trusted_chain h given = rw h (get_chain upstream _ _ _ ∙ rw given)

  -- Behind a trusted proxy the client is limited by the first field of the chain, which is what the
  -- client itself sent: a field that parses as an address is taken whatever stands behind it.
  client_picks_address :
      (claimed behind : Text)
      → from_trusted std peer trusted ≡ true
      → Header.get upstream forwarded_for ≡ claimed ++ (b',' ∷ behind)
      → All (λ c. c ≢ b',') claimed
      → trim_space std.unicode claimed ≡ claimed
      → (ip : List ℕ) → std.nets.parse_ip claimed ≡ some ip
      → client_ip std peer upstream trusted ≡ claimed
  unfolding client_ip
  client_picks_address claimed behind h sent one plain ip parsed =
      rw (h, sent, split_on-append b',' claimed behind one) (rw plain (rw parsed))
