-- ===== src/Auth/Keys.antt =====
-- API keys in Redis: what the reader makes of a key that was revoked.
use vial_gateway.Prelude.{
  ◌≡◌, refl, true, List, [], ◌∷◌, ◌++◌, none, arith, Option-cases, Bool-cases, inl, inr, ap, ◌∙◌,
}
use vial_gateway.Text.{Text, codes, text_eq, is_empty}
use vial_gateway.Text.Equality.{text_eq_refl}
use vial_gateway.Dict.{lookup, insert, lookup-insert}
use vial_gateway.Std.{Std}
use vial_gateway.Hex.{hash_bytes}
use vial_gateway.Route.{CompiledAuth}
use vial_gateway.RateLimit.Request.{up, sha256_text}
use vial_gateway.Store.{Store, log}
use vial_gateway.Control.{Calls, audited}
use vial_gateway.Control.Activation.{is_json}
use vial_gateway.Auth.{
  key_prefix, fields_at, is_revoked, stored_principal, key_principal, set_fields, hset,
  revoke_api_key,
}

hashes_after :
    (c : Calls) (actor action target key : Text) (values : List (Text × Text)) (s : Store)
    → fields_at (audited c actor action target (hset key values s)) key
      ≡ set_fields values (fields_at s key)
unfolding log hset
hashes_after c actor action target key values s = ground (arith, text_eq_refl key)

revoked_after :
    (fs : List (Text × Text)) (now : Text)
    → is_revoked (set_fields ((codes "revoked", codes "1") ∷ (codes "revoked_at", now) ∷ []) fs)
      ≡ true
unfolding set_fields text_eq
revoked_after fs now =
    rw
      (
        lookup-insert (codes "revoked_at") (codes "revoked") now
            (insert (codes "revoked") (codes "1") fs),
        lookup-insert (codes "revoked") (codes "revoked") (codes "1") fs,
      )
      refl

-- A revocation or a creation that succeeds is one write of the key's fields.
abbrev pub revoked_store : Calls → Text → Text → Store → Store
revoked_store c actor id s =
    audited c actor (codes "apikey.revoke") id
      (hset (key_prefix ++ id) ((codes "revoked", codes "1") ∷ (codes "revoked_at", c.now) ∷ []) s)

revoke-written :
    (c : Calls) (actor id : Text) (s : Store)
    → is_json (revoke_api_key c actor id s).1 ≡ true
    → (revoke_api_key c actor id s).0 ≡ revoked_store c actor id s
unfolding revoke_api_key
revoke-written c actor id s h = elim (Option-cases (hash_bytes id)) [
  | inl bad ↦ cc (rw (bad, revoke_api_key) at h)
  | inr (digest, decoded) ↦ elim (Bool-cases c.first) [
    | inr down ↦ absurd (ground arith)
    | inl answers ↦ elim (Option-cases (s.hashes (key_prefix ++ id))) [
      | inl missing ↦ absurd (ground arith)
      | inr (old, found) ↦ elim (Bool-cases c.second) [
        | inr lost ↦ absurd (ground arith)
        | inl written ↦ rw (decoded, revoke_api_key) (rw (answers, found, written) refl)
      ]
    ]
  ]
]

module _ (std : Std) where
  stored-revoked : (fs : List (Text × Text)) → is_revoked fs ≡ true → stored_principal std fs ≡ none
  unfolding stored_principal
  stored-revoked fs h = rw h refl

  -- After a revocation that succeeds, a route accepts no secret with the revoked digest, unless it is
  -- one of the keys of the configuration.
  pub revoked_is_refused :
      (c : Calls) (actor id secret : Text) (auth : CompiledAuth) (s : Store)
      → is_json (revoke_api_key c actor id s).1 ≡ true
      → sha256_text std secret ≡ id
      → lookup (std.sha256 secret) auth.keys ≡ none
      → key_principal std auth up (revoke_api_key c actor id s).0 secret ≡ none
  unfolding key_principal sha256_text
  revoked_is_refused c actor id secret auth s done digest dynamic =
      elim (Bool-cases (is_empty secret)) [
        | inl blank ↦ rw blank refl
        | inr given ↦
            rw (given, dynamic, digest)
              (stored-revoked (fields_at (revoke_api_key c actor id s).0 (key_prefix ++ id))
                (after c actor id s done))
      ]
    where
      after :
          (c : Calls) (actor id : Text) (s : Store)
          → is_json (revoke_api_key c actor id s).1 ≡ true
          → is_revoked (fields_at (revoke_api_key c actor id s).0 (key_prefix ++ id)) ≡ true
      after c actor id s done =
          ap (λ t. is_revoked (fields_at t (key_prefix ++ id))) (revoke-written c actor id s done)
          ∙ (ap is_revoked (
                hashes_after c actor (codes "apikey.revoke") id (key_prefix ++ id)
                  ((codes "revoked", codes "1") ∷ (codes "revoked_at", c.now) ∷ []) s)
              ∙ revoked_after (fields_at s (key_prefix ++ id)) c.now)
