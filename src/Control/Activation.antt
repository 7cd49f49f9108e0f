-- ===== src/Control/Activation.antt =====
-- Activation: the check against the current version, and the manager's state after it.
use vial_gateway.Prelude.{
  ◌≡◌, refl, ◌≢◌, Bool, true, false, [], ◌∷◌, none, some, Result, ok, err, arith, Option-cases,
  Result-cases, Bool-cases, inl, inr, ◌⊎◌, ap, sym, ◌∙◌, >>-eq-ok,
}
use vial_gateway.Prelude.Int.{ℤ}
use vial_gateway.Text.{Text, is_empty}
use vial_gateway.Text.Equality.{text_eq_iff, is_empty-ne-nil}
use vial_gateway.Number.{format_int}
use vial_gateway.Dict.{or_empty}
use vial_gateway.Config.Types.{GatewayConfig}
use vial_gateway.Config.Routes.{validate_gateway}
use vial_gateway.Manager.{
  Host, Manager, CompileError, Snapshot, activate, validate, valid_or, compile,
}
use vial_gateway.Manager.Swap.{activate_of_validate, activate_all_or_nothing, Installed}
use vial_gateway.Store.{Store, config_key, active_config_key, put, write, log}
use vial_gateway.Control.{
  Response, json, Codec, Calls, TxError, version_of, trim_quotes, activate_tx, activate_fault,
  activated, audited, validate_gateway_config, commit_config, activate_config,
}

abbrev pub is_json : Response → Bool
is_json (json status members) = true
is_json _ = false

-- What the transaction wrote, where it committed.
pub record Committed (version : ℤ) (expected : Text) (s t : Store) : Type 0 where
  pub current : or_empty (s.strings active_config_key) ≡ expected
  pub present : (bytes : Text) × (s.strings (config_key version) ≡ some bytes)
  pub strings : t.strings ≡ write active_config_key (some (format_int version)) s.strings
  pub published : t.published ≡ format_int version ∷ s.published

pub activate_tx-Committed :
    (c : Calls) (version : ℤ) (expected : Text) (s t : Store)
    → activate_tx c version expected s ≡ ok t
    → Committed version expected s t
unfolding activate_tx put
activate_tx-Committed c version expected s t h = record {
  current = ground (arith, text_eq_iff (or_empty (s.strings active_config_key)) expected);
  present = elim (Option-cases (s.strings (config_key version))) [
    | inl missing ↦ absurd (ground arith)
    | inr found ↦ found
  ];
  strings = ground arith;
  published = ground arith;
}

audited-strings :
    (c : Calls) (actor action target : Text) (s : Store)
    → ((audited c actor action target s).strings ≡ s.strings)
      × ((audited c actor action target s).published ≡ s.published)
unfolding log
audited-strings c actor action target s = (ground arith, ground arith)

module _ {B : Type 0} (host : Host B) (codec : Codec) where
  -- What an activation that succeeds has done, to the store `s` and the manager `m`.
  pub record Activated (version : ℤ) (expected : Text) (g : GatewayConfig) (s : Store)
      (m : Manager B) (r : Store × Manager B × Response) : Type 0 where
    pub answered : is_json r.2 ≡ true
    pub current : or_empty (s.strings active_config_key) ≡ expected
    pub present : (bytes : Text) × (s.strings (config_key version) ≡ some bytes)
    pub strings : r.0.strings ≡ write active_config_key (some (format_int version)) s.strings
    pub published : r.0.published ≡ format_int version ∷ s.published
    pub served :
        (n : Snapshot B) × (compile host m.environment m.allow_no_routes g ≡ ok n)
        × (r.1.current ≡ some n)
    pub manager : r.1 ≡ record (activate host m g).0 { redis_version = version }

  -- What a refused activation has done: nothing.
  abbrev pub Refused : Store → Manager B → Store × Manager B × Response → Type 0
  Refused s m r = (is_json r.2 ≡ false) × (r.0 ≡ s) × (r.1 ≡ m)

  validate-part :
      (m : Manager B) (g : GatewayConfig)
      → validate_gateway_config host codec m g ≡ ok tt
      → validate host m g ≡ ok tt
  unfolding validate_gateway_config
  validate-part m g h =
      (>>-eq-ok (valid_or host (validate_gateway host.std m.environment false g))
        (validate host m g) h).1

  activated-Activated :
      (c : Calls) (actor action expected : Text) (version : ℤ) (g : GatewayConfig) (s t : Store)
      (m : Manager B) (a : Manager B × Result CompileError (Unit {0}))
      → Committed version expected s t
      → a.1 ≡ ok tt
      → Installed host m g a.0
      → a.0 ≡ (activate host m g).0
      → Activated version expected g s m (activated host codec c actor action version a t)
  activated-Activated c actor action expected version g s t m (n, err e) w done i same = cc
  activated-Activated c actor action expected version g s t m (n, ok u) w done i same =
      let (strings, published) = audited-strings c actor action (format_int version) t in
      record {
        answered = refl;
        current = w.current;
        present = w.present;
        strings = strings ∙ w.strings;
        published = published ∙ w.published;
        served = (i.0, i.1, i.2);
        manager = ap {A = Manager B} (λ k. record k { redis_version = version }) same;
      }

  fault-not-json : (e : TxError) → is_json (activate_fault e) ≡ false
  fault-not-json e = ground arith

  commit-cases :
      (c : Calls) (actor action : Text) (version : ℤ) (expected : Text) (g : GatewayConfig)
      (s : Store) (m : Manager B)
      → validate_gateway_config host codec m g ≡ ok tt
      → let r = commit_config host codec c actor action version expected g s m in
        Refused s m r ⊎ Activated version expected g s m r
  unfolding commit_config
  commit-cases c actor action version expected g s m valid =
      elim (Result-cases (activate_tx c version expected s)) [
        | inr (e, failed) ↦ inl (rw (failed, commit_config) (fault-not-json e, refl, refl))
        | inl (t, done) ↦ inr (
            rw (done, commit_config)
              (activated-Activated c actor action expected version g s t m (activate host m g)
                (activate_tx-Committed c version expected s t done) (activates m g valid)
                (installs m g valid) refl))
      ]
    where
      activates :
          (m : Manager B) (g : GatewayConfig)
          → validate_gateway_config host codec m g ≡ ok tt
          → (activate host m g).1 ≡ ok tt
      activates m g valid = activate_of_validate host m g (validate-part m g valid)

      installs :
          (m : Manager B) (g : GatewayConfig)
          → validate_gateway_config host codec m g ≡ ok tt
          → Installed host m g (activate host m g).0
      installs m g valid = elim (activate_all_or_nothing host m g) [
        | inl (_, i) ↦ i
        | inr (e, failed, _) ↦ cc (failed, activates m g valid)
      ]

  -- What the handler reads before its transaction.
  pub record Read (path_value if_match : Text) (seen : Store) (version : ℤ) (g : GatewayConfig)
      : Type 0 where
    pub parsed : version_of path_value ≡ some version
    pub given : trim_quotes if_match ≢ []
    pub stored :
        (bytes : Text) × (seen.strings (config_key version) ≡ some bytes)
        × (codec.decode bytes ≡ some g)

  -- Whatever other clients did since the version was read, an activation either changes nothing and
  -- answers with an error, or does all of this: the version was stored and the current one was the one
  -- named by If-Match; the active version and the topic now hold the new one; and the manager serves
  -- the snapshot compiled from the configuration that was read.
  pub activate_config_all_or_nothing :
      (c : Calls) (actor action path_value if_match : Text) (seen s : Store) (m : Manager B)
      → let r = activate_config host codec c actor action path_value if_match seen s m in
        Refused s m r
        ⊎ ((version : ℤ) × (g : GatewayConfig) × Read path_value if_match seen version g
            × Activated version (trim_quotes if_match) g s m r)
  unfolding activate_config
  activate_config_all_or_nothing c actor action path_value if_match seen s m =
      elim (Option-cases (version_of path_value)) [
        | inl bad ↦ inl (rw (bad, activate_config) (refl, refl, refl))
        | inr (version, parsed) ↦ elim (Bool-cases (is_empty (trim_quotes if_match))) [
          | inl empty ↦ inl (rw (parsed, activate_config) (rw empty (refl, refl, refl)))
          | inr given ↦ elim (Bool-cases c.first) [
            | inr down ↦ inl (rw (parsed, activate_config) (rw (given, down) (refl, refl, refl)))
            | inl up ↦ elim (Option-cases (seen.strings (config_key version))) [
              | inl missing ↦
                  inl (rw (parsed, activate_config) (rw (given, up, missing) (refl, refl, refl)))
              | inr (bytes, found) ↦ elim (Option-cases (codec.decode bytes)) [
                | inl garbled ↦ inl (
                    rw (parsed, activate_config)
                      (rw (given, up, found, garbled) (refl, refl, refl)))
                | inr (g, decoded) ↦ elim (Result-cases (validate_gateway_config host codec m g)) [
                  | inr (e, refused) ↦ inl (
                      rw (parsed, activate_config)
                        (rw (given, up, found, decoded, refused) (refl, refl, refl)))
                  | inl (_, valid) ↦
                      rw (parsed, activate_config)
                        (rw (given, up, found, decoded, valid)
                          (elim (commit-cases c actor action version (trim_quotes if_match) g s m
                            valid) [
                              | inl refused ↦ inl refused
                              | inr done ↦ inr (
                                version,
                                g,
                                record {
                                  parsed = parsed;
                                  given = is_empty-ne-nil (trim_quotes if_match) given;
                                  stored = (bytes, found, decoded);
                                },
                                done,
                              )
                            ]))
                ]
              ]
            ]
          ]
        ]
      ]

  -- Where no version is active, no activation can succeed, whatever If-Match holds: an empty one is
  -- refused before the store is read, and any other differs from the missing version.
  pub no_first_activation :
      (c : Calls) (actor action path_value if_match : Text) (seen s : Store) (m : Manager B)
      → s.strings active_config_key ≡ none
      → Refused s m (activate_config host codec c actor action path_value if_match seen s m)
  no_first_activation c actor action path_value if_match seen s m missing =
      elim (activate_config_all_or_nothing c actor action path_value if_match seen s m) [
        | inl refused ↦ refused
        | inr (version, g, read, done) ↦
            absurd (read.given (sym done.current ∙ ap or_empty missing))
      ]
