-- ===== src/Control/Versions.antt =====
-- Configuration versions: they do not change, and the active one is not deleted.
use vial_gateway.Prelude.{
  ◌≡◌, refl, ◌≢◌, true, false, Option, none, some, Result, ok, err, arith, Option-cases,
  Result-cases, Bool-cases, inl, inr, ◌⊎◌, ◌∙◌, >>-eq-ok,
}
use vial_gateway.Prelude.Int.{ℤ}
use vial_gateway.Text.{Text, codes}
use vial_gateway.Text.Equality.{text_eq_iff}
use vial_gateway.Number.{format_int}
use vial_gateway.Dict.{or_empty}
use vial_gateway.Config.Types.{GatewayConfig}
use vial_gateway.Config.Validate.{ConfigError}
use vial_gateway.Config.Routes.{validate_gateway}
use vial_gateway.Manager.{Host, Manager, validate, valid_or}
use vial_gateway.Store.{Store, config_key, active_config_key, put, delete, set_nx, write, log}
use vial_gateway.Control.{
  Codec, Calls, version_of, delete_tx, delete_fault, delete_config, audited, created,
  validate_gateway_config, create_config, TxError,
}
use vial_gateway.Control.Activation.{is_json}

audited-keeps :
    (c : Calls) (actor action target : Text) (s : Store)
    → (audited c actor action target s).strings ≡ s.strings
unfolding log
audited-keeps c actor action target s = ground arith

-- What the transaction of a deletion found and did, where it committed.
pub record Deleted (version : ℤ) (s t : Store) : Type 0 where
  pub not_active : or_empty (s.strings active_config_key) ≢ format_int version
  pub present : (bytes : Text) × (s.strings (config_key version) ≡ some bytes)
  pub strings : t.strings ≡ write (config_key version) none s.strings

delete_tx-Deleted :
    (c : Calls) (version : ℤ) (s t : Store) → delete_tx c version s ≡ ok t → Deleted version s t
unfolding delete_tx delete
delete_tx-Deleted c version s t h = record {
  not_active = λ e.
      ground (arith, text_eq_iff (or_empty (s.strings active_config_key)) (format_int version));
  present = elim (Option-cases (s.strings (config_key version))) [
    | inl missing ↦ absurd (ground arith)
    | inr found ↦ found
  ];
  strings = elim (Option-cases (s.strings (config_key version))) [
    | inl missing ↦ absurd (ground arith)
    | inr (bytes, found) ↦ ground arith
  ];
}

delete_fault-not-json : (e : TxError) → is_json (delete_fault e) ≡ false
delete_fault-not-json e = ground arith

-- A deletion either changes nothing and answers with an error, or removes exactly the version of
-- the path, which was stored and was not the active one.
pub delete_config_cases :
    (c : Calls) (actor path_value : Text) (s : Store)
    → let r = delete_config c actor path_value s in
      ((is_json r.1 ≡ false) × (r.0 ≡ s))
      ⊎ ((version : ℤ) × (version_of path_value ≡ some version)
          × (is_json r.1 ≡ true)
          × Deleted version s r.0)
unfolding delete_config
delete_config_cases c actor path_value s = elim (Option-cases (version_of path_value)) [
  | inl bad ↦ inl (rw (bad, delete_config) (refl, refl))
  | inr (version, parsed) ↦ elim (Result-cases (delete_tx c version s)) [
    | inr (e, failed) ↦ inl (rw (parsed, delete_config) (rw failed (delete_fault-not-json e, refl)))
    | inl (t, done) ↦
        let d = delete_tx-Deleted c version s t done in
        inr (
          rw (parsed, delete_config)
            (rw done (
              version,
              refl,
              refl,
              record {
                not_active = d.not_active;
                present = d.present;
                strings =
                    audited-keeps c actor (codes "config.delete") (format_int version) t
                    ∙ d.strings;
              },
            )))
  ]
]

module _ {B : Type 0} (host : Host B) (codec : Codec) where
  -- What a creation that succeeds has done.
  pub record Created (g : GatewayConfig) (environment : Text) (s t : Store) : Type 0 where
    pub valid : validate_gateway host.std environment false g ≡ ok tt
    pub free : s.strings (config_key g.version) ≡ none
    pub strings : t.strings ≡ write (config_key g.version) (some (codec.encode g)) s.strings

  valid_or-ok : (r : Result ConfigError (Unit {0})) → valid_or host r ≡ ok tt → r ≡ ok tt
  valid_or-ok (ok u) h = refl
  valid_or-ok (err e) h = cc

  valid-part :
      (m : Manager B) (g : GatewayConfig)
      → validate_gateway_config host codec m g ≡ ok tt
      → validate_gateway host.std m.environment false g ≡ ok tt
  unfolding validate_gateway_config
  valid-part m g h =
      valid_or-ok _
        (>>-eq-ok (valid_or host (validate_gateway host.std m.environment false g))
          (validate host m g) h).0

  set_nx-created :
      (c : Calls) (m : Manager B) (actor : Text) (g : GatewayConfig) (s : Store)
      → validate_gateway host.std m.environment false g ≡ ok tt
      → let r =
          created host codec c actor g.version (set_nx (config_key g.version) (codec.encode g) s) in
        ((is_json r.1 ≡ false) × (r.0 ≡ s)) ⊎ ((is_json r.1 ≡ true) × Created g m.environment s r.0)
  unfolding set_nx put
  set_nx-created c m actor g s valid = elim (Option-cases (s.strings (config_key g.version))) [
    | inr (old, taken) ↦ inl (rw (taken, set_nx) (refl, refl))
    | inl free ↦ inr (
        rw (free, set_nx)
          (
            refl,
            record {
              valid = valid;
              free = free;
              strings = audited-keeps c actor (codes "config.create") (format_int g.version) _;
            },
          ))
  ]

  -- A creation either changes nothing and answers with an error, or stores a valid configuration
  -- under a version that was free.
  pub create_config_cases :
      (c : Calls) (m : Manager B) (actor : Text) (body : Option GatewayConfig) (s : Store)
      → let r = create_config host codec c m actor body s in
        ((is_json r.1 ≡ false) × (r.0 ≡ s))
        ⊎ ((g : GatewayConfig) × (body ≡ some g)
            × (is_json r.1 ≡ true)
            × Created g m.environment s r.0)
  unfolding create_config
  create_config_cases c m actor none s = inl (refl, refl)
  create_config_cases c m actor (some g) s =
      elim (Result-cases (validate_gateway_config host codec m g)) [
        | inr (e, refused) ↦ inl (rw (refused, create_config) (refl, refl))
        | inl (_, valid) ↦ elim (Bool-cases c.first) [
          | inr down ↦ inl (rw (valid, create_config) (rw down (refl, refl)))
          | inl up ↦
              rw (valid, create_config)
                (rw up (elim (set_nx-created c m actor g s (valid-part m g valid)) [
                  | inl refused ↦ inl refused
                  | inr (answered, done) ↦ inr (g, refl, answered, done)
                ]))
        ]
      ]
