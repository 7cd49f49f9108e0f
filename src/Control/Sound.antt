-- ===== src/Control/Sound.antt =====
-- The active version of the store is one that it holds, whatever the handlers do.
use vial_gateway.Prelude.{
  ℕ, ◌≡◌, refl, ◌≢◌, false, ◌++◌, Option, none, some, arith, Option-cases, inl, inr, ap, sym, ◌∙◌,
}
use vial_gateway.Prelude.Int.{ℤ, pos, negsuc, not_pos}
use vial_gateway.Text.{Text}
use vial_gateway.Number.{format_int, parse_int}
use vial_gateway.Dict.{or_empty}
use vial_gateway.Config.Types.{GatewayConfig}
use vial_gateway.Config.Accepted.{validate_gateway-Passed}
use vial_gateway.Manager.{Host, Manager}
use vial_gateway.Store.{Store, config_key, active_config_key, config_key_prefix, write}
use vial_gateway.Store.Writes.{write-same, write-other}
use vial_gateway.Store.Keys.{config_key-format, config_key-ne-active}
use vial_gateway.Control.{Codec, Calls, version_of, delete_config, create_config, activate_config}
use vial_gateway.Control.Activation.{activate_config_all_or_nothing}
use vial_gateway.Control.Versions.{delete_config_cases, create_config_cases}

-- The active version, where there is one, is a positive number and stored.
abbrev pub IsSound : Store → Type 0
IsSound s =
    (t : Text)
    → s.strings active_config_key ≡ some t
    → (n : ℕ) × (t ≡ format_int (pos n))
      × (bytes : Text) × (s.strings (config_key (pos n)) ≡ some bytes)

pub positive : (v : ℤ) → not_pos v ≡ false → (n : ℕ) × (v ≡ pos n)
positive (pos n) h = (n, refl)
positive (negsuc n) h = cc

pub version_of-positive : (p : Text) (v : ℤ) → version_of p ≡ some v → (n : ℕ) × (v ≡ pos n)
unfolding version_of
version_of-positive p v h = elim (Option-cases (parse_int p)) [
  | inl bad ↦ cc (rw (bad, version_of) at h)
  | inr (w, parsed) ↦ positive v (ground arith)
]

pub key-same :
    (m n : ℕ) → format_int (pos m) ≡ format_int (pos n) → config_key (pos m) ≡ config_key (pos n)
unfolding config_key
key-same m n e = ap (λ t. config_key_prefix ++ t) e

-- What writing a version's key, and writing the active one, keep of soundness.
pub IsSound-active :
    (s t : Store) (n : ℕ) (bytes : Text)
    → t.strings ≡ write active_config_key (some (format_int (pos n))) s.strings
    → s.strings (config_key (pos n)) ≡ some bytes
    → IsSound t
IsSound-active s t n bytes strings present u active =
    let new : some u ≡ some (format_int (pos n)) =
      sym active
      ∙ (ap (λ f. f active_config_key) strings ∙ write-same active_config_key _ s.strings) in
    (
      n,
      cc new,
      bytes,
      ap (λ f. f (config_key (pos n))) strings
          ∙ (write-other active_config_key (config_key (pos n)) _ s.strings
                (λ e. config_key-ne-active n (sym e))
              ∙ present),
    )

pub IsSound-version :
    (s t : Store) (n : ℕ) (v : Option Text)
    → t.strings ≡ write (config_key (pos n)) v s.strings
    → ((u : Text) → s.strings active_config_key ≡ some u → u ≢ format_int (pos n))
    → IsSound s
    → IsSound t
IsSound-version s t n v strings apart sound u active =
    let old : s.strings active_config_key ≡ some u =
      sym (write-other (config_key (pos n)) active_config_key v s.strings (config_key-ne-active n))
      ∙ (sym (ap (λ f. f active_config_key) strings) ∙ active) in
    let (m, named, bytes, present) = sound u old in
    (
      m,
      named,
      bytes,
      ap (λ f. f (config_key (pos m))) strings
          ∙ (write-other (config_key (pos n)) (config_key (pos m)) v s.strings
                (λ e. apart u old (named ∙ sym (config_key-format (pos n) (pos m) e)))
              ∙ present),
    )

-- In a store whose active version is stored, a deletion leaves it so.
delete_config-IsSound :
    (c : Calls) (actor path_value : Text) (s : Store)
    → IsSound s
    → IsSound (delete_config c actor path_value s).0
delete_config-IsSound c actor path_value s sound = elim (delete_config_cases c actor path_value s) [
  | inl (_, same) ↦ rw same sound
  | inr (version, parsed, _, d) ↦
      let (n, e) = version_of-positive path_value version parsed in
      IsSound-version s (delete_config c actor path_value s).0 n none
        (d.strings ∙ ap (λ v. write (config_key v) none s.strings) e)
        (λ u active named. d.not_active (ap or_empty active ∙ (named ∙ sym (ap format_int e))))
        sound
]

module _ {B : Type 0} (host : Host B) (codec : Codec) where
  -- In a store whose active version is stored, a creation leaves it so.
  create_config-IsSound :
      (c : Calls) (m : Manager B) (actor : Text) (body : Option GatewayConfig) (s : Store)
      → IsSound s
      → IsSound (create_config host codec c m actor body s).0
  create_config-IsSound c m actor body s sound =
      elim (create_config_cases host codec c m actor body s) [
        | inl (_, same) ↦ rw same sound
        | inr (g, _, _, d) ↦
            let (n, e) =
              positive g.version
                (validate_gateway-Passed host.std g m.environment false d.valid).version in
            IsSound-version s (create_config host codec c m actor body s).0 n
              (some (codec.encode g))
              (d.strings ∙ ap (λ v. write (config_key v) (some (codec.encode g)) s.strings) e)
              (λ u active named.
                let (k, form, bytes, present) = sound u active in
                cc (
                  present,
                  d.free,
                  ap (λ v. s.strings (config_key v)) e,
                  ap s.strings (key-same k n (sym form ∙ named)),
                ))
              sound
      ]

  -- In a store whose active version is stored, an activation leaves one that is, whatever other
  -- clients did since the handler's first reads.
  activate_config-IsSound :
      (c : Calls) (actor action path_value if_match : Text) (seen s : Store) (m : Manager B)
      → IsSound s
      → IsSound (activate_config host codec c actor action path_value if_match seen s m).0
  activate_config-IsSound c actor action path_value if_match seen s m sound =
      elim (activate_config_all_or_nothing host codec c actor action path_value if_match seen s m) [
        | inl (_, same, _) ↦ rw same sound
        | inr (version, g, read, a) ↦
            let (n, e) = version_of-positive path_value version read.parsed in
            let (bytes, present) = a.present in
            IsSound-active s
              (activate_config host codec c actor action path_value if_match seen s m).0 n bytes
              (a.strings ∙ ap (λ v. write active_config_key (some (format_int v)) s.strings) e)
              (sym (ap (λ v. s.strings (config_key v)) e) ∙ present)
      ]
