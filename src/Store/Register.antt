-- ===== src/Store/Register.antt =====
-- What the control plane promises of Redis: a register of immutable versions, one of which may be
-- active, that changes by one version that is added, dropped or switched to; a first version is added
-- and made active in one move.
use mathlib.Core.Path.{fun_ext}
use vial_gateway.Prelude.{
  ℕ, ◌≡◌, ◌≢◌, Option, none, some, ap, sym, ◌∙◌, arith, Bool-cases, inl, inr, if◌then◌else◌, ◌==◌,
  ==_iff,
}
use vial_gateway.Prelude.Int.{pos}
use vial_gateway.Text.{Text}
use vial_gateway.Number.{format_int}
use vial_gateway.Store.{config_key, active_config_key, write}
use vial_gateway.Store.Writes.{write-same, write-other}
use vial_gateway.Store.Keys.{config_key-injective, config_key-ne-active}

pub record Register : Type 0 where
  pub versions : ℕ → Option Text
  pub active : Option Text

abbrev pub view : (Text → Option Text) → Register
view f = record { versions = λ n. f (config_key (pos n)); active = f active_config_key }

abbrev pub set_version : ℕ → Option Text → (ℕ → Option Text) → ℕ → Option Text
set_version n v f m = if n == m then v else f m

pub data Moves : Register → Register → Type 0 where
  stays : (r : Register) → Moves r r
  adds :
      (r : Register) (n : ℕ) (bytes : Text)
      → r.versions n ≡ none
      → Moves r (record r { versions = set_version n (some bytes) r.versions })
  drops :
      (r : Register) (n : ℕ)
      → r.active ≢ some (format_int (pos n))
      → Moves r (record r { versions = set_version n none r.versions })
  switches :
      (r : Register) (n : ℕ) (bytes : Text)
      → r.versions n ≡ some bytes
      → Moves r (record r { active = some (format_int (pos n)) })
  begins :
      (r : Register) (n : ℕ) (bytes : Text)
      → r.versions n ≡ none
      → r.active ≡ none
      → Moves r (record r {
        versions = set_version n (some bytes) r.versions;
        active = some (format_int (pos n));
      })

set_version-view :
    (n : ℕ) (v : Option Text) (f : Text → Option Text) (m : ℕ)
    → write (config_key (pos n)) v f (config_key (pos m)) ≡ set_version n v (view f).versions m
set_version-view n v f m = elim (Bool-cases (n == m)) [
  | inl same ↦
      let e : n ≡ m = (==_iff n m).0 same in
      rw same (rw (← e) (write-same (config_key (pos n)) v f))
  | inr apart ↦ rw apart (
      write-other (config_key (pos n)) (config_key (pos m)) v f
        (λ e. ground (arith, ==_iff n m, config_key-injective n m e)))
]

pub view-version :
    (n : ℕ) (v : Option Text) (f : Text → Option Text)
    → view (write (config_key (pos n)) v f)
      ≡ record (view f) { versions = set_version n v (view f).versions }
view-version n v f =
    let stored = fun_ext (set_version-view n v f) in
    let active = write-other (config_key (pos n)) active_config_key v f (config_key-ne-active n) in
    λ i. record { versions = stored i; active = active i }

pub view-active :
    (t : Text) (f : Text → Option Text)
    → view (write active_config_key (some t) f) ≡ record (view f) { active = some t }
view-active t f =
    let stored = fun_ext (λ n.
      write-other active_config_key (config_key (pos n)) (some t) f
        (λ e. config_key-ne-active n (sym e))) in
    let active = write-same active_config_key (some t) f in
    λ i. record { versions = stored i; active = active i }

-- The active version, where there is one, is a number and stored.
abbrev pub Held : Register → Type 0
Held r =
    (t : Text)
    → r.active ≡ some t
    → (n : ℕ) × (t ≡ format_int (pos n)) × (bytes : Text) × (r.versions n ≡ some bytes)

set-other : (n m : ℕ) (v : Option Text) (f : ℕ → Option Text) → n ≢ m → set_version n v f m ≡ f m
set-other n m v f apart = ground (arith, ==_iff n m)

set-same : (n : ℕ) (v : Option Text) (f : ℕ → Option Text) → set_version n v f n ≡ v
set-same n v f = ground (arith, ==_iff n n)

-- A register whose active version is held keeps it so, however it moves.
pub Moves-Held : {a b : Register} → Moves a b → Held a → Held b
Moves-Held (stays r) held = held
Moves-Held (adds r n bytes free) held = λ t active.
    let (m, named, old, present) = held t active in
    (
      m,
      named,
      old,
      set-other n m (some bytes) r.versions (λ e. cc (free, present, ap r.versions e)) ∙ present,
    )
Moves-Held (drops r n apart) held = λ t active.
    let (m, named, old, present) = held t active in
    (
      m,
      named,
      old,
      set-other n m none r.versions
            (λ e. apart (active ∙ ap some (named ∙ ap (λ k. format_int (pos k)) (sym e))))
          ∙ present,
    )
Moves-Held (switches r n bytes present) held = λ t active. (n, cc active, bytes, present)
Moves-Held (begins r n bytes free inactive) held =
    λ t active. (n, cc active, bytes, set-same n (some bytes) r.versions)
