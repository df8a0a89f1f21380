-- ===== src/Gui/Facts.antt =====
-- The fields of the window that decide over its receivers, and which statements leave them alone.
use niw_pspto_pc.Base.{
  ℕ, ◌≡◌, refl, ap, arith, Bool, true, false, List, Option, none, some, if◌then◌else◌,
}
use mathlib.Core.Option.{some-injective}
use niw_pspto_pc.Receiver.State.{Address, TransportKind, wifi, usb}
use niw_pspto_pc.Gui.{App, Timer}
use niw_pspto_pc.Gui.Pairing.{unless}

pub record Facts : Type 0 where
  pub receiver : Option ℕ
  pub controller_service : Option ℕ
  pub running : Bool
  pub closing : Bool
  pub restart_pending : Bool
  pub paired_address : Option Address
  pub connected_transport : Option TransportKind
  pub created : ℕ
  pub pending : List Timer

abbrev pub facts : App → Facts
facts a = record {
  receiver = a.receiver;
  controller_service = a.controller_service;
  running = a.running;
  closing = a.closing;
  restart_pending = a.restart_pending;
  paired_address = a.paired_address;
  connected_transport = a.connected_transport;
  created = a.created;
  pending = a.pending;
}

pub facts-unless :
    (b : Bool) (statement : App → App) (a : App)
    → ((c : App) → facts (statement c) ≡ facts c)
    → facts (unless b statement a) ≡ facts a
facts-unless true statement a quiet = refl
facts-unless false statement a quiet = quiet a

pub facts-if :
    (b : Bool) (x y : App) {f : Facts} → facts x ≡ f → facts y ≡ f → facts (if b then x else y) ≡ f
facts-if true x y h k = h
facts-if false x y h k = k

-- What holds in both cases holds behind the test.
pub under {ℓ} :
    (P : App → Type ℓ) {A : Type 0} (o : Option A) (present : A → App) (missing : App)
    → P missing
    → ((v : A) → P (present v))
    → P (elim o [ none ↦ missing | some v ↦ present v ])
under P none present missing h k = h
under P (some v) present missing h k = k v

pub when_some :
    {A B : Type 0} (o : Option A) (present : A → B) (missing : B) {v : A}
    → o ≡ some v
    → (elim o [ none ↦ missing | some w ↦ present w ]) ≡ present v
when_some none present missing e = absurd (ground (arith, e))
when_some (some w) present missing e = ap present (some-injective w _ e)

pub branch {ℓ} :
    {A : Type 0} (P : A → Type ℓ) (b : Bool) (x y : A)
    → (b ≡ true → P x)
    → (b ≡ false → P y)
    → P (if b then x else y)
branch P true x y h k = h refl
branch P false x y h k = k refl

pub facts_option :
    {A : Type 0} (o : Option A) (present : A → App) (missing : App) {f : Facts}
    → facts missing ≡ f
    → ((v : A) → facts (present v) ≡ f)
    → facts (elim o [ none ↦ missing | some v ↦ present v ]) ≡ f
facts_option none present missing h k = h
facts_option (some v) present missing h k = k v

pub facts_kind :
    (t : TransportKind) (x y : App) {f : Facts}
    → facts x ≡ f
    → facts y ≡ f
    → facts (elim t [ wifi ↦ x | usb ↦ y ]) ≡ f
facts_kind wifi x y h k = h
facts_kind usb x y h k = k
