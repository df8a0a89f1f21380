-- ===== src/Gamepad/Service/Spec.antt =====
-- What `ControllerService` of pc-server/pc_server/gamepad.py promises, without its fields: a mode, and
-- the modes that each kind of call may lead to.
use niw_pspto_pc.Base.{
  ◌≡◌, ◌⊎◌, Bool, true, false, List, [], ◌∷◌, Option, none, some, if◌then◌else◌,
}
use niw_pspto_pc.Receiver.State.{Address}
use niw_pspto_pc.Gamepad.Mapping.{Xbox360State}

-- `live` shows the input of a client; in every other mode the gamepad is neutral or absent.
pub data Mode : Type 0 where
  absent : Mode
  ready : Mode
  live : Option Address → Option Xbox360State → Mode
  silenced : Option Address → Mode
  failed : Mode
  halted : Mode

-- What a call means for the mode.
pub data Signal : Type 0 where
  refused : Signal
  input : Address → Option Xbox360State → Signal
  opening : Signal
  tick : Signal
  ending : Signal
  halting : Signal

abbrev pub has_session : Mode → Bool
has_session (live a x) = true
has_session (silenced a) = true
has_session _ = false

-- Whether an input is taken: not after a failure, and not after the end.
abbrev pub takes_input : Mode → Bool
takes_input failed = false
takes_input halted = false
takes_input _ = true

-- Whether a backend may be made.
abbrev pub may_open : Mode → Bool
may_open absent = true
may_open failed = true
may_open _ = false

abbrev pub client : Mode → Option Address
client (live a x) = a
client (silenced a) = a
client _ = none

-- What the gamepad shows, if it is not neutral.
abbrev pub shown : Mode → Option Xbox360State
shown (live a x) = x
shown _ = none

-- The modes after a signal.
abbrev pub Allows : Signal → Mode → Mode → Type 0
Allows refused m n = n ≡ m
Allows (input a x) m n =
    (takes_input m ≡ false → n ≡ m) × (takes_input m ≡ true → (n ≡ failed) ⊎ (n ≡ live (some a) x))
Allows opening m n = (n ≡ m) ⊎ ((may_open m ≡ true) × ((n ≡ ready) ⊎ (n ≡ failed)))
Allows tick m n = (n ≡ m) ⊎ ((has_session m ≡ true) × ((n ≡ ready) ⊎ (n ≡ silenced (client m))))
Allows ending m n = n ≡ (if has_session m then ready else m)
Allows halting m n = n ≡ halted

-- A run of the specification.
pub data Allowed : Mode → List Signal → Mode → Type 0 where
  rests : {m : Mode} → Allowed m [] m
  goes :
      {m n o : Mode} {signals : List Signal} (signal : Signal)
      → Allowed m signals n
      → Allows signal n o
      → Allowed m (signal ∷ signals) o
