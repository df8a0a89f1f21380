-- ===== src/Usb/Device/Logic.antt =====
-- Rules for programs on a device: what a chain that returned went through, and how many calls a
-- program makes at most.
use niw_pspto_pc.Base.{
  ℕ, ◌+◌, ◌≤◌, ◌≡◌, refl, Bool, true, false, List, ◌∷◌, length, arith, if◌then◌else◌,
}
use niw_pspto_pc.Protocol.{Result, ok, err}
use niw_pspto_pc.Usb.Device.{
  UsbDevice, gives, read_from, write_to, World, M, ◌>>=◌, continue_with, pure, Outcome, returns,
  disconnects, escapes, Disconnect, disconnect_unless, or_escape, read, write,
}

continue_with-returns :
    {S A B : Type 0} (o : Outcome A) (u : World S) (f : A → M S B) {b : B} {v : World S}
    → continue_with o u f ≡ (returns b, v)
    → (a : A) × (o ≡ returns a) × (f a u ≡ (returns b, v))
continue_with-returns (returns a) u f h = (a, refl, h)
continue_with-returns (disconnects why) u f h = cc
continue_with-returns escapes u f h = cc

pub >>=-returns :
    {S A B : Type 0} (m : M S A) (f : A → M S B) (w : World S) {b : B} {v : World S}
    → (m >>= f) w ≡ (returns b, v)
    → (a : A) × ((m w).0 ≡ returns a) × (f a (m w).1 ≡ (returns b, v))
unfolding ◌>>=◌
>>=-returns m f w h = continue_with-returns (m w).0 (m w).1 f h

-- At most `n` calls.
pub record AtMost {S A : Type 0} (n : ℕ) (m : M S A) : Type 0 where
  pub bound : (w : World S) → length (m w).1.trace ≤ length w.trace + n

-- What holds of the world before holds of it after, however the program ends.
pub record Keeps {S A : Type 0} (P : World S → Type 0) (m : M S A) : Type 0 where
  pub kept : (w : World S) → P w → P (m w).1

continue_with-AtMost :
    {S A B : Type 0} (o : Outcome A) (n : ℕ) (u : World S) (f : A → M S B)
    → ((a : A) → AtMost n (f a))
    → length (continue_with o u f).1.trace ≤ length u.trace + n
continue_with-AtMost (returns a) n u f h = (h a).bound u
continue_with-AtMost (disconnects why) n u f h = omega arith
continue_with-AtMost escapes n u f h = omega arith

pub continue_with-Keeps :
    {S A B : Type 0} (P : World S → Type 0) (o : Outcome A) (u : World S) (f : A → M S B)
    → ((a : A) → Keeps P (f a))
    → P u
    → P (continue_with o u f).1
continue_with-Keeps P (returns a) u f h p = (h a).kept u p
continue_with-Keeps P (disconnects why) u f h p = p
continue_with-Keeps P escapes u f h p = p

pub >>=-AtMost :
    {S A B : Type 0} (k n : ℕ) {m : M S A} {f : A → M S B}
    → AtMost k m
    → ((a : A) → AtMost n (f a))
    → AtMost (k + n) (m >>= f)
unfolding ◌>>=◌
>>=-AtMost k n {m} {f} h rest = record {
  bound = λ w. omega (arith, h.bound w, continue_with-AtMost (m w).0 n (m w).1 f rest);
}

pub >>=-Keeps :
    {S A B : Type 0} {P : World S → Type 0} {m : M S A} {f : A → M S B}
    → Keeps P m
    → ((a : A) → Keeps P (f a))
    → Keeps P (m >>= f)
unfolding ◌>>=◌
>>=-Keeps {P} {m} {f} h rest = record {
  kept = λ w p. continue_with-Keeps P (m w).0 (m w).1 f rest (h.kept w p);
}

pub if-AtMost :
    {S A : Type 0} (b : Bool) {n : ℕ} {m k : M S A}
    → AtMost n m
    → AtMost n k
    → AtMost n (if b then m else k)
if-AtMost true h g = h
if-AtMost false h g = g

pub if-Keeps :
    {S A : Type 0} {P : World S → Type 0} (b : Bool) {m k : M S A}
    → Keeps P m
    → Keeps P k
    → Keeps P (if b then m else k)
if-Keeps true h g = h
if-Keeps false h g = g

pub weaken-AtMost : {S A : Type 0} {m : M S A} (k n : ℕ) → k ≤ n → AtMost k m → AtMost n m
weaken-AtMost k n le h = record { bound = λ w. omega (arith, h.bound w) }

pub pure-AtMost : {S A : Type 0} (a : A) → AtMost {S = S} 0 (pure a)
unfolding pure
pure-AtMost a = record { bound = λ w. omega arith }

pub pure-Keeps : {S A : Type 0} {P : World S → Type 0} (a : A) → Keeps P (pure a)
unfolding pure
pure-Keeps a = record { kept = λ w p. p }

still : {S : Type 0} (b : Bool) (why : Disconnect) (w : World S) → (disconnect_unless b why w).1 ≡ w
unfolding disconnect_unless
still true why w = refl
still false why w = refl

pub disconnect_unless-returns :
    {S : Type 0} (b : Bool) (why : Disconnect) (w : World S) {x : Unit {0}}
    → (disconnect_unless b why w).0 ≡ returns x
    → (b ≡ true) × ((disconnect_unless b why w).1 ≡ w)
unfolding disconnect_unless
disconnect_unless-returns true why w h = (refl, refl)
disconnect_unless-returns false why w h = cc

pub or_escape-returns :
    {S A : Type 0} (r : Result A) (w : World S) {a : A}
    → (or_escape r w).0 ≡ returns a
    → (r ≡ ok a) × ((or_escape r w).1 ≡ w)
unfolding or_escape
or_escape-returns (ok a) w h = (cc, refl)
or_escape-returns (err e) w h = cc

pub pure-returns :
    {S A : Type 0} (a : A) (w : World S) {b : A} {v : World S}
    → pure a w ≡ (returns b, v)
    → (a ≡ b) × (w ≡ v)
unfolding pure
pure-returns a w h = ground arith

pub disconnect_unless-AtMost :
    {S : Type 0} (b : Bool) (why : Disconnect) → AtMost {S = S} 0 (disconnect_unless b why)
disconnect_unless-AtMost b why = record { bound = λ w. rw (still b why w) (omega arith) }

pub disconnect_unless-Keeps :
    {S : Type 0} {P : World S → Type 0} (b : Bool) (why : Disconnect)
    → Keeps P (disconnect_unless b why)
disconnect_unless-Keeps b why = record { kept = λ w p. rw (still b why w) p }

escaped : {S A : Type 0} (r : Result A) (w : World S) → (or_escape r w).1 ≡ w
unfolding or_escape
escaped (ok a) w = refl
escaped (err e) w = refl

pub or_escape-AtMost : {S A : Type 0} (r : Result A) → AtMost {S = S} 0 (or_escape r)
or_escape-AtMost r = record { bound = λ w. rw (escaped r w) (omega arith) }

pub or_escape-Keeps : {S A : Type 0} {P : World S → Type 0} (r : Result A) → Keeps P (or_escape r)
or_escape-Keeps r = record { kept = λ w p. rw (escaped r w) p }

module _ {S : Type 0} (device : UsbDevice) where
  pub read-AtMost :
      (endpoint size timeout : ℕ) → AtMost {S = S} 1 (read device endpoint size timeout)
  unfolding read
  read-AtMost endpoint size timeout = record { bound = λ w. ground arith }

  pub write-AtMost :
      (endpoint timeout : ℕ) (bytes : List ℕ)
      → AtMost {S = S} 1 (write device endpoint bytes timeout)
  unfolding write
  write-AtMost endpoint timeout bytes = record { bound = λ w. ground arith }

  pub read-returns :
      (endpoint size timeout : ℕ) (w : World S) {b : ℕ} {bytes : List ℕ}
      → (read device endpoint size timeout w).0 ≡ returns (b ∷ bytes)
      → ((read device endpoint size timeout w).1.trace
          ≡ read_from endpoint size timeout (gives (b ∷ bytes)) ∷ w.trace)
        × (device.read_answer w.trace ≡ gives (b ∷ bytes))
  unfolding read
  read-returns endpoint size timeout w h = ground arith

  pub write-returns :
      (endpoint timeout : ℕ) (bytes : List ℕ) (w : World S) {n : ℕ}
      → (write device endpoint bytes timeout w).0 ≡ returns n
      → (write device endpoint bytes timeout w).1.trace
        ≡ write_to endpoint bytes timeout (gives n) ∷ w.trace
  unfolding write
  write-returns endpoint timeout bytes w h = ground arith
