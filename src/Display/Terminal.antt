-- ===== src/Display/Terminal.antt =====
-- What a terminal shows of the live line: nothing of an older, longer one stays.
use niw_pspto_pc.Base.{
  ℕ, zero, suc, ◌+◌, ◌-◌, ◌≤◌, ◌≡◌, refl, sym, ap, ◌∙◌, Bool, true, false, ◌&&◌, some, List, [],
  ◌∷◌, ◌++◌, append_assoc, length, length-append, drop, ltb, Bool-cases, inl, inr, arith,
  if◌then◌else◌,
}
use niw_pspto_pc.Receiver.Sequence.{SequenceEvent}
use niw_pspto_pc.Display.{
  DisplayMode, ControllerDisplay, new_display, Written, print_line, rewrite_line, end_line,
  is_in_order, spaces, render, break_line,
}

-- The line of the cursor. `rewrite_line` goes to its start and writes over it; a line that is ended
-- leaves an empty one.
unfoldable pub show_on : List ℕ → List Written → List ℕ
show_on screen [] = screen
show_on screen (print_line line ∷ rest) = show_on [] rest
show_on screen (rewrite_line line ∷ rest) = show_on (line ++ drop (length line) screen) rest
show_on screen (end_line ∷ rest) = show_on [] rest

-- One call of the display.
pub data DisplayCall : Type 0 where
  renders : ℕ → SequenceEvent → List ℕ → DisplayCall
  breaks : DisplayCall

-- The display, the line of the cursor, and the line that was rendered last, empty after a break.
pub record Shown : Type 0 where
  pub display : ControllerDisplay
  pub screen : List ℕ
  pub latest : List ℕ

abbrev is_skipped : ℕ → SequenceEvent → ControllerDisplay → Bool
is_skipped now event d = is_in_order event && ltb now (d.last_render + d.refresh_period)

unfoldable pub show_call : DisplayCall → Shown → Shown
unfolding show_on
show_call (renders now event line) s =
    let (d, written) = render now event line s.display in
    record {
      display = d;
      screen = show_on s.screen written;
      latest = if is_skipped now event s.display then s.latest else line;
    }
show_call breaks s =
    let (d, written) = break_line s.display in
    record { display = d; screen = show_on s.screen written; latest = [] }

unfoldable pub show_calls : List DisplayCall → Shown → Shown
unfolding show_call
show_calls [] s = s
show_calls (c ∷ calls) s = show_calls calls (show_call c s)

-- The screen has the latest line, and spaces behind it.
pub record IsClean (s : Shown) : Type 0 where
  pub live : s.display.live ≡ true
  pub width : s.display.last_width ≡ length s.latest
  pub active : s.display.line_active ≡ false → s.screen ≡ []
  pub rest : ℕ
  pub screen : s.screen ≡ s.latest ++ spaces rest

spaces-+ : (m n : ℕ) → spaces m ++ spaces n ≡ spaces (m + n)
unfolding spaces
spaces-+ zero n = ap spaces (omega arith)
spaces-+ (suc m) n =
    let count : suc m + n ≡ suc (m + n) = omega arith in
    rw count (ap (λ (xs : List ℕ). 32 ∷ xs) (spaces-+ m n))

drop-spaces : (k n : ℕ) → drop k (spaces n) ≡ spaces (n - k)
unfolding spaces
drop-spaces zero n = let same : n ≡ n - 0 = omega arith in ap spaces same
drop-spaces (suc k) zero = let same : 0 ≡ 0 - suc k = omega arith in ap spaces same
drop-spaces (suc k) (suc n) =
    let same : n - k ≡ suc n - suc k = omega arith in drop-spaces k n ∙ ap spaces same

length-spaces : (n : ℕ) → length (spaces n) ≡ n
unfolding spaces
length-spaces zero = refl
length-spaces (suc n) = ground (arith, length-spaces n)

drop_past : (k : ℕ) (xs ys : List ℕ) → length xs ≤ k → drop k (xs ++ ys) ≡ drop (k - length xs) ys
drop_past k [] ys h = ap (λ (n : ℕ). drop n ys) (omega arith)
drop_past zero (x ∷ xs) ys h = absurd (omega arith)
drop_past (suc k) (x ∷ xs) ys h =
    drop_past k xs ys (omega arith) ∙ ap (λ (n : ℕ). drop n ys) (omega arith)

-- Writing a line, padded to the width of the latest one, over the screen.
rewritten :
    (line latest : List ℕ) (rest : ℕ)
    → let padded = line ++ spaces (length latest - length line) in
      padded ++ drop (length padded) (latest ++ spaces rest)
      ≡ line ++ spaces (length latest - length line + (rest - (length padded - length latest)))
rewritten line latest rest =
    let pad = length latest - length line in
    let padded = line ++ spaces pad in
    let width : length padded ≡ length line + pad =
      length-append line (spaces pad) ∙ ap (λ (n : ℕ). length line + n) (length-spaces pad) in
    ap (λ (xs : List ℕ). padded ++ xs)
      (drop_past (length padded) latest (spaces rest) (omega arith)
        ∙ drop-spaces (length padded - length latest) rest)
    ∙ append_assoc line (spaces pad) (spaces (rest - (length padded - length latest)))
    ∙ ap (λ (xs : List ℕ). line ++ xs) (spaces-+ pad (rest - (length padded - length latest)))

render-IsClean :
    (now : ℕ) (event : SequenceEvent) (line : List ℕ) (s : Shown)
    → IsClean s
    → IsClean (show_call (renders now event line) s)
unfolding show_call render show_on
render-IsClean now event line s h = elim (Bool-cases (is_skipped now event s.display)) [
  | inl skipped ↦
      rw (skipped, render)
        (record {
          live = h.live;
          width = h.width;
          active = h.active;
          rest = h.rest;
          screen = h.screen;
        })
  | inr due ↦
      let pad = length s.latest - length line in
      let padded = line ++ spaces pad in
      rw (due, render, h.live)
        (record {
          live = refl;
          width = refl;
          active = λ e. cc;
          rest = pad + (h.rest - (length padded - length s.latest));
          screen =
              ap
                (λ (w : ℕ).
                  (line ++ spaces (w - length line))
                  ++ drop (length (line ++ spaces (w - length line))) s.screen)
                h.width
              ∙ ap (λ (xs : List ℕ). padded ++ drop (length padded) xs) h.screen
              ∙ rewritten line s.latest h.rest;
        })
]

front_is_empty : (xs ys : List ℕ) → xs ++ ys ≡ [] → length xs ≡ 0
front_is_empty [] ys e = refl
front_is_empty (x ∷ xs) ys e = cc

break_line-IsClean : (s : Shown) → IsClean s → IsClean (show_call breaks s)
unfolding show_call break_line show_on spaces
break_line-IsClean s h = elim (Bool-cases s.display.line_active) [
  | inl open_line ↦
      rw (open_line, break_line, h.live)
        (record { live = refl; width = refl; active = λ e. refl; rest = 0; screen = refl })
  | inr closed ↦
      let empty = front_is_empty s.latest (spaces h.rest) (sym h.screen ∙ h.active closed) in
      rw (closed, break_line, h.live)
        (record {
          live = refl;
          width = h.width ∙ empty;
          active = λ e. h.active closed;
          rest = 0;
          screen = h.active closed;
        })
]

show_calls-IsClean :
    (calls : List DisplayCall) (s : Shown) → IsClean s → IsClean (show_calls calls s)
unfolding show_calls
show_calls-IsClean [] s h = h
show_calls-IsClean (renders now event line ∷ calls) s h =
    show_calls-IsClean calls (show_call (renders now event line) s)
      (render-IsClean now event line s h)
show_calls-IsClean (breaks ∷ calls) s h =
    show_calls-IsClean calls (show_call breaks s) (break_line-IsClean s h)

-- A display at the start of an empty line.
abbrev pub begin : ControllerDisplay → Shown
begin d = record { display = d; screen = []; latest = [] }

-- After any calls of a new display that is live and starts on an empty line, at any times, the line of the
-- terminal is the line that was rendered last, with nothing but spaces behind it, however long the lines
-- before it were; and it is empty after a break.
pub show_calls_latest :
    (calls : List DisplayCall) (refresh_hz : ℕ) (mode : DisplayMode) (isatty : Bool)
    (d : ControllerDisplay)
    → new_display refresh_hz mode isatty ≡ some d
    → d.live ≡ true
    → (rest : ℕ) × ((show_calls calls (begin d)).screen
        ≡ (show_calls calls (begin d)).latest ++ spaces rest)
unfolding new_display spaces
show_calls_latest calls refresh_hz mode isatty d new live =
    let clean =
      show_calls-IsClean calls (begin d) (record {
        live = live;
        width = ground arith;
        active = λ e. refl;
        rest = 0;
        screen = refl;
      }) in
    (clean.rest, clean.screen)
