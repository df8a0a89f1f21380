-- ===== src/Receiver/Rate/Laws.antt =====
-- `RateTracker` counts the arrivals of the last second.
use niw_pspto_pc.Base.{
  ℕ, ◌+◌, ◌≤◌, ◌≡◌, refl, sym, ap, ◌∙◌, List, [], ◌∷◌, ◌++◌, append_assoc, append-nil, ltb, length,
  All, All-append, Bool-cases, inl, inr, arith, if◌then◌else◌,
}
use niw_pspto_pc.Receiver.Rate.{second, RateTracker, new_rate, drop_old, observe_rate}

-- The times that are not older than a second at `now`: the reference.
unfoldable pub keep_recent : ℕ → List ℕ → List ℕ
keep_recent now [] = []
keep_recent now (a ∷ times) =
    if ltb (a + second) now then keep_recent now times else a ∷ keep_recent now times

-- Times in their order.
abbrev pub Ascending : List ℕ → Type 0
Ascending [] = Unit
Ascending (a ∷ times) = All (λ b. a ≤ b) times × Ascending times

-- A tracker that has seen each of the times.
unfoldable pub observe_rates : RateTracker → List ℕ → RateTracker
observe_rates r [] = r
observe_rates r (t ∷ times) = observe_rates (observe_rate r t).0 times

-- The times go on from `n` and never back.
abbrev pub Rises : ℕ → List ℕ → Type 0
Rises n [] = Unit
Rises n (t ∷ times) = (n ≤ t) × Rises t times

abbrev pub last_of : ℕ → List ℕ → ℕ
last_of n [] = n
last_of n (t ∷ times) = last_of t times

keep_recent_whole :
    (now a : ℕ) (times : List ℕ)
    → now ≤ a + second
    → All (λ b. a ≤ b) times
    → keep_recent now times ≡ times
unfolding keep_recent
keep_recent_whole now a [] young later = refl
keep_recent_whole now a (b ∷ times) young later =
    ground (arith, keep_recent_whole now a times young later.1)

-- Dropping from the left is enough on times in their order.
pub drop_old-keep_recent :
    (now : ℕ) (times : List ℕ) → Ascending times → drop_old now times ≡ keep_recent now times
unfolding drop_old keep_recent
drop_old-keep_recent now [] h = refl
drop_old-keep_recent now (a ∷ times) h = elim (Bool-cases (ltb (a + second) now)) [
  | inl old ↦ ground (arith, drop_old-keep_recent now times h.1)
  | inr young ↦ let rest = keep_recent_whole now a times (ground arith) h.0 in ground arith
]

keep_recent-append :
    (now : ℕ) (xs ys : List ℕ)
    → keep_recent now (xs ++ ys) ≡ keep_recent now xs ++ keep_recent now ys
unfolding keep_recent
keep_recent-append now [] ys = refl
keep_recent-append now (a ∷ xs) ys = ground (arith, keep_recent-append now xs ys)

-- What is too old once is too old later.
pub keep_recent-keep_recent :
    (n now : ℕ) (times : List ℕ)
    → n ≤ now
    → keep_recent now (keep_recent n times) ≡ keep_recent now times
unfolding keep_recent
keep_recent-keep_recent n now [] h = refl
keep_recent-keep_recent n now (a ∷ times) h = ground (arith, keep_recent-keep_recent n now times h)

keep_recent-All :
    (P : ℕ → Type 0) (n : ℕ) (times : List ℕ) → All P times → All P (keep_recent n times)
unfolding keep_recent
keep_recent-All P n [] h = tt
keep_recent-All P n (a ∷ times) h = elim (Bool-cases (ltb (a + second) n)) [
  | inl old ↦ rw (old, keep_recent) (keep_recent-All P n times h.1)
  | inr young ↦ rw (young, keep_recent) (h.0, keep_recent-All P n times h.1)
]

pub keep_recent-Ascending :
    (n : ℕ) (times : List ℕ) → Ascending times → Ascending (keep_recent n times)
unfolding keep_recent
keep_recent-Ascending n [] h = tt
keep_recent-Ascending n (a ∷ times) h = elim (Bool-cases (ltb (a + second) n)) [
  | inl old ↦ rw (old, keep_recent) (keep_recent-Ascending n times h.1)
  | inr young ↦
      rw (young, keep_recent)
        (keep_recent-All (λ b. a ≤ b) n times h.0, keep_recent-Ascending n times h.1)
]

Ascending-append :
    (t : ℕ) (times : List ℕ)
    → Ascending times
    → All (λ b. b ≤ t) times
    → Ascending (times ++ t ∷ [])
Ascending-append t [] h k = (tt, tt)
Ascending-append t (a ∷ times) h k =
    (All-append (λ b. a ≤ b) times (t ∷ []) h.0 (k.0, tt), Ascending-append t times h.1 k.1)

All-later : (n t : ℕ) (times : List ℕ) → n ≤ t → All (λ b. b ≤ n) times → All (λ b. b ≤ t) times
All-later n t [] e h = tt
All-later n t (a ∷ times) e h = (omega (arith, h.0, e), All-later n t times e h.1)

observe_rate_step :
    (n t : ℕ) (seen : List ℕ) (r : RateTracker)
    → Ascending seen
    → All (λ b. b ≤ t) seen
    → n ≤ t
    → r.arrivals ≡ keep_recent n seen
    → (observe_rate r t).0.arrivals ≡ keep_recent t (seen ++ t ∷ [])
unfolding observe_rate
observe_rate_step n t seen r sorted bounded later e =
    let kept = keep_recent n seen in
    ap (λ (times : List ℕ). drop_old t (times ++ t ∷ [])) e
    ∙ drop_old-keep_recent t (kept ++ t ∷ []) (
        Ascending-append t kept (keep_recent-Ascending n seen sorted)
          (keep_recent-All (λ b. b ≤ t) n seen bounded))
    ∙ keep_recent-append t kept (t ∷ [])
    ∙ ap (λ (times : List ℕ). times ++ keep_recent t (t ∷ []))
        (keep_recent-keep_recent n t seen later)
    ∙ sym (keep_recent-append t seen (t ∷ []))

observe_rates_from :
    (n : ℕ) (seen times : List ℕ) (r : RateTracker)
    → Ascending seen
    → All (λ b. b ≤ n) seen
    → Rises n times
    → r.arrivals ≡ keep_recent n seen
    → (observe_rates r times).arrivals ≡ keep_recent (last_of n times) (seen ++ times)
unfolding observe_rates
observe_rates_from n seen [] r sorted bounded rises e =
    e ∙ ap (λ (times : List ℕ). keep_recent n times) (sym (append-nil seen))
observe_rates_from n seen (t ∷ times) r sorted bounded rises e =
    let later = All-later n t seen rises.0 bounded in
    observe_rates_from t (seen ++ t ∷ []) times (observe_rate r t).0
      (Ascending-append t seen sorted later)
      (All-append (λ b. b ≤ t) seen (t ∷ []) later (omega arith, tt)) rises.1
      (observe_rate_step n t seen r sorted later rises.0 e)
    ∙ ap (λ (all : List ℕ). keep_recent (last_of t times) all) (append_assoc seen (t ∷ []) times)

observe_rates-append :
    (r : RateTracker) (times : List ℕ) (now : ℕ)
    → (observe_rate (observe_rates r times) now).1
      ≡ length (observe_rates r (times ++ now ∷ [])).arrivals
unfolding observe_rates observe_rate
observe_rates-append r [] now = refl
observe_rates-append r (t ∷ times) now = observe_rates-append (observe_rate r t).0 times now

last_of-append : (n : ℕ) (times : List ℕ) (now : ℕ) → last_of n (times ++ now ∷ []) ≡ now
last_of-append n [] now = refl
last_of-append n (t ∷ times) now = last_of-append t times now

-- A tracker that starts empty and sees arrivals at times that never go back gives at each the number
-- of all its arrivals that are at most a second older.
pub observe_rate_counts :
    (times : List ℕ) (now : ℕ)
    → Rises 0 (times ++ now ∷ [])
    → (observe_rate (observe_rates new_rate times) now).1
      ≡ length (keep_recent now (times ++ now ∷ []))
unfolding keep_recent
observe_rate_counts times now rises =
    observe_rates-append new_rate times now
    ∙ ap (λ (xs : List ℕ). length xs)
        (observe_rates_from 0 [] (times ++ now ∷ []) new_rate tt tt rises refl
          ∙ ap (λ (last : ℕ). keep_recent last (times ++ now ∷ [])) (last_of-append 0 times now))
