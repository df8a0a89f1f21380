-- ===== src/Settings/Laws/Text.antt =====
-- Splitting, stripping and joining texts of digits and points.
use niw_pspto_pc.Base.{
  ℕ, ◌≡◌, refl, ap, ◌∙◌, true, false, ◌&&◌, ◌||◌, List, [], ◌∷◌, ◌++◌, All, leb, ◌==◌, arith,
}
use mathlib.Core.List.{reverse, reverse_aux, reverse-reverse}
use niw_pspto_pc.Protocol.Pairing.{Unicode, IsUnicode, lstrip, strip}
use niw_pspto_pc.Settings.{split, replace}

-- A digit or a point.
abbrev pub IsPlain : ℕ → Type 0
IsPlain c = (leb b'0' c && leb c b'9' || c == b'.') ≡ true

All-reverse_aux :
    (P : ℕ → Type 0) (xs ys : List ℕ) → All P xs → All P ys → All P (reverse_aux xs ys)
All-reverse_aux P [] ys h k = k
All-reverse_aux P (x ∷ xs) ys h k = All-reverse_aux P xs (x ∷ ys) h.1 (h.0, k)

module _ (u : Unicode) (facts : IsUnicode u) where
  plain_no_space : (c : ℕ) → IsPlain c → u.is_space c ≡ false
  plain_no_space c h = ground (arith, facts.space c (ground arith))

  lstrip-plain : (text : List ℕ) → All IsPlain text → lstrip u text ≡ text
  unfolding lstrip
  lstrip-plain [] h = refl
  lstrip-plain (c ∷ text) h = rw (plain_no_space c h.0) refl

  pub strip-plain : (text : List ℕ) → All IsPlain text → strip u text ≡ text
  unfolding strip
  strip-plain text h =
      rw (lstrip-plain text h, lstrip-plain (reverse text) (All-reverse_aux IsPlain text [] h tt))
        (reverse-reverse text)

  lstrip_space : (text : List ℕ) → lstrip u (b' ' ∷ text) ≡ lstrip u text
  unfolding lstrip
  lstrip_space text = rw (facts.space b' ' (omega arith)) refl

  pub strip_space : (text : List ℕ) → All IsPlain text → strip u (b' ' ∷ text) ≡ text
  strip_space text h = stripped ∙ strip-plain text h
    where
      stripped : strip u (b' ' ∷ text) ≡ strip u text
      stripped = unfold strip in ap (λ t. reverse (lstrip u (reverse t))) (lstrip_space text)

pub split-plain :
    (c : ℕ) (text : List ℕ) → All (λ x. (x == c) ≡ false) text → split c text ≡ text ∷ []
unfolding split
split-plain c [] h = refl
split-plain c (x ∷ text) h = rw (h.0, split-plain c text h.1) refl

-- A word without the separator is split off in front of it.
pub split_first :
    (c : ℕ) (word rest : List ℕ)
    → All (λ x. (x == c) ≡ false) word
    → split c (word ++ c ∷ rest) ≡ word ∷ split c rest
unfolding split
split_first c [] rest h = let same : (c == c) ≡ true = ground arith in rw same refl
split_first c (x ∷ word) rest h = rw (h.0, split_first c word rest h.1) refl

pub All-weaken :
    (P Q : ℕ → Type 0) (text : List ℕ) → ((c : ℕ) → P c → Q c) → All P text → All Q text
All-weaken P Q [] weaken h = tt
All-weaken P Q (c ∷ text) weaken h = (weaken c h.0, All-weaken P Q text weaken h.1)

pub replace-plain :
    (old new : ℕ) (text : List ℕ) → All (λ x. (x == old) ≡ false) text → replace old new text ≡ text
replace-plain old new [] h = refl
replace-plain old new (x ∷ text) h = rw (h.0, replace-plain old new text h.1) refl
