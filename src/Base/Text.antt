-- ===== src/Base/Text.antt =====
-- Python's `in` on texts, as lists of code points.
use Prim.Native.Nat.{ℕ}
use Prim.Native.String.{String}
use mathlib.Core.Bool.{Bool, true, false, ◌&&◌, ◌||◌}
use mathlib.Core.List.{List, [], ◌∷◌}
use niw_pspto_pc.Base.Tests.{◌==◌}
use niw_pspto_pc.Base.Lists.{codes}

abbrev pub has_prefix : List ℕ → List ℕ → Bool
has_prefix [] text = true
has_prefix (p ∷ word) [] = false
has_prefix (p ∷ word) (c ∷ text) = (p == c) && has_prefix word text

-- `word in text`
abbrev pub occurs_in : List ℕ → List ℕ → Bool
occurs_in word [] = has_prefix word []
occurs_in word (c ∷ text) = has_prefix word (c ∷ text) || occurs_in word text

abbrev pub has_word : String → List ℕ → Bool
has_word word text = occurs_in (codes word) text
