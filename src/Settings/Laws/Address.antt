-- ===== src/Settings/Laws/Address.antt =====
-- Addresses and lists of them are read as they were printed.
use niw_pspto_pc.Base.{
  ℕ, ◌<◌, ◌≡◌, refl, sym, true, false, List, [], ◌∷◌, ◌++◌, All, All-append, none, some, ◌==◌,
  equals, nat_eq, option_eq, option_beq_iff, length, length-append, arith, Option-cases, inl, inr,
}
use mathlib.Core.Option.{some-injective}
use niw_pspto_pc.Base.Bits.{all_below, all_below_sound}
use niw_pspto_pc.Settings.{split, join, parse_octet, Ipv4Address, parse_address, address_text, four}
use niw_pspto_pc.Settings.Number.{decimal}
use niw_pspto_pc.Settings.Laws.Text.{IsPlain, split-plain, split_first, All-weaken}
use niw_pspto_pc.Settings.Laws.Number.{IsDigit, digit-IsPlain, decimal-IsDigit}

abbrev pub IsAddress : Ipv4Address → Type 0
IsAddress a = (a.first < 256) × (a.second < 256) × (a.third < 256) × (a.fourth < 256)

octet_table : all_below 256 (λ n. equals (parse_octet (decimal n)) (some n)) ≡ true
unfolding all_below parse_octet decimal
octet_table = refl

parse_octet-decimal : (n : ℕ) → n < 256 → parse_octet (decimal n) ≡ some n
parse_octet-decimal n h =
    (option_beq_iff (parse_octet (decimal n)) (some n)).0 (all_below_sound 256 _ n octet_table h)

digit_no_point : (c : ℕ) → IsDigit c → (c == b'.') ≡ false
digit_no_point c h = ground arith

no_point : (n : ℕ) → All (λ c. (c == b'.') ≡ false) (decimal n)
no_point n = All-weaken IsDigit _ (decimal n) digit_no_point (decimal-IsDigit n)

decimal-IsPlain : (n : ℕ) → All IsPlain (decimal n)
decimal-IsPlain n = All-weaken IsDigit IsPlain (decimal n) digit-IsPlain (decimal-IsDigit n)

abbrev point : List ℕ → List ℕ → List ℕ
point word rest = word ++ b'.' ∷ rest

address_text_eq :
    (a : Ipv4Address)
    → address_text a
      ≡ point
          (decimal a.first)
          (point (decimal a.second) (point (decimal a.third) (decimal a.fourth)))
unfolding address_text join
address_text_eq a = refl

pub address_text_filled : (a : Ipv4Address) → (length (address_text a) == 0) ≡ false
address_text_filled a = rw (address_text_eq a) (
    ground (
      arith,
      length-append (decimal a.first)
          (b'.' ∷ point (decimal a.second) (point (decimal a.third) (decimal a.fourth))),
    ))

pub address_text-IsPlain : (a : Ipv4Address) → All IsPlain (address_text a)
address_text-IsPlain a = rw (address_text_eq a) (
    All-append IsPlain (decimal a.first) _ (decimal-IsPlain a.first) (
      refl,
      All-append IsPlain (decimal a.second) _ (decimal-IsPlain a.second) (
        refl,
        All-append IsPlain (decimal a.third) _ (decimal-IsPlain a.third)
            (refl, decimal-IsPlain a.fourth),
      ),
    ))

split_address :
    (a : Ipv4Address)
    → split b'.' (address_text a)
      ≡ decimal a.first ∷ decimal a.second ∷ decimal a.third ∷ decimal a.fourth ∷ []
split_address a =
    rw
      (
        address_text_eq a,
        split_first b'.' (decimal a.first)
            (point (decimal a.second) (point (decimal a.third) (decimal a.fourth)))
            (no_point a.first),
        split_first b'.' (decimal a.second) (point (decimal a.third) (decimal a.fourth))
            (no_point a.second),
        split_first b'.' (decimal a.third) (decimal a.fourth) (no_point a.third),
        split-plain b'.' (decimal a.fourth) (no_point a.fourth),
      )
      refl

-- An address is read as it was printed.
pub parse_address-address_text :
    (a : Ipv4Address) → IsAddress a → parse_address (address_text a) ≡ some a
unfolding parse_address
parse_address-address_text a (h1, h2, h3, h4) =
    rw
      (
        parse_address,
        split_address a,
        parse_octet-decimal a.first h1,
        parse_octet-decimal a.second h2,
        parse_octet-decimal a.third h3,
        parse_octet-decimal a.fourth h4,
      )
      refl

-- What is read is an address.
parse_octet_small : (text : List ℕ) {n : ℕ} → parse_octet text ≡ some n → n < 256
unfolding parse_octet
parse_octet_small text e = ground arith

four-IsAddress :
    (s t v w : List ℕ) {a : Ipv4Address}
    → four (parse_octet s) (parse_octet t) (parse_octet v) (parse_octet w) ≡ some a
    → IsAddress a
four-IsAddress s t v w {a} e = elim (Option-cases (parse_octet s)) [
  | inl bad ↦ absurd (ground arith)
  | inr (x, ex) ↦ elim (Option-cases (parse_octet t)) [
    | inl bad ↦ absurd (ground arith)
    | inr (y, ey) ↦ elim (Option-cases (parse_octet v)) [
      | inl bad ↦ absurd (ground arith)
      | inr (z, ez) ↦ elim (Option-cases (parse_octet w)) [
        | inl bad ↦ absurd (ground arith)
        | inr (o, eo) ↦ rw (sym (some-injective _ _ (rw (ex, ey, ez, eo) at e))) (
          parse_octet_small s ex,
          parse_octet_small t ey,
          parse_octet_small v ez,
          parse_octet_small w eo,
        )
      ]
    ]
  ]
]

pub parse_address-IsAddress :
    (text : List ℕ) {a : Ipv4Address} → parse_address text ≡ some a → IsAddress a
parse_address-IsAddress text {a} e = go (split b'.' text) (unfold parse_address in e)
  where
    go :
        (words : List (List ℕ))
        → (elim words [
          | s ∷ t ∷ v ∷ w ∷ [] ↦
              four (parse_octet s) (parse_octet t) (parse_octet v) (parse_octet w)
          | _ ↦ none
        ])
          ≡ some a
        → IsAddress a
    go (s ∷ t ∷ v ∷ w ∷ []) h = four-IsAddress s t v w h
    go _ h = absurd (ground (arith, h))
