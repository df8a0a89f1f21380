-- ===== src/Settings/Laws/RoundTrip.antt =====
-- Settings that validation gives are read back from their own texts and from the file.
use niw_pspto_pc.Base.{
  ℕ, ◌≤◌, ◌≡◌, refl, ap, ◌∙◌, true, false, ◌&&◌, codes, List, [], ◌∷◌, ◌++◌, All, All-append,
  Option, leb, ◌==◌, map, arith, append_assoc, append-nil,
}
use niw_pspto_pc.Base.Dict.{member, add, member-add}
use niw_pspto_pc.Protocol.Pairing.{Unicode, IsUnicode, strip}
use niw_pspto_pc.Settings.{
  text_eq, split, join, Ipv4Address, address_text, GuiSettings, valid, collect_hosts,
  validate_hosts, validate_bind_settings,
}
use niw_pspto_pc.Settings.Number.{decimal}
use niw_pspto_pc.Settings.Laws.Text.{
  IsPlain, strip-plain, strip_space, split-plain, split_first, replace-plain, All-weaken,
}
use niw_pspto_pc.Settings.Laws.Number.{IsDecimal, parse_int-decimal}
use niw_pspto_pc.Settings.Laws.Address.{
  IsAddress, parse_address-address_text, address_text-IsPlain, address_text_filled,
}

-- A text that is an address as it is printed.
unfoldable pub IsPrinted : List ℕ → Type 0
IsPrinted text = (a : Ipv4Address) × IsAddress a × (text ≡ address_text a)

-- No text occurs twice.
unfoldable pub AreDistinct : List (List ℕ) → Type 0
AreDistinct [] = Unit
AreDistinct (text ∷ texts) = (member text texts ≡ false) × AreDistinct texts

pub record IsValid (settings : GuiSettings) : Type 0 where
  pub host : IsPrinted settings.host
  pub port_low : 1 ≤ settings.port
  pub port_high : settings.port ≤ 65535
  pub allowed : All IsPrinted settings.allowed_hosts
  pub distinct : AreDistinct settings.allowed_hosts

printed-IsPlain : (text : List ℕ) → IsPrinted text → All IsPlain text
unfolding IsPrinted
printed-IsPlain text (a, fine, e) = rw e (address_text-IsPlain a)

no_comma : (c : ℕ) → IsPlain c → (c == b',') ≡ false
no_comma c h = ground arith

no_semicolon : (c : ℕ) → IsPlain c → (c == b';') ≡ false
no_semicolon c h = ground arith

-- What follows the first address of a list, once it is split.
abbrev spaced : List (List ℕ) → List (List ℕ)
spaced texts = map (λ text. b' ' ∷ text) texts

split-spaced :
    (text : List ℕ) (texts : List (List ℕ))
    → All IsPlain text
    → All IsPrinted texts
    → split b',' (b' ' ∷ join (codes ", ") (text ∷ texts)) ≡ spaced (text ∷ texts)
unfolding join
split-spaced text [] h k =
    split-plain b',' (b' ' ∷ text) (refl, All-weaken IsPlain _ text no_comma h)
split-spaced text (next ∷ texts) h k =
    split_first b',' (b' ' ∷ text) _ (refl, All-weaken IsPlain _ text no_comma h)
    ∙ ap (λ rest. (b' ' ∷ text) ∷ rest) (split-spaced next texts (printed-IsPlain next k.0) k.1)

split_joined :
    (text : List ℕ) (texts : List (List ℕ))
    → All IsPlain text
    → All IsPrinted texts
    → split b',' (join (codes ", ") (text ∷ texts)) ≡ text ∷ spaced texts
unfolding join
split_joined text [] h k = split-plain b',' text (All-weaken IsPlain _ text no_comma h)
split_joined text (next ∷ texts) h k =
    split_first b',' text _ (All-weaken IsPlain _ text no_comma h)
    ∙ ap (λ rest. text ∷ rest) (split-spaced next texts (printed-IsPlain next k.0) k.1)

joined_no_semicolon :
    (texts : List (List ℕ))
    → All IsPrinted texts
    → All (λ c. (c == b';') ≡ false) (join (codes ", ") texts)
unfolding join
joined_no_semicolon [] h = tt
joined_no_semicolon (text ∷ []) h =
    All-weaken IsPlain _ text no_semicolon (printed-IsPlain text h.0)
joined_no_semicolon (text ∷ next ∷ texts) h =
    All-append _ text _ (All-weaken IsPlain _ text no_semicolon (printed-IsPlain text h.0))
      (refl, (refl, joined_no_semicolon (next ∷ texts) h.1))

-- An address that was not seen goes behind the others.
collect_new :
    (u : Unicode) (value text : List ℕ) (values allowed seen : List (List ℕ))
    → strip u value ≡ text
    → IsPrinted text
    → member text seen ≡ false
    → collect_hosts u (value ∷ values) allowed seen
      ≡ collect_hosts u values (allowed ++ text ∷ []) (add text seen)
unfolding IsPrinted collect_hosts
collect_new u value text values allowed seen stripped (a, fine, e) new =
    rw
      (
        collect_hosts,
        stripped ∙ e,
        address_text_filled a,
        parse_address-address_text a fine,
        rw e at new,
      )
      (rw e refl)

-- No text of the list was seen.
IsFresh : List (List ℕ) → List ℕ → Type 0
IsFresh seen text = member text seen ≡ false

IsFresh-after :
    (text : List ℕ) (texts seen : List (List ℕ))
    → member text texts ≡ false
    → All (IsFresh seen) texts
    → All (IsFresh (add text seen)) texts
unfolding IsFresh member
IsFresh-after text [] seen h k = tt
IsFresh-after text (t ∷ texts) seen h k = (
  ground (arith, member-add text t seen, text_eq.beq_iff t text, text_eq.beq_iff text t),
  IsFresh-after text texts seen (ground (arith, h)) k.1,
)

module _ (u : Unicode) (facts : IsUnicode u) where
  collect_spaced :
      (texts allowed seen : List (List ℕ))
      → All IsPrinted texts
      → AreDistinct texts
      → All (IsFresh seen) texts
      → collect_hosts u (spaced texts) allowed seen ≡ valid (allowed ++ texts)
  unfolding AreDistinct IsFresh
  collect_spaced [] allowed seen h d k = unfold collect_hosts in rw (append-nil allowed) refl
  collect_spaced (text ∷ texts) allowed seen h d k =
      collect_new u (b' ' ∷ text) text (spaced texts) allowed seen
        (strip_space u facts text (printed-IsPlain text h.0)) h.0 k.0
      ∙ collect_spaced texts (allowed ++ text ∷ []) (add text seen) h.1 d.1
          (IsFresh-after text texts seen d.0 k.1)
      ∙ ap valid (append_assoc allowed (text ∷ []) texts)

  no_text_seen : (texts : List (List ℕ)) → All (IsFresh []) texts
  unfolding IsFresh member
  no_text_seen [] = tt
  no_text_seen (text ∷ texts) = (refl, no_text_seen texts)

  collect_joined :
      (texts : List (List ℕ))
      → All IsPrinted texts
      → AreDistinct texts
      → collect_hosts u (split b',' (join (codes ", ") texts)) [] [] ≡ valid texts
  unfolding AreDistinct strip
  collect_joined [] h d = unfold collect_hosts join split in refl
  collect_joined (text ∷ texts) h d = rw (split_joined text texts (printed-IsPlain text h.0) h.1) (
      collect_new u text text (spaced texts) [] []
        (strip-plain u facts text (printed-IsPlain text h.0)) h.0 (unfold member in refl)
      ∙ collect_spaced texts (text ∷ []) (add text []) h.1 d.1
          (IsFresh-after text texts [] d.0 (no_text_seen texts)))

  -- Valid settings, written out as the settings window shows them, are validated to themselves.
  pub validate-print :
      (digit : ℕ → Option ℕ) (settings : GuiSettings)
      → IsDecimal digit
      → IsValid settings
      → validate_bind_settings u digit settings.host
          (decimal settings.port)
          (join (codes ", ") settings.allowed_hosts)
        ≡ valid settings
  unfolding validate_bind_settings IsPrinted
  validate-print digit settings decimals v =
      let (a, fine, e) = v.host in
      let positive : (leb 1 settings.port && leb settings.port 65535) ≡ true =
        ground (arith, v.port_low, v.port_high) in
      rw
        (
          validate_bind_settings,
          strip-plain u facts settings.host (printed-IsPlain settings.host v.host) ∙ e,
          parse_address-address_text a fine,
          parse_int-decimal digit decimals u settings.port 5 facts (omega arith)
              (omega (arith, v.port_high)),
          positive,
          validate_hosts,
          replace-plain b';' b',' _ (joined_no_semicolon settings.allowed_hosts v.allowed),
          collect_joined settings.allowed_hosts v.allowed v.distinct,
        )
        (rw e refl)
