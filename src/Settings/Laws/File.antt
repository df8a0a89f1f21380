-- ===== src/Settings/Laws/File.antt =====
-- Saving and loading the settings.
use niw_pspto_pc.Base.{
  ℕ, ◌≡◌, refl, ap, ◌∙◌, Bool, true, false, codes, List, [], ◌∷◌, Option, none, some, arith,
  if◌then◌else◌,
}
use niw_pspto_pc.Protocol.Pairing.{Unicode, IsUnicode}
use niw_pspto_pc.Settings.{
  GuiSettings, Validated, valid, refused, default_settings, validate_bind_settings, join,
  address_text, default_host, default_port,
}
use niw_pspto_pc.Settings.Number.{decimal}
use niw_pspto_pc.Settings.File.{
  Json, array, object, Fields, Content, json, broken, Disk, Loaded, loaded, attribute_error,
  str_all, str_or, get, str, validated_or_default, load_fields, load_settings, items_of, asdict,
  FileSystem, save_settings,
}
use niw_pspto_pc.Settings.Laws.Number.{IsDecimal}
use niw_pspto_pc.Settings.Laws.RoundTrip.{IsPrinted, AreDistinct, IsValid, validate-print}
use niw_pspto_pc.Settings.Laws.Validity.{validate_bind_settings-IsValid}

abbrev pub is_object : Json → Bool
is_object (object fields) = true
is_object _ = false

-- What `load_settings` may give: valid settings, or the exception, if the file holds a JSON value that
-- is no object.
pub Gives : Disk → Loaded → Type 0
Gives disk (loaded settings) = IsValid settings
Gives disk attribute_error =
    (value : Json) × (disk.target ≡ some (json value)) × (is_object value ≡ false)

default_IsValid : IsValid default_settings
unfolding IsPrinted AreDistinct address_text
default_IsValid = record {
  host = (record { first = 0; second = 0; third = 0; fourth = 0 }, omega arith, refl);
  port_low = omega arith;
  port_high = omega arith;
  allowed = tt;
  distinct = tt;
}

module _ (repr : Json → List ℕ) (u : Unicode) (digit : ℕ → Option ℕ) where
  str_all-items_of : (texts : List (List ℕ)) → str_all repr u digit (items_of texts) ≡ texts
  unfolding items_of str_all
  str_all-items_of [] = refl
  str_all-items_of (text ∷ texts) = ap (λ rest. text ∷ rest) (str_all-items_of texts)

  validated_or_default-IsValid :
      (host port allowed : List ℕ) → IsValid (validated_or_default repr u digit host port allowed)
  unfolding validated_or_default
  validated_or_default-IsValid host port allowed =
      go (validate_bind_settings u digit host port allowed) refl
    where
      go :
          (result : Validated GuiSettings)
          → validate_bind_settings u digit host port allowed ≡ result
          → IsValid (elim result [ valid settings ↦ settings | refused e ↦ default_settings ])
      go (valid settings) e = validate_bind_settings-IsValid u digit host port allowed e
      go (refused x) e = default_IsValid

  load_fields-IsValid :
      (fields : Fields) (value : Option Json) → IsValid (load_fields repr u digit fields value)
  unfolding load_fields
  load_fields-IsValid fields none =
      validated_or_default-IsValid (str_or repr u digit default_host (get (codes "host") fields))
        (str_or repr u digit (decimal default_port) (get (codes "port") fields)) []
  load_fields-IsValid fields (some (array items)) =
      validated_or_default-IsValid (str_or repr u digit default_host (get (codes "host") fields))
        (str_or repr u digit (decimal default_port) (get (codes "port") fields))
        (join (codes ", ") (str_all repr u digit items))
  load_fields-IsValid fields (some _) = default_IsValid

  load_target :
      (target temporary : Option Content)
      → Gives
          (record { target = target; temporary = temporary })
          (load_settings repr u digit (record { target = target; temporary = temporary }))
  unfolding load_settings Gives
  load_target none temporary = default_IsValid
  load_target (some broken) temporary = default_IsValid
  load_target (some (json (object fields))) temporary =
      load_fields-IsValid fields (get (codes "allowed_hosts") fields)
  load_target (some (json value)) temporary = (value, refl, refl)

  -- Whatever the file holds, `load_settings` gives valid settings, or it raises the `AttributeError`
  -- of a JSON value that is no object.
  pub load_settings-Gives : (disk : Disk) → Gives disk (load_settings repr u digit disk)
  load_settings-Gives disk = load_target disk.target disk.temporary

  load_stored :
      (settings : GuiSettings) (temporary : Option Content)
      → load_settings repr u digit
          (record { target = some (json (asdict settings)); temporary = temporary })
        ≡ loaded (
            validated_or_default repr u digit settings.host
              (decimal settings.port)
              (join (codes ", ") (str_all repr u digit (items_of settings.allowed_hosts))))
  unfolding load_settings asdict get load_fields str_or str
  load_stored settings temporary = refl

  validated_valid :
      (settings : GuiSettings)
      → IsUnicode u
      → IsDecimal digit
      → IsValid settings
      → validated_or_default repr u digit settings.host
          (decimal settings.port)
          (join (codes ", ") settings.allowed_hosts)
        ≡ settings
  unfolding validated_or_default
  validated_valid settings runtime decimals v =
      rw (validated_or_default, validate-print u runtime digit settings decimals v) refl

  load_saved :
      (settings : GuiSettings) (temporary : Option Content)
      → IsUnicode u
      → IsDecimal digit
      → IsValid settings
      → load_settings repr u digit
          (record { target = some (json (asdict settings)); temporary = temporary })
        ≡ loaded settings
  load_saved settings temporary runtime decimals v =
      load_stored settings temporary
      ∙ rw (str_all-items_of settings.allowed_hosts)
          (ap loaded (validated_valid settings runtime decimals v))

  -- `save_settings` is all or nothing: where it returns, loading gives the settings that were saved, if
  -- they are valid; where it raises, at whichever of its file operations, loading gives what it gave
  -- before.
  pub load_settings-save_settings :
      (files : FileSystem) (settings : GuiSettings) (disk : Disk)
      → IsUnicode u
      → IsDecimal digit
      → IsValid settings
      → load_settings repr u digit (save_settings files settings disk).0 ≡ (
          if (save_settings files settings disk).1
          then loaded settings
          else load_settings repr u digit disk)
  load_settings-save_settings files settings disk runtime decimals v =
      go files.creates files.writes files.replaces
    where
      go :
          (creates writes replaces : Bool)
          → let files : FileSystem = record {
            creates = creates;
            writes = writes;
            replaces = replaces;
          } in
            load_settings repr u digit (save_settings files settings disk).0 ≡ (
              if (save_settings files settings disk).1
              then loaded settings
              else load_settings repr u digit disk)
      go true true true = unfold save_settings in load_saved settings none runtime decimals v
      go true true false = unfold save_settings load_settings in refl
      go true false replaces = unfold save_settings load_settings in refl
      go false writes replaces = unfold save_settings in refl
