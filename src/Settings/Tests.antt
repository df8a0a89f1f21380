-- ===== src/Settings/Tests.antt =====
-- Concrete settings, with the tables of ASCII.
use niw_pspto_pc.Base.{
  ℕ, ◌-◌, ◌≡◌, refl, true, false, ◌&&◌, codes, List, [], ◌∷◌, Option, none, some, leb, arith,
  if◌then◌else◌,
}
use niw_pspto_pc.Base.Dict.{member, add}
use niw_pspto_pc.Protocol.Pairing.{Unicode, IsUnicode, ascii_space, ascii_upper, strip}
use niw_pspto_pc.Settings.{
  GuiSettings, valid, refused, bad_host, no_number, port_out_of_range, bad_allowed_host,
  validate_bind_settings, join,
}
use niw_pspto_pc.Settings.Number.{decimal}
use niw_pspto_pc.Settings.File.{
  Json, array, nil, Disk, json, loaded, attribute_error, load_settings, FileSystem, save_settings,
}
use niw_pspto_pc.Settings.Laws.Number.{IsDecimal}
use niw_pspto_pc.Settings.Laws.RoundTrip.{IsValid, validate-print}
use niw_pspto_pc.Settings.Laws.Validity.{validate_bind_settings-IsValid}
use niw_pspto_pc.Settings.Laws.File.{Gives, load_settings-Gives, load_settings-save_settings}

abbrev ascii : Unicode
ascii = record { is_space = ascii_space; upper = λ c. ascii_upper c ∷ [] }

ascii-IsUnicode : IsUnicode ascii
ascii-IsUnicode = record { space = λ c h. refl; upper = λ c h. refl }

abbrev ascii_digit : ℕ → Option ℕ
ascii_digit c = if leb b'0' c && leb c b'9' then some (c - b'0') else none

ascii_digit-IsDecimal : IsDecimal ascii_digit
unfolding IsDecimal
ascii_digit-IsDecimal d h = ground arith

-- What `repr` would give does not matter here.
abbrev no_repr : Json → List ℕ
no_repr value = codes "?"

abbrev home : GuiSettings
home = record {
  host = codes "192.168.0.7";
  port = 47999;
  allowed_hosts = codes "192.168.0.20" ∷ codes "10.0.0.1" ∷ [];
}

validated :
    validate_bind_settings ascii ascii_digit
      (codes " 192.168.0.7 ")
      (codes "+47_999")
      (codes "192.168.0.20; 10.0.0.1,,192.168.0.20")
    ≡ valid home
unfolding validate_bind_settings strip member add
validated = refl

refused_texts :
    (validate_bind_settings ascii ascii_digit (codes "192.168.0.07") (codes "1") []
      ≡ refused bad_host)
    × (validate_bind_settings ascii ascii_digit (codes "0.0.0.0") (codes "1__0") []
        ≡ refused no_number)
    × (validate_bind_settings ascii ascii_digit (codes "0.0.0.0") (codes "-1") []
        ≡ refused port_out_of_range)
    × (validate_bind_settings ascii ascii_digit (codes "0.0.0.0") (codes "1") (codes "psp")
        ≡ refused (bad_allowed_host (codes "psp")))
unfolding validate_bind_settings strip
refused_texts = (refl, refl, refl, refl)

home-IsValid : IsValid home
home-IsValid =
    validate_bind_settings-IsValid ascii ascii_digit (codes " 192.168.0.7 ") (codes "+47_999")
      (codes "192.168.0.20; 10.0.0.1,,192.168.0.20") validated

validate_bind_settings-IsValid_example : IsValid home
validate_bind_settings-IsValid_example =
    validate_bind_settings-IsValid ascii ascii_digit (codes " 192.168.0.7 ") (codes "+47_999")
      (codes "192.168.0.20; 10.0.0.1,,192.168.0.20") validated

validate-print_example :
    validate_bind_settings ascii ascii_digit home.host
      (decimal home.port)
      (join (codes ", ") home.allowed_hosts)
    ≡ valid home
validate-print_example =
    validate-print ascii ascii-IsUnicode ascii_digit home ascii_digit-IsDecimal home-IsValid

abbrev full_disk : FileSystem
full_disk = record { creates = true; writes = false; replaces = true }

-- A file that holds a list.
abbrev list_file : Disk
list_file = record { target = some (json (array nil)); temporary = none }

list_file_raises : load_settings no_repr ascii ascii_digit list_file ≡ attribute_error
unfolding load_settings
list_file_raises = refl

load_settings-Gives_example : Gives list_file (load_settings no_repr ascii ascii_digit list_file)
load_settings-Gives_example = load_settings-Gives no_repr ascii ascii_digit list_file

abbrev no_file : Disk
no_file = record { target = none; temporary = none }

load_settings-save_settings_example :
    load_settings no_repr ascii ascii_digit (save_settings full_disk home no_file).0 ≡ (
      if (save_settings full_disk home no_file).1
      then loaded home
      else load_settings no_repr ascii ascii_digit no_file)
load_settings-save_settings_example =
    load_settings-save_settings no_repr ascii ascii_digit full_disk home no_file ascii-IsUnicode
      ascii_digit-IsDecimal home-IsValid
