-- ===== src/Settings/File.antt =====
-- `load_settings` and `save_settings` of pc-server/pc_server/gui_settings.py, on a file whose text is
-- given as the JSON value that it stands for.
use niw_pspto_pc.Base.{
  ℕ, Bool, true, false, codes, List, [], ◌∷◌, Option, none, some, equals, if◌then◌else◌,
}
use niw_pspto_pc.Protocol.Pairing.{Unicode}
use niw_pspto_pc.Settings.{
  text_eq, join, GuiSettings, default_host, default_port, default_settings, valid, refused,
  validate_bind_settings,
}
use niw_pspto_pc.Settings.Number.{decimal}

-- A value that `json.loads` gives. `printed` is one of the other scalars (`null`, `true`, `false`, a
-- negative number or one with a fraction), with what `str` makes of it.
mutual
  pub data Json : Type 0 where
    string : List ℕ → Json
    integer : ℕ → Json
    printed : List ℕ → Json
    array : Items → Json
    object : Fields → Json

  pub data Items : Type 0 where
    nil : Items
    cons : Json → Items → Items

  pub data Fields : Type 0 where
    end : Fields
    field : List ℕ → Json → Fields → Fields

-- `data.get(key)`: keys are distinct in a `dict`.
unfoldable pub get : List ℕ → Fields → Option Json
get key end = none
get key (field name value fields) = if equals name key then some value else get key fields

-- A file: a JSON text, or one that is not UTF-8 or not JSON.
pub data Content : Type 0 where
  json : Json → Content
  broken : Content

-- The settings file and the temporary file beside it; `none` is one that cannot be read.
pub record Disk : Type 0 where
  pub target : Option Content
  pub temporary : Option Content

-- What `load_settings` gives; `AttributeError` is the one exception that its handler lets through.
pub data Loaded : Type 0 where
  loaded : GuiSettings → Loaded
  attribute_error : Loaded

-- `repr` of the lists and dictionaries that `str` is applied to is a parameter, and so are the tables
-- of the runtime.
module _ (repr : Json → List ℕ) (u : Unicode) (digit : ℕ → Option ℕ) where
  -- `str(value)`
  unfoldable pub str : Json → List ℕ
  unfolding decimal
  str (string text) = text
  str (integer n) = decimal n
  str (printed text) = text
  str value = repr value

  unfoldable pub str_all : Items → List (List ℕ)
  unfolding str
  str_all nil = []
  str_all (cons value items) = str value ∷ str_all items

  -- `str(data.get(key, default))`
  unfoldable pub str_or : List ℕ → Option Json → List ℕ
  unfolding str
  str_or default none = default
  str_or default (some value) = str value

  -- `validate_bind_settings`, and the settings that the handler falls back on.
  unfoldable pub validated_or_default : List ℕ → List ℕ → List ℕ → GuiSettings
  unfolding validate_bind_settings
  validated_or_default host port allowed_hosts =
      elim (validate_bind_settings u digit host port allowed_hosts) [
        | valid settings ↦ settings
        | refused e ↦ default_settings
      ]

  unfoldable pub load_fields : Fields → Option Json → GuiSettings
  unfolding str_all str_or validated_or_default get join
  load_fields fields none =
      validated_or_default (str_or default_host (get (codes "host") fields))
        (str_or (decimal default_port) (get (codes "port") fields)) []
  load_fields fields (some (array items)) =
      validated_or_default (str_or default_host (get (codes "host") fields))
        (str_or (decimal default_port) (get (codes "port") fields))
        (join (codes ", ") (str_all items))
  load_fields fields (some _) = default_settings

  unfoldable pub load_settings : Disk → Loaded
  unfolding load_fields
  load_settings disk = elim disk.target [
    | none ↦ loaded default_settings
    | some broken ↦ loaded default_settings
    | some (json (object fields)) ↦ loaded (load_fields fields (get (codes "allowed_hosts") fields))
    | some (json _) ↦ attribute_error
  ]

unfoldable pub items_of : List (List ℕ) → Items
items_of [] = nil
items_of (text ∷ texts) = cons (string text) (items_of texts)

-- `asdict(settings)`
unfoldable pub asdict : GuiSettings → Json
unfolding items_of
asdict settings = object (
    field (codes "host") (string settings.host) (
      field (codes "port") (integer settings.port)
        (field (codes "allowed_hosts") (array (items_of settings.allowed_hosts)) end)))

-- Which of the file operations return: `mkdir`, `write_text` and `replace`. The others raise
-- `OSError`.
pub record FileSystem : Type 0 where
  pub creates : Bool
  pub writes : Bool
  pub replaces : Bool

-- The file behind it, and whether it returns. A write that fails may leave a part of the text.
unfoldable pub save_settings : FileSystem → GuiSettings → Disk → Disk × Bool
unfolding asdict
save_settings files settings disk =
    if files.creates
    then if files.writes
      then if files.replaces
        then (record { target = some (json (asdict settings)); temporary = none }, true)
        else (record disk { temporary = some (json (asdict settings)) }, false)
      else (record disk { temporary = some broken }, false)
    else (disk, false)
