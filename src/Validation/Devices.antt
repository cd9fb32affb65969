-- ===== src/Validation/Devices.antt =====
-- The texts of src/application/validation_service.cpp: mount sources, UUIDs, and the two ways in
-- which a command line maps an encrypted device.
use limine_manager.Prelude.{
  ℕ, ◌+◌, Bool, true, false, not, ◌&&◌, ◌||◌, Option, none, some, [], ◌∷◌, leb, ◌==◌, if◌then◌else◌,
  length, is_empty, drop, all_of, map, Text, text, text_eq, starts_with, ends_with, has_char,
  before_char, Result, ok, err,
}
use limine_manager.FilePath.{FilePath}
use limine_manager.FileSystem.{FileSystem}

pub normalize_mount_source : Text → Text
normalize_mount_source source =
    if has_char b'[' source && ends_with source (b']' ∷ []) then before_char b'[' source else source

-- std::isxdigit in the C locale
is_xdigit : ℕ → Bool
is_xdigit c = (leb b'0' c && leb c b'9') || (leb b'a' c && leb c b'f') || (leb b'A' c && leb c b'F')

pub valid_uuid : Text → Bool
unfolding is_xdigit
valid_uuid value = not (is_empty value) && all_of (λ ch. is_xdigit ch || ch == b'-') value

-- std::tolower in the C locale
unfoldable pub to_lower : ℕ → ℕ
to_lower c = if leb b'A' c && leb c b'Z' then c + 32 else c

pub lowercase : Text → Text
lowercase value = map to_lower value

pub same_uuid : Text → Text → Bool
same_uuid left right =
    not (is_empty left) && not (is_empty right) && text_eq (lowercase left) (lowercase right)

pub data DeviceReferenceKind : Type 0 where
  uuid partuuid path unknown : DeviceReferenceKind

pub record DeviceReference : Type 0 where
  pub kind : DeviceReferenceKind
  pub value : Text

pub record EncryptionMapping : Type 0 where
  pub source : DeviceReference
  pub mapper : Text

pub parse_device_reference : Text → DeviceReference
parse_device_reference value =
    if starts_with value (text "UUID=")
    then record { kind = uuid; value = drop (length (text "UUID=")) value }
    else if starts_with value (text "PARTUUID=")
    then record { kind = partuuid; value = drop (length (text "PARTUUID=")) value }
    else if starts_with value (text "/dev/")
    then record { kind = path; value = value }
    else record { kind = unknown; value = value }

is_unknown : DeviceReferenceKind → Bool
is_unknown uuid = false
is_unknown partuuid = false
is_unknown path = false
is_unknown unknown = true

-- substr(find(c) + 1) of a text that has the character
after_char : ℕ → Text → Text
after_char c value = drop (length (before_char c value) + 1) value

pub parse_cryptdevice : Text → Option EncryptionMapping
unfolding is_unknown after_char
parse_cryptdevice value =
    let source = parse_device_reference (before_char b':' value) in
    let mapper = before_char b':' (after_char b':' value) in
    if not (has_char b':' value)
    then none
    else if is_unknown source.kind || is_empty source.value
    then none
    else if is_empty mapper
    then none
    else some (record { source = source; mapper = mapper })

pub parse_rd_luks_name : Text → Option EncryptionMapping
unfolding after_char
parse_rd_luks_name value =
    let named = before_char b'=' value in
    if not (valid_uuid named)
    then none
    else some (record {
      source = record { kind = uuid; value = named };
      mapper = if has_char b'=' value then after_char b'=' value else [];
    })

-- the try block of `same_device_path` and its catch
compare_canonical : Text → Text → Result FilePath → Result FilePath → Bool
compare_canonical left right (ok a) (ok b) = text_eq a b
compare_canonical left right (ok a) (err e) = text_eq left right
compare_canonical left right (err e) b = text_eq left right

pub same_device_path : FileSystem → Text → Text → Bool
unfolding compare_canonical
same_device_path filesystem left right =
    if is_empty left || is_empty right
    then false
    else compare_canonical left right (filesystem.canonical left) (filesystem.canonical right)

-- the switch on the kind of the reference
source_identifies : FileSystem → DeviceReferenceKind → Text → Text → Text → Text → Bool
source_identifies filesystem uuid value luks_uuid partition device = same_uuid value luks_uuid
source_identifies filesystem partuuid value luks_uuid partition device = same_uuid value partition
source_identifies filesystem path value luks_uuid partition device =
    same_device_path filesystem value device
source_identifies filesystem unknown value luks_uuid partition device = false

pub mapping_identifies_root : EncryptionMapping → Text → Text → Text → Text → FileSystem → Bool
unfolding source_identifies
mapping_identifies_root mapping mapper_name luks_uuid partition device filesystem =
    if not (is_empty mapping.mapper) && text_eq mapping.mapper mapper_name
    then true
    else source_identifies filesystem mapping.source.kind mapping.source.value luks_uuid partition
        device

identified : Option EncryptionMapping → Text → Text → Text → Text → FileSystem → Bool
identified none mapper_name luks_uuid partition device filesystem = false
identified (some mapping) mapper_name luks_uuid partition device filesystem =
    mapping_identifies_root mapping mapper_name luks_uuid partition device filesystem

-- the two lambdas of `validate`
pub maps_cryptdevice : Text → Text → Text → Text → FileSystem → Text → Bool
unfolding identified
maps_cryptdevice mapper_name luks_uuid partition device filesystem value =
    identified (parse_cryptdevice value) mapper_name luks_uuid partition device filesystem

pub maps_sd_encrypt : Text → Text → Text → Text → FileSystem → Text → Bool
unfolding identified
maps_sd_encrypt mapper_name luks_uuid partition device filesystem value =
    identified (parse_rd_luks_name value) mapper_name luks_uuid partition device filesystem
