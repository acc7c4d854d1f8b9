-- ===== src/Media.antt =====
-- Uploaded images (internal/service/media.go). The files of the upload directory stand by their names;
-- decoding and encoding of images are the library's.
pub mod Names
pub mod Store
pub mod Laws
use local_life_go.Prelude.{
  pos_part, [], none, is_some, all, pos, some, not, ◌/◌, ◌^◌, drop, ◌==◌, ◌-◌, take, ltb_ℤ, bytes,
  ltb, ◌&&◌, same_text, ◌++◌, length, ◌∷◌, ◌%◌, leb, ◌||◌, Text, ◌*◌, if◌then◌else◌, ℤ, Option,
  Bool, ℕ, zero, suc, ◌+◌,
}
use local_life_go.Effects.{
  map_result, wrap_error, from_result, ◌>>=◌, fail_if, ok, check_context, err, ◌>>◌, Result, M,
  pure,
}
use local_life_go.AppError.{Fault, Kind}

abbrev pub Files : Type 0
Files = Text → Option Text

abbrev pub put_file : Text → Option Text → Files → Files
put_file name content files other = if same_text other name then content else files other

abbrev pub max_image_bytes : ℕ
max_image_bytes = 2 * 1024 * 1024

-- What a reader gives: its bytes, and whether it then fails.
pub record Reader : Type 0 where
  pub content : Text
  pub fails : Bool

-- io.ReadAll(io.LimitReader(reader, limit))
abbrev pub read_all : ℕ → Reader → Result Text
read_all limit reader =
    if leb limit (length reader.content)
    then ok (take limit reader.content)
    else if reader.fails
    then err (Fault.wrap Kind.validation Fault.other)
    else ok reader.content

-- The header of an image, as image.DecodeConfig names its format.
pub record ImageConfig : Type 0 where
  pub format : Text
  pub width : ℤ
  pub height : ℤ

-- The decoders and the encoders; `none` is an error.
pub record Codecs (Image : Type 0) : Type 0 where
  pub decode_config : Text → Option ImageConfig
  pub decode : Text → Option Image
  pub encode_jpeg : Image → Option Text
  pub encode_png : Image → Option Text

abbrev pub is_jpeg : ImageConfig → Bool
is_jpeg cfg = same_text cfg.format (bytes "jpeg")

abbrev pub is_positive : ℤ → Bool
is_positive z = ltb_ℤ (pos 0) z

-- int64(cfg.Width) * int64(cfg.Height) > 16000000 of positive numbers: the product wraps round, and
-- its upper half is negative.
abbrev pub has_too_many_pixels : ℕ → Bool
has_too_many_pixels product = let p = product % 2 ^ 64 in ltb 16000000 p && ltb p (2 ^ 63)

unfoldable pub is_allowed : ImageConfig → Bool
is_allowed cfg =
    (is_jpeg cfg || same_text cfg.format (bytes "png"))
    && is_positive cfg.width
    && is_positive cfg.height
    && not (has_too_many_pixels (pos_part cfg.width * pos_part cfg.height))

allowed_config : Option ImageConfig → Result ImageConfig
unfolding is_allowed
allowed_config none = err (Fault.wrap Kind.validation Fault.other)
allowed_config (some cfg) = if is_allowed cfg then ok cfg else err (Fault.new Kind.validation)

abbrev pub or_fail : {A : Type 0} → Kind → Option A → Result A
or_fail kind none = err (Fault.wrap kind Fault.other)
or_fail kind (some a) = ok a

-- hex.EncodeToString
abbrev pub hex_digit : ℕ → ℕ
hex_digit n = if ltb n 10 then b'0' + n else b'a' + (n - 10)

unfoldable pub hex : Text → Text
hex [] = []
hex (b ∷ bs) = hex_digit (b / 16 % 16) ∷ hex_digit (b % 16) ∷ hex bs

abbrev pub extension : ImageConfig → Text
extension cfg = if is_jpeg cfg then bytes "jpg" else bytes "png"

unfoldable pub name_of : ImageConfig → Text → Text
unfolding hex
name_of cfg random = hex random ++ bytes "." ++ extension cfg

abbrev pub is_hex : ℕ → Bool
is_hex c = (leb b'0' c && leb c b'9') || (leb b'a' c && leb c b'f')

-- `^[0-9a-f]{32}\.(jpg|png)$`
unfoldable pub is_media_name : Text → Bool
is_media_name name =
    (length name == 36)
    && all is_hex (take 32 name)
    && (same_text (drop 32 name) (bytes ".jpg") || same_text (drop 32 name) (bytes ".png"))

abbrev pub uploads : Text
uploads = bytes "/uploads/"

-- strings.HasPrefix and strings.TrimPrefix
unfoldable pub valid_media_url : Text → Bool
unfolding is_media_name
valid_media_url url =
    same_text (take (length uploads) url) uploads && is_media_name (drop (length uploads) url)

-- What surrounds a call of Save: the context at its two checks, the random bytes, whether the
-- directory can be made and the file opened, what of the file is written if a write or the close
-- fails, and whether its removal then succeeds.
pub record Saving : Type 0 where
  pub before : Option Fault
  pub decoded : Option Fault
  pub random : Result Text
  pub made_dir : Bool
  pub may_open : Bool
  pub partial : Option Text
  pub removed : Bool

-- os.OpenFile with O_CREATE and O_EXCL: a file that is there is not touched.
abbrev open_new : Bool → Text → M Files (Unit {0})
open_new may_open name files =
    if may_open && not (is_some (files name))
    then (ok tt, put_file name (some []) files)
    else (err (Fault.wrap Kind.dependency Fault.other), files)

-- Write, Close, and Remove where one of them fails.
abbrev write_file : Saving → Text → Text → M Files (Unit {0})
write_file saving name content files = elim saving.partial [
  | none ↦ (ok tt, put_file name (some content) files)
  | some part ↦ (
    err (Fault.new Kind.dependency),
    put_file name (if saving.removed then none else some part) files,
  )
]

module _ {Image : Type 0} (codecs : Codecs Image) where
  abbrev pub encode : ImageConfig → Image → Option Text
  encode cfg image = if is_jpeg cfg then codecs.encode_jpeg image else codecs.encode_png image

  -- DecodeConfig, its tests, and Decode.
  unfoldable pub decoded : Text → Result (ImageConfig × Image)
  unfolding allowed_config
  decoded content = elim (allowed_config (codecs.decode_config content)) [
    | err e ↦ err e
    | ok cfg ↦ map_result (λ image. (cfg, image)) (or_fail Kind.validation (codecs.decode content))
  ]

  -- What Save does with a decoded image.
  unfoldable pub store_image : Saving → ImageConfig → Image → M Files Text
  unfolding name_of
  store_image saving cfg image = do
    check_context saving.decoded
    encoded ← from_result (or_fail Kind.internal (encode cfg image))
    random ← from_result (wrap_error (Fault.wrap Kind.internal) saving.random)
    fail_if (not saving.made_dir) (Fault.wrap Kind.dependency Fault.other)
    open_new saving.may_open (name_of cfg random)
    write_file saving (name_of cfg random) encoded
    pure (uploads ++ name_of cfg random)

  unfoldable pub save : Saving → Reader → M Files Text
  unfolding decoded store_image
  save saving reader = do
    check_context saving.before
    content ← from_result (read_all (max_image_bytes + 1) reader)
    fail_if (ltb max_image_bytes (length content)) (Fault.new Kind.validation)
    image ← from_result (decoded content)
    store_image saving image.0 image.1

-- strings.HasSuffix(name, ".jpg"), on a name of the pattern.
abbrev pub media_type : Text → Text
media_type name =
    if same_text (drop (length name - 4) name) (bytes ".jpg")
    then bytes "image/jpeg"
    else bytes "image/png"

-- os.ReadFile
abbrev pub read_file : Bool → Text → Files → Result Text
read_file can_read name files = elim (files name) [
  | none ↦ err (Fault.wrap Kind.not_found Fault.other)
  | some content ↦ if can_read then ok content else err (Fault.wrap Kind.dependency Fault.other)
]

unfoldable pub read : Option Fault → Bool → Text → M Files (Text × Text)
unfolding is_media_name
read ctx can_read name = do
  fail_if (not (is_media_name name)) (Fault.new Kind.not_found)
  check_context ctx
  content ← (λ files. (read_file can_read name files, files))
  pure (content, media_type name)
