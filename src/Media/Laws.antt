-- ===== src/Media/Laws.antt =====
-- What Save of internal/service/media.go stores is read back, and nothing else is touched.

use mathlib.Core.Option
use local_life_go.Prelude.{
  arith, same_text_sound, bytes, Bool-cases, Option-cases, false, ◌⊎◌, sym, same_text_refl,
  pos_part, ◌^◌, ◌≤◌, none, some, inr, ◌∙◌, inl, refl, ap, [], ◌*◌, ◌++◌, true, ◌≡◌, length,
  same_text, Text, ◌<◌,
}
use local_life_go.Media.{
  is_jpeg, is_positive, is_allowed, valid_media_url, store_image, decoded, put_file, save, uploads,
  encode, max_image_bytes, Reader, Files, Saving, read, Codecs, name_of, ImageConfig, is_media_name,
}
use local_life_go.Effects.{Result-cases, is_ok, err, Result, ok}
use local_life_go.AppError.{Fault}
use local_life_go.Media.Names.{media_type-name_of, name_of-is_media_name, type_of}
use local_life_go.Media.Store.{
  is_allowed-pixels, read_lem, store_image-failed, store_image-keeps, decoded_ok,
  store_image-Stored, save-cases,
}

-- The decoders name sides below 2^31, as those of image/jpeg and image/png do.
abbrev pub HasSides : {Image : Type 0} → Codecs Image → Type 0
HasSides codecs =
    (content : Text) (cfg : ImageConfig)
    → codecs.decode_config content ≡ some cfg
    → (pos_part cfg.width < 2 ^ 31) × (pos_part cfg.height < 2 ^ 31)

-- crypto/rand fills its 16 bytes.
abbrev pub IsFilled : Saving → Type 0
IsFilled saving = (random : Text) → saving.random ≡ ok random → length random ≡ 16

-- What an address that Save returns stands for: a new name that the blogs accept, under which Read
-- gives the image, encoded again in its own format and with its media type; the upload was at most 2 MiB,
-- and the image a JPEG or a PNG with sides above 0 and at most 16 million pixels.
abbrev pub Uploaded : {Image : Type 0} → Codecs Image → Text → Text → Files → Files → Type 0
Uploaded codecs content url files after =
    (cfg : ImageConfig) × (encoded : Text) × (name : Text) × (url ≡ uploads ++ name)
    × (valid_media_url url ≡ true)
    × (files name ≡ none)
    × ((read none true name after).0 ≡ ok (encoded, type_of cfg))
    × (codecs.decode_config content ≡ some cfg)
    × (Option.bind (codecs.decode content) (encode codecs cfg) ≡ some encoded)
    × (length content ≤ max_image_bytes)
    × ((cfg.format ≡ bytes "jpeg") ⊎ (cfg.format ≡ bytes "png"))
    × (is_positive cfg.width ≡ true)
    × (is_positive cfg.height ≡ true)
    × (pos_part cfg.width * pos_part cfg.height ≤ 16000000)

valid_media_url-append :
    (name : Text) → is_media_name name ≡ true → valid_media_url (uploads ++ name) ≡ true
unfolding valid_media_url same_text
valid_media_url-append name h = rw h refl

allowed_format :
    (cfg : ImageConfig)
    → is_allowed cfg ≡ true
    → ((cfg.format ≡ bytes "jpeg") ⊎ (cfg.format ≡ bytes "png"))
      × (is_positive cfg.width ≡ true)
      × (is_positive cfg.height ≡ true)
unfolding is_allowed
allowed_format cfg h = elim (Bool-cases (is_jpeg cfg)) [
  | inl jpeg ↦ (inl (same_text_sound cfg.format (bytes "jpeg") jpeg), ground arith, ground arith)
  | inr other ↦
      (inr (same_text_sound cfg.format (bytes "png") (ground arith)), ground arith, ground arith)
]

put_file-read :
    (name content : Text) (files : Files)
    → put_file name (some content) (put_file name (some []) files) name ≡ some content
put_file-read name content files = rw (same_text_refl name) refl

module _ {Image : Type 0} (codecs : Codecs Image) (sides : HasSides codecs) (saving : Saving)
    (filled : IsFilled saving) where
  stored-Uploaded :
      (cfg : ImageConfig) (image : Image) (content : Text) (files : Files) (url : Text)
      → decoded codecs content ≡ ok (cfg, image)
      → length content ≤ max_image_bytes
      → (store_image codecs saving cfg image files).0 ≡ ok url
      → Uploaded codecs content url files (store_image codecs saving cfg image files).1
  unfolding Option.bind
  stored-Uploaded cfg image content files url d fits h =
      let (encoded, random, (success, given, free, named, after)) =
        store_image-Stored codecs saving cfg image files url h in
      let (config, allowed, decodes) = decoded_ok codecs content cfg image d in
      let name = name_of cfg random in
      let accepted = name_of-is_media_name cfg random (filled random given) in
      let (wide, high) = sides content cfg config in
      let stored : (store_image codecs saving cfg image files).1 name ≡ some encoded =
        ap (λ (f : Files). f name) after ∙ put_file-read name encoded files in
      let (format, wide_enough, high_enough) = allowed_format cfg allowed in
      let type = media_type-name_of cfg random in
      (
        cfg,
        encoded,
        name,
        named,
        rw named (valid_media_url-append name accepted),
        free,
        rw (← type) (read_lem name encoded _ accepted stored),
        config,
        rw decodes success,
        fits,
        format,
        wide_enough,
        high_enough,
        is_allowed-pixels cfg wide high allowed,
      )

  -- An upload that succeeds was of at most 2 MiB and of a JPEG or PNG picture of at most 16,000,000
  -- pixels; its link is a media link, and reading it gives the picture encoded anew with the type of its
  -- format. The decoders are to name sides below 2^31, and the random bytes to be 16.
  pub save-Uploaded :
      (reader : Reader) (files : Files) (url : Text)
      → (save codecs saving reader files).0 ≡ ok url
      → Uploaded codecs reader.content url files (save codecs saving reader files).1
  save-Uploaded reader files url h = elim (save-cases codecs saving reader files) [
    | inl (same, failure) ↦ absurd (cc (failure, h))
    | inr (cfg, image, d, fits, stored) ↦ rw stored (
        stored-Uploaded cfg image reader.content files url d fits
          (sym (ap (λ (r : Result Text × Files). r.0) stored) ∙ h))
  ]

module _ {Image : Type 0} (codecs : Codecs Image) (saving : Saving) (reader : Reader)
    (files : Files) where
  keeps :
      (name content : Text)
      → files name ≡ some content
      → (save codecs saving reader files).1 name ≡ some content
  keeps name content there = elim (save-cases codecs saving reader files) [
    | inl (same, _) ↦ ap (λ (f : Files). f name) same ∙ there
    | inr (cfg, image, _, _, stored) ↦
        rw stored (store_image-keeps codecs saving cfg image files name content there)
  ]

  failed_clean :
      (name : Text) (e : Fault)
      → (save codecs saving reader files).0 ≡ err e
      → saving.removed ≡ true
      → (save codecs saving reader files).1 name ≡ files name
  failed_clean name e h clean = elim (save-cases codecs saving reader files) [
    | inl (same, _) ↦ ap (λ (f : Files). f name) same
    | inr (cfg, image, _, _, stored) ↦ rw stored (
        store_image-failed codecs saving cfg image files e
          (sym (ap (λ (r : Result Text × Files). r.0) stored) ∙ h) clean name)
  ]

-- Whatever an upload comes to, a file is as it was before, unless there was none of its name and the
-- upload succeeded, or failed in such a way that the new file could not be removed.
pub save-files :
    {Image : Type 0} (codecs : Codecs Image) (saving : Saving) (reader : Reader) (files : Files)
    (name : Text)
    → ((save codecs saving reader files).1 name ≡ files name)
      ⊎ ((files name ≡ none)
          × ((is_ok (save codecs saving reader files).0 ≡ true) ⊎ (saving.removed ≡ false)))
save-files codecs saving reader files name = elim (Option-cases (files name)) [
  | inr (content, there) ↦ inl (keeps codecs saving reader files name content there ∙ sym there)
  | inl free ↦ elim (Result-cases (save codecs saving reader files).0) [
    | inl (url, success) ↦ inr (free, inl (ap is_ok success))
    | inr (e, failure) ↦ elim (Bool-cases saving.removed) [
      | inl clean ↦ inl (failed_clean codecs saving reader files name e failure clean)
      | inr kept ↦ inr (free, inr kept)
    ]
  ]
]
