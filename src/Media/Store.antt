-- ===== src/Media/Store.antt =====
-- The branches of Save (internal/service/media.go).
use native.Mathlib.Nat.{mul-le-mul}
use local_life_go.Prelude.{
  not, ◌&&◌, Bool, ◌||◌, pos_part, ◌^◌, same_text_sound, ◌⊎◌, Option-cases, length-take, false, ltb,
  ◌≤◌, none, some, inr, inl, refl, Bool-cases, [], arith, ◌*◌, ◌++◌, true, bytes, ◌≡◌, length,
  same_text, Text, ◌<◌, ℕ, ◌+◌,
}
use local_life_go.Media.{
  is_positive, has_too_many_pixels, store_image, decoded, put_file, save, uploads, encode,
  max_image_bytes, is_allowed, read_all, Reader, Files, Saving, read, Codecs, is_jpeg, media_type,
  name_of, ImageConfig, is_media_name,
}
use local_life_go.Effects.{err, is_ok, Result-cases, ok}
use local_life_go.AppError.{Fault}

-- Reading a file under a name of the pattern.
pub read_lem :
    (name content : Text) (files : Files)
    → is_media_name name ≡ true
    → files name ≡ some content
    → (read none true name files).0 ≡ ok (content, media_type name)
unfolding read
read_lem name content files m e = ground (arith, m, e)

le_of_not_ltb : (a b : ℕ) → ltb a b ≡ false → b ≤ a
le_of_not_ltb a b h = ground arith

read_all_small :
    (limit : ℕ) (reader : Reader) (content : Text)
    → read_all (limit + 1) reader ≡ ok content
    → length content ≤ limit
    → (content ≡ reader.content) × (length reader.content ≤ limit)
read_all_small limit reader content e small =
    ground (arith, e, length-take (limit + 1) reader.content)

module _ {Image : Type 0} (codecs : Codecs Image) where
  pub decoded_ok :
      (content : Text) (cfg : ImageConfig) (image : Image)
      → decoded codecs content ≡ ok (cfg, image)
      → (codecs.decode_config content ≡ some cfg)
        × (is_allowed cfg ≡ true)
        × (codecs.decode content ≡ some image)
  unfolding decoded
  decoded_ok content cfg image h = elim (Option-cases (codecs.decode_config content)) [
    | inl bad ↦ absurd (ground (arith, h, bad))
    | inr (c, good) ↦
        ground (arith, h, good, Bool-cases (is_allowed c), Option-cases (codecs.decode content))
  ]

  -- An image under a new name.
  abbrev pub Stored : Saving → ImageConfig → Image → Files → Text → Text → Text → Type 0
  Stored saving cfg image files url encoded random =
      (encode codecs cfg image ≡ some encoded)
      × (saving.random ≡ ok random)
      × (files (name_of cfg random) ≡ none)
      × (url ≡ uploads ++ name_of cfg random)
      × ((store_image codecs saving cfg image files).1
          ≡ put_file (name_of cfg random) (some encoded)
              (put_file (name_of cfg random) (some []) files))

  pub store_image-Stored :
      (saving : Saving) (cfg : ImageConfig) (image : Image) (files : Files) (url : Text)
      → (store_image codecs saving cfg image files).0 ≡ ok url
      → (encoded : Text) × (random : Text) × Stored saving cfg image files url encoded random
  unfolding store_image
  store_image-Stored saving cfg image files url h = elim (Option-cases (encode codecs cfg image)) [
    | inl failure ↦ absurd (ground (arith, h, failure, Option-cases saving.decoded))
    | inr (encoded, success) ↦ elim (Result-cases saving.random) [
      | inr (e, failure) ↦ absurd (ground (arith, h, success, failure, Option-cases saving.decoded))
      | inl (random, given) ↦ (
        encoded,
        random,
        ground (
          arith,
          h,
          success,
          given,
          Option-cases saving.decoded,
          Bool-cases saving.made_dir,
          Bool-cases saving.may_open,
          Option-cases saving.partial,
          Option-cases (files (name_of cfg random)),
        ),
      )
    ]
  ]

  -- No file that was there is touched.
  pub store_image-keeps :
      (saving : Saving) (cfg : ImageConfig) (image : Image) (files : Files) (name content : Text)
      → files name ≡ some content
      → (store_image codecs saving cfg image files).1 name ≡ some content
  unfolding store_image
  store_image-keeps saving cfg image files name content there = elim (Result-cases saving.random) [
    | inr (e, failure) ↦
        ground (
          arith,
          there,
          failure,
          Option-cases saving.decoded,
          Option-cases (encode codecs cfg image),
        )
    | inl (random, given) ↦ ground (
      arith,
      there,
      given,
      same_text_sound name (name_of cfg random),
      Option-cases saving.decoded,
      Option-cases (encode codecs cfg image),
      Bool-cases saving.made_dir,
      Bool-cases saving.may_open,
      Option-cases saving.partial,
      Option-cases (files (name_of cfg random)),
    )
  ]

  -- A failure whose file could be removed leaves nothing.
  pub store_image-failed :
      (saving : Saving) (cfg : ImageConfig) (image : Image) (files : Files) (e : Fault)
      → (store_image codecs saving cfg image files).0 ≡ err e
      → saving.removed ≡ true
      → (name : Text) → (store_image codecs saving cfg image files).1 name ≡ files name
  unfolding store_image
  store_image-failed saving cfg image files e h clean name = elim (Result-cases saving.random) [
    | inr (e', failure) ↦
        ground (arith, failure, Option-cases saving.decoded, Option-cases (encode codecs cfg image))
    | inl (random, given) ↦ ground (
      arith,
      h,
      clean,
      given,
      same_text_sound name (name_of cfg random),
      Option-cases saving.decoded,
      Option-cases (encode codecs cfg image),
      Bool-cases saving.made_dir,
      Bool-cases saving.may_open,
      Option-cases saving.partial,
      Option-cases (files (name_of cfg random)),
    )
  ]

  pub save-cases :
      (saving : Saving) (reader : Reader) (files : Files)
      → (((save codecs saving reader files).1 ≡ files)
          × (is_ok (save codecs saving reader files).0 ≡ false))
        ⊎ ((cfg : ImageConfig) × (image : Image) × (decoded codecs reader.content ≡ ok (cfg, image))
            × (length reader.content ≤ max_image_bytes)
            × (save codecs saving reader files ≡ store_image codecs saving cfg image files))
  unfolding save
  save-cases saving reader files = elim (Result-cases (read_all (max_image_bytes + 1) reader)) [
    | inr (e, failure) ↦ inl (ground (arith, failure, Option-cases saving.before))
    | inl (content, got) ↦ elim (Bool-cases (ltb max_image_bytes (length content))) [
      | inl large ↦ inl (ground (arith, got, large, Option-cases saving.before))
      | inr small ↦
          let (same, fits) =
            read_all_small max_image_bytes reader content got
              (le_of_not_ltb max_image_bytes (length content) small) in
          elim (Result-cases (decoded codecs content)) [
            | inr (e, failure) ↦
                inl (ground (arith, got, small, failure, Option-cases saving.before))
            | inl (image, success) ↦ elim (Option-cases saving.before) [
              | inr (e, over) ↦ inl (ground (arith, over))
              | inl go ↦
                  inr
                    (image.0, image.1, rw (← same) success, fits, rw (go, got, small, success) refl)
            ]
          ]
    ]
  ]

not_too_many :
    (a b : ℕ) → a < 2 ^ 31 → b < 2 ^ 31 → has_too_many_pixels (a * b) ≡ false → a * b ≤ 16000000
not_too_many a b h k few =
    let bound : a * b ≤ 2 ^ 31 * 2 ^ 31 =
      mul-le-mul {n₂ = 2 ^ 31} {m₂ = 2 ^ 31} (omega arith) (omega arith) in
    ground (arith, bound, few)

last_test : (a b c x : Bool) → (a && b && c && not x) ≡ true → x ≡ false
last_test a b c x h = ground arith

pub is_allowed-pixels :
    (cfg : ImageConfig)
    → pos_part cfg.width < 2 ^ 31
    → pos_part cfg.height < 2 ^ 31
    → is_allowed cfg ≡ true
    → pos_part cfg.width * pos_part cfg.height ≤ 16000000
unfolding is_allowed
is_allowed-pixels cfg w h allowed = not_too_many (pos_part cfg.width) (pos_part cfg.height) w h (
    last_test (is_jpeg cfg || same_text cfg.format (bytes "png")) (is_positive cfg.width)
      (is_positive cfg.height) _ allowed)
