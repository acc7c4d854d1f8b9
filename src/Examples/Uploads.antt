-- ===== src/Examples/Uploads.antt =====
-- Uploads to a small directory (internal/service/media.go).
use local_life_go.Prelude.{
  pos, ◌⊎◌, true, false, some, refl, ◌≡◌, same_text, none, Text, bytes, arith,
}
use local_life_go.Media.{save, decoded, store_image, hex, is_allowed, Saving, Reader, Codecs, Files}
use local_life_go.Media.Laws.{HasSides, IsFilled, Uploaded, save-Uploaded, save-files}
use local_life_go.Effects.{is_ok, ok}

-- Each text is a PNG image of one pixel, and its own encoding.
abbrev plain : Codecs Text
plain = record {
  decode_config = λ _. some (record { format = bytes "png"; width = pos 1; height = pos 1 });
  decode = λ s. some s;
  encode_jpeg = λ s. some s;
  encode_png = λ s. some s;
}

plain-HasSides : HasSides plain
plain-HasSides content cfg e = ground (arith, e)

abbrev quiet : Saving
quiet = record {
  before = none;
  decoded = none;
  random = ok (bytes "0123456789abcdef");
  made_dir = true;
  may_open = true;
  partial = none;
  removed = true;
}

quiet-IsFilled : IsFilled quiet
quiet-IsFilled random e = ground (arith, e)

abbrev empty : Files
empty _ = none

abbrev upload : Reader
upload = record { content = bytes "image"; fails = false }

abbrev url : Text
url = bytes "/uploads/30313233343536373839616263646566.png"

save-Uploaded_example : Uploaded plain (bytes "image") url empty (save plain quiet upload empty).1
unfolding save decoded store_image hex same_text is_allowed
save-Uploaded_example =
    save-Uploaded plain plain-HasSides quiet quiet-IsFilled upload empty url refl

-- The disk is full, and the file is removed.
abbrev full : Saving
full = record {
  before = none;
  decoded = none;
  random = ok (bytes "0123456789abcdef");
  made_dir = true;
  may_open = true;
  partial = some (bytes "im");
  removed = true;
}

save-files_example :
    ((save plain full upload empty).1 (bytes "30313233343536373839616263646566.png") ≡ none)
    ⊎ ((empty (bytes "30313233343536373839616263646566.png") ≡ none)
        × ((is_ok (save plain full upload empty).0 ≡ true) ⊎ (full.removed ≡ false)))
save-files_example =
    save-files plain full upload empty (bytes "30313233343536373839616263646566.png")
