-- ===== src/Http/Profile/Images.antt =====
-- The detection of a photo's type (detectImage and formatToMimeType of
-- backend/internal/adapters/http/profile/handler.go).
use llm_dating_app.Prelude.{ℕ, Option, none, some, Text}
use llm_dating_app.Domain.Profile.{MimeType}

-- The format that `image.DecodeConfig` names.
pub data Format : Type 0 where
  jpeg_format png_format webp_format other_format : Format

unfoldable pub format_to_mime_type : Format → Option MimeType
format_to_mime_type jpeg_format = some MimeType.jpeg
format_to_mime_type png_format = some MimeType.png
format_to_mime_type webp_format = some MimeType.webp
format_to_mime_type other_format = none

pub record ImageConfig : Type 0 where
  pub format : Format
  pub width : ℕ
  pub height : ℕ

pub record Detected : Type 0 where
  pub mime_type : MimeType
  pub width : ℕ
  pub height : ℕ

abbrev pub detected : ImageConfig → Option MimeType → Option Detected
detected c none = none
detected c (some m) = some (record { mime_type = m; width = c.width; height = c.height })

abbrev pub detected_config : Option ImageConfig → Option Detected
detected_config none = none
detected_config (some c) = detected c (format_to_mime_type c.format)

unfoldable pub detect_image : (Text → Option ImageConfig) → Text → Option Detected
unfolding format_to_mime_type
detect_image decode_config content = detected_config (decode_config content)
