-- ===== src/Tests/Images.antt =====
-- Image headers and downloaded files.
use emlynk_wabot.Prelude.{
  ◌+◌, ◌≡◌, ◌≢◌, none, some, [], ◌∷◌, ◌++◌, Text, codes, arith, refl, text_eq,
}
use emlynk_wabot.Images.{
  ImageFormat, Scan, scan_jpeg, read_jpeg, read_png, png_signature, read_image_dimensions,
}
use emlynk_wabot.Images.Jpeg.{scan_jpeg-ends}
use emlynk_wabot.Images.Frames.{
  Segment, IsSkipped, with_segments, frame_header, read_image_dimensions-frame,
}
use emlynk_wabot.Images.Files.{FileReason, file_signature_matches, validate_document_file}

-- An APP0 segment, as in most files.
abbrev application_data : Segment
application_data = record { marker = 0xe0; payload = codes "JFIF" }

application_data-IsSkipped : IsSkipped application_data
application_data-IsSkipped = record {
  not_fill = refl;
  has_length = refl;
  not_frame = refl;
  not_data = refl;
}

abbrev header : Text
header = frame_header 0xc0 17 8 480 640 (1 ∷ 2 ∷ [])

scan_jpeg-ends_example :
    (scan_jpeg 20 header ≢ Scan.out_of_fuel) × (scan_jpeg (20 + 5) header ≡ scan_jpeg 20 header)
scan_jpeg-ends_example = scan_jpeg-ends 20 5 header (omega arith)

read_image_dimensions-frame_example :
    read_image_dimensions (0xff ∷ (0xd8 ∷ with_segments (application_data ∷ []) header))
    ≡ some (record { format = ImageFormat.jpeg; width = 640; height = 480 })
read_image_dimensions-frame_example =
    read_image_dimensions-frame (application_data ∷ []) 0xc0 17 8 480 640 (1 ∷ 2 ∷ [])
      (application_data-IsSkipped, tt) refl (omega arith) (omega arith) (omega arith)

-- A fill byte and a restart marker before the frame header are passed over, an empty segment length is
-- refused, and a file that ends too early has no size.
filled :
    read_image_dimensions (0xff ∷ (0xd8 ∷ (0xff ∷ (0xff ∷ (0xd0 ∷ header)))))
    ≡ some (record { format = ImageFormat.jpeg; width = 640; height = 480 })
unfolding read_image_dimensions read_jpeg scan_jpeg text_eq
filled = refl

cut_short : read_image_dimensions (0xff ∷ (0xd8 ∷ (0xff ∷ (0xc0 ∷ (0 ∷ (17 ∷ [])))))) ≡ none
unfolding read_image_dimensions read_jpeg scan_jpeg text_eq
cut_short = refl

picture :
    read_image_dimensions (
      png_signature
      ++ ((0 ∷ 0 ∷ 0 ∷ 13 ∷ []) ++ (codes "IHDR" ++ (0 ∷ 0 ∷ 2 ∷ 128 ∷ 0 ∷ 0 ∷ 1 ∷ 224 ∷ []))))
    ≡ some (record { format = ImageFormat.png; width = 640; height = 480 })
unfolding read_image_dimensions read_png text_eq
picture = refl

renamed_program :
    validate_document_file (some (codes "image/png")) (some 100) (some (codes "MZ"))
    ≡ some FileReason.file_signature_mismatch
unfolding validate_document_file file_signature_matches text_eq
renamed_program = refl

plain_pdf :
    validate_document_file (some (codes "application/pdf")) (some 100) (some (codes " %PDF-1.4"))
    ≡ none
unfolding validate_document_file file_signature_matches text_eq
plain_pdf = refl
