-- ===== src/Tests/Files.antt =====
-- The first bytes of a PDF.
use markaz.Prelude.{ℕ, ◌≤◌, ◌≡◌, ◌↔◌, some, List, [], ◌∷◌, length}
use markaz.Attachments.{pdf, detect_content_type}
use markaz.Attachments.Laws.{HasSignature, detect_content_type_iff}

abbrev rest_of_file : List ℕ
rest_of_file = 80 ∷ 68 ∷ 70 ∷ 45 ∷ 49 ∷ 46 ∷ 55 ∷ 10 ∷ 37 ∷ 37 ∷ 37 ∷ []

detect_content_type_iff_example :
    (detect_content_type (37 ∷ rest_of_file) ≡ some pdf)
    ↔ ((12 ≤ length (37 ∷ rest_of_file)) × HasSignature pdf (37 ∷ rest_of_file))
detect_content_type_iff_example = detect_content_type_iff (37 ∷ rest_of_file) pdf
