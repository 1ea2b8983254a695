-- ===== src/Attachments/Laws.antt =====
-- The type of a file does not depend on the order of the checks.
use markaz.Prelude.{
  ℕ, ◌≤◌, ◌≡◌, ◌≢◌, ◌↔◌, refl, inl, inr, Bool, true, false, ◌&&◌, Option, none, some, List, ◌∷◌, [],
  ◌++◌, ap, ap₂, subst, arith, Bool-cases, ltb, length, sym, ◌∙◌, if◌then◌else◌,
}
use markaz.Attachments.{
  AttachmentContentType, pdf, png, jpeg, webp, starts_here, drop_bytes, starts_with, pdf_signature,
  png_signature, jpeg_signature, riff_signature, webp_signature, detect_content_type,
}

-- The code's test for each type.
abbrev has_signature : AttachmentContentType → List ℕ → Bool
has_signature pdf bytes = starts_with bytes pdf_signature 0
has_signature png bytes = starts_with bytes png_signature 0
has_signature jpeg bytes = starts_with bytes jpeg_signature 0
has_signature webp bytes = starts_with bytes riff_signature 0 && starts_with bytes webp_signature 8

-- The first byte that a signature asks for.
first_byte : AttachmentContentType → ℕ
first_byte pdf = 37
first_byte png = 137
first_byte jpeg = 255
first_byte webp = 82

first_byte_lem :
    (t : AttachmentContentType) (b : ℕ) (bytes : List ℕ)
    → has_signature t (b ∷ bytes) ≡ true
    → b ≡ first_byte t
unfolding first_byte
first_byte_lem pdf b bytes h = ground arith
first_byte_lem png b bytes h = ground arith
first_byte_lem jpeg b bytes h = ground arith
first_byte_lem webp b bytes h = ground arith

-- The chain of checks, on their answers.
abbrev chain : Bool → Bool → Bool → Bool → Bool → Option AttachmentContentType
chain short is_pdf is_png is_jpeg is_webp =
    if short
    then none
    else if is_pdf
    then some pdf
    else if is_png
    then some png
    else if is_jpeg
    then some jpeg
    else if is_webp
    then some webp
    else none

abbrev answer : AttachmentContentType → Bool → Bool → Bool → Bool → Bool
answer pdf p g j w = p
answer png p g j w = g
answer jpeg p g j w = j
answer webp p g j w = w

chain_iff :
    (t : AttachmentContentType) (short p g j w : Bool)
    → (p ≡ true → g ≡ false)
    → (p ≡ true → j ≡ false)
    → (p ≡ true → w ≡ false)
    → (g ≡ true → j ≡ false)
    → (g ≡ true → w ≡ false)
    → (j ≡ true → w ≡ false)
    → (chain short p g j w ≡ some t) ↔ ((short ≡ false) × (answer t p g j w ≡ true))
chain_iff pdf short p g j w a b c d e f =
    ((λ h. (ground arith, ground arith)), λ (l, h). ground arith)
chain_iff png short p g j w a b c d e f =
    ((λ h. (ground arith, ground arith)), λ (l, h). ground arith)
chain_iff jpeg short p g j w a b c d e f =
    ((λ h. (ground arith, ground arith)), λ (l, h). ground arith)
chain_iff webp short p g j w a b c d e f =
    ((λ h. (ground arith, ground arith)), λ (l, h). ground arith)

apart :
    (t u : AttachmentContentType) (b : ℕ) (bytes : List ℕ)
    → first_byte t ≢ first_byte u
    → has_signature t (b ∷ bytes) ≡ true
    → has_signature u (b ∷ bytes) ≡ false
apart t u b bytes ne h = elim (Bool-cases (has_signature u (b ∷ bytes))) [
  | inl also ↦ absurd (ne (sym (first_byte_lem t b bytes h) ∙ first_byte_lem u b bytes also))
  | inr no_sign ↦ no_sign
]

shown :
    (t : AttachmentContentType) (bytes : List ℕ)
    → answer t
        (has_signature pdf bytes)
        (has_signature png bytes)
        (has_signature jpeg bytes)
        (has_signature webp bytes)
      ≡ has_signature t bytes
shown pdf bytes = refl
shown png bytes = refl
shown jpeg bytes = refl
shown webp bytes = refl

long_enough : (n : ℕ) → (ltb n 12 ≡ false) ↔ (12 ≤ n)
long_enough n = ((λ h. ground arith), λ h. ground arith)

detected_iff :
    (b : ℕ) (bytes : List ℕ) (t : AttachmentContentType)
    → (detect_content_type (b ∷ bytes) ≡ some t)
      ↔ ((12 ≤ length (b ∷ bytes)) × (has_signature t (b ∷ bytes) ≡ true))
unfolding detect_content_type first_byte
detected_iff b bytes t =
    let all = b ∷ bytes in
    let iff =
      chain_iff t (ltb (length all) 12) (has_signature pdf all) (has_signature png all)
        (has_signature jpeg all) (has_signature webp all)
        (apart pdf png b bytes (λ e. absurd (omega (arith, e))))
        (apart pdf jpeg b bytes (λ e. absurd (omega (arith, e))))
        (apart pdf webp b bytes (λ e. absurd (omega (arith, e))))
        (apart png jpeg b bytes (λ e. absurd (omega (arith, e))))
        (apart png webp b bytes (λ e. absurd (omega (arith, e))))
        (apart jpeg webp b bytes (λ e. absurd (omega (arith, e)))) in
    let size = long_enough (length all) in
    (
      (λ h. let (long, is) = iff.0 h in (size.0 long, sym (shown t all) ∙ is)),
      λ (long, is). iff.1 (size.1 long, shown t all ∙ is),
    )

-- What the file formats say of the first bytes: "%PDF-", the eight bytes of PNG, the three of JPEG, and
-- "RIFF", four bytes of length and "WEBP".
abbrev pub HasSignature : AttachmentContentType → List ℕ → Type 0
HasSignature pdf bytes = (rest : List ℕ) × (bytes ≡ 37 ∷ 80 ∷ 68 ∷ 70 ∷ 45 ∷ rest)
HasSignature png bytes = (rest : List ℕ) × (bytes ≡ 137 ∷ 80 ∷ 78 ∷ 71 ∷ 13 ∷ 10 ∷ 26 ∷ 10 ∷ rest)
HasSignature jpeg bytes = (rest : List ℕ) × (bytes ≡ 255 ∷ 216 ∷ 255 ∷ rest)
HasSignature webp bytes =
    (i j k l : ℕ) × (rest : List ℕ) × (bytes
      ≡ 82 ∷ 73 ∷ 70 ∷ 70 ∷ i ∷ j ∷ k ∷ l ∷ 87 ∷ 69 ∷ 66 ∷ 80 ∷ rest)

starts_here_inv :
    (bytes signature : List ℕ)
    → starts_here bytes signature ≡ true
    → (rest : List ℕ) × (bytes ≡ signature ++ rest)
starts_here_inv bytes [] h = (bytes, refl)
starts_here_inv [] (s ∷ signature) h = absurd (ground arith)
starts_here_inv (b ∷ bytes) (s ∷ signature) h =
    let (rest, same) = starts_here_inv bytes signature (ground arith) in
    let first : b ≡ s = ground arith in (rest, ap₂ (λ x xs. x ∷ xs) first same)

-- After four bytes.
four_on :
    (bytes : List ℕ)
    → starts_here (drop_bytes 4 bytes) webp_signature ≡ true
    → (i j k l : ℕ) × (rest : List ℕ) × (bytes ≡ i ∷ j ∷ k ∷ l ∷ 87 ∷ 69 ∷ 66 ∷ 80 ∷ rest)
four_on [] h = absurd (ground arith)
four_on (i ∷ []) h = absurd (ground arith)
four_on (i ∷ j ∷ []) h = absurd (ground arith)
four_on (i ∷ j ∷ k ∷ []) h = absurd (ground arith)
four_on (i ∷ j ∷ k ∷ l ∷ bytes) h =
    let (rest, same) = starts_here_inv bytes webp_signature h in
    (i, j, k, l, rest, ap (λ t. i ∷ j ∷ k ∷ l ∷ t) same)

left_true : (a b : Bool) → a && b ≡ true → a ≡ true
left_true a b h = ground arith

right_true : (a b : Bool) → a && b ≡ true → b ≡ true
right_true a b h = ground arith

has_signature-HasSignature :
    (t : AttachmentContentType) (bytes : List ℕ)
    → (has_signature t bytes ≡ true) ↔ HasSignature t bytes
has_signature-HasSignature pdf bytes =
    ((λ h. starts_here_inv bytes pdf_signature h), λ (rest, same). rw same refl)
has_signature-HasSignature png bytes =
    ((λ h. starts_here_inv bytes png_signature h), λ (rest, same). rw same refl)
has_signature-HasSignature jpeg bytes =
    ((λ h. starts_here_inv bytes jpeg_signature h), λ (rest, same). rw same refl)
has_signature-HasSignature webp bytes = (
  (λ h.
      let (after, same) = starts_here_inv bytes riff_signature (left_true _ _ h) in
      let at : starts_here (drop_bytes 4 after) webp_signature ≡ true =
        subst (λ x. starts_here (drop_bytes 8 x) webp_signature ≡ true) same
          (right_true (starts_with bytes riff_signature 0) (starts_with bytes webp_signature 8)
            h) in
      let (i, j, k, l, rest, then_on) = four_on after at in
      (i, j, k, l, rest, same ∙ ap (λ t. 82 ∷ 73 ∷ 70 ∷ 70 ∷ t) then_on)),
  λ (i, j, k, l, rest, same). rw same refl,
)

-- A file is taken for a type exactly when it has twelve bytes or more and begins as the format of that
-- type says: no file is taken for a type that it does not show, and no order of the checks matters.
pub detect_content_type_iff :
    (bytes : List ℕ) (t : AttachmentContentType)
    → (detect_content_type bytes ≡ some t) ↔ ((12 ≤ length bytes) × HasSignature t bytes)
unfolding detect_content_type
detect_content_type_iff [] t = ((λ h. absurd (ground arith)), λ (long, is). absurd (omega arith))
detect_content_type_iff (b ∷ bytes) t =
    let all = b ∷ bytes in
    let iff = detected_iff b bytes t in
    let shown_iff = has_signature-HasSignature t all in
    (
      (λ h. let (long, is) = iff.0 h in (long, shown_iff.0 is)),
      λ (long, is). iff.1 (long, shown_iff.1 is),
    )
