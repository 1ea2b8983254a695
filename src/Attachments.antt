-- ===== src/Attachments.antt =====
-- packages/core/src/attachments/attachment-rules.ts: what may be attached to what, and the type of a
-- file from its first bytes.
pub mod Laws
use markaz.Prelude.{
  ℕ, zero, suc, ◌-◌, Bool, true, false, ◌&&◌, Option, none, some, List, [], ◌∷◌, ◌++◌, ltb, ◌==◌,
  if◌then◌else◌, length,
}
use markaz.Prelude.Text.{Text, codes}

pub data AttachmentOwnerType : Type 0 where
  sales_invoice supplier_invoice payment journal_entry purchase_order party item company :
      AttachmentOwnerType

pub data AttachmentVisibility : Type 0 where
  private_file public_file : AttachmentVisibility

-- The right to change the record, as a resource and an action.
pub record ManageRight : Type 0 where
  pub resource : Text
  pub action : Text

pub record OwnerRule : Type 0 where
  pub read_resource : Text
  pub visibility : AttachmentVisibility
  pub manage : Option ManageRight
  pub image_only : Bool

abbrev private_rule : Text → OwnerRule
private_rule resource = record {
  read_resource = resource;
  visibility = private_file;
  manage = none;
  image_only = false;
}

-- OWNER_RULES.
abbrev pub owner_rule : AttachmentOwnerType → OwnerRule
owner_rule sales_invoice = private_rule (codes "sales_invoice")
owner_rule supplier_invoice = private_rule (codes "supplier_invoice")
owner_rule payment = private_rule (codes "payment")
owner_rule journal_entry = private_rule (codes "journal_entry")
owner_rule purchase_order = private_rule (codes "purchase_order")
owner_rule party = private_rule (codes "party")
owner_rule item = record {
  read_resource = codes "item";
  visibility = public_file;
  manage = some (record { resource = codes "item"; action = codes "update" });
  image_only = true;
}
owner_rule company = record {
  read_resource = codes "company";
  visibility = private_file;
  manage = some (record { resource = codes "company"; action = codes "update" });
  image_only = true;
}

pub data AttachmentContentType : Type 0 where
  pdf png jpeg webp : AttachmentContentType

-- CONTENT_TYPE_EXTENSIONS.
abbrev pub extension : AttachmentContentType → Text
extension pdf = codes "pdf"
extension png = codes "png"
extension jpeg = codes "jpg"
extension webp = codes "webp"

abbrev pub starts_here : List ℕ → List ℕ → Bool
starts_here bytes [] = true
starts_here [] (s ∷ signature) = false
starts_here (b ∷ bytes) (s ∷ signature) = (b == s) && starts_here bytes signature

abbrev pub drop_bytes : ℕ → List ℕ → List ℕ
drop_bytes zero bytes = bytes
drop_bytes (suc k) [] = []
drop_bytes (suc k) (b ∷ bytes) = drop_bytes k bytes

-- `startsWith(bytes, signature, offset)`.
abbrev pub starts_with : List ℕ → List ℕ → ℕ → Bool
starts_with bytes signature offset = starts_here (drop_bytes offset bytes) signature

abbrev pub pdf_signature : List ℕ
pdf_signature = 37 ∷ 80 ∷ 68 ∷ 70 ∷ 45 ∷ []

abbrev pub png_signature : List ℕ
png_signature = 137 ∷ 80 ∷ 78 ∷ 71 ∷ 13 ∷ 10 ∷ 26 ∷ 10 ∷ []

abbrev pub jpeg_signature : List ℕ
jpeg_signature = 255 ∷ 216 ∷ 255 ∷ []

abbrev pub riff_signature : List ℕ
riff_signature = 82 ∷ 73 ∷ 70 ∷ 70 ∷ []

abbrev pub webp_signature : List ℕ
webp_signature = 87 ∷ 69 ∷ 66 ∷ 80 ∷ []

unfoldable pub detect_content_type : List ℕ → Option AttachmentContentType
detect_content_type bytes =
    if ltb (length bytes) 12
    then none
    else if starts_with bytes pdf_signature 0
    then some pdf
    else if starts_with bytes png_signature 0
    then some png
    else if starts_with bytes jpeg_signature 0
    then some jpeg
    else if starts_with bytes riff_signature 0 && starts_with bytes webp_signature 8
    then some webp
    else none

-- `fileId.slice(-2)/fileId`.
abbrev pub new_storage_key : Text → Text
new_storage_key file_id = drop_bytes (length file_id - 2) file_id ++ (codes "/" ++ file_id)
