-- ===== src/Events.antt =====
-- The events of src/whatsmeow_types.py: the fields that the modelled handlers read.
use greenline.Base.{Bool, Option, List, Text}

-- `VerifiedName.Details.verifiedName` is there where both objects are.
pub record MessageInfo : Type 0 where
  pub chat : Text
  pub sender : Text
  pub is_from_me : Bool
  pub sender_alt : Text
  pub id : Text
  pub type : Text
  pub push_name : Text
  pub timestamp : Text
  pub media_type : Text
  pub edit : Text
  pub edit_target_id : Text
  pub meta_target_id : Text
  pub verified_name : Option Text

pub record ReceiptEvent : Type 0 where
  pub chat : Text
  pub is_from_me : Bool
  pub message_ids : List Text
  pub type : Text
