-- ===== src/Api/Binding.antt =====
-- The schema types of binding an account by a QR code (frontend/lib/api/generated.ts).
use charge_api.Prelude.{Bool, Option, String}

pub data SyncState : Type 0 where
  not_needed synced failed : SyncState

pub record YybBinding : Type 0 where
  pub bound : Bool
  pub bound_at : Option String
  pub cookie_synced : Option Bool
  pub last_checked_at : Option String
  pub message : Option String
  pub nickname : Option String
  pub openid_suffix : Option String
  pub scan_enabled : Option Bool
  pub session_id : Option String
  pub status : Option String
  pub sync_state : Option SyncState

pub record YybQr : Type 0 where
  pub image_base64 : Option String
  pub image_url : Option String
  pub session_id : String
  pub status : Option String

pub record YybQrPoll : Type 0 where
  pub binding : Option YybBinding
  pub message : Option String
  pub session_id : String
  pub status : String
