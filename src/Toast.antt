-- ===== src/Toast.antt =====
-- Messages to the user, as the handlers hand them to the toast library.
use wave_cast.Common.{String}

pub data ToastKind : Type 0 where
  plain success warning error : ToastKind

pub record Toast : Type 0 where
  pub kind : ToastKind
  pub title : String
  pub description : String
