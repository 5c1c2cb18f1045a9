-- ===== src/Ipc/Errors.antt =====
-- pkg/ipc/errors.go: errors with a code.
use axctl.Common.{String, text_append, Option, none, some}

pub record Error : Type 0 where
  pub code : String
  pub message : String
  -- The text of the wrapped error.
  pub err : Option String

abbrev wrapped : String → Option String → String
wrapped s none = s
wrapped s (some e) = text_append s (text_append ": " e)

-- `Error`, the text of an error.
unfoldable pub error_text : Error → String
error_text e = wrapped (text_append "ipc: " (text_append e.code (text_append ": " e.message))) e.err

unfoldable pub new_error : String → String → Option String → Error
new_error code message err = record { code = code; message = message; err = err }

abbrev pub window_not_found : Error
window_not_found = record { code = "WINDOW_NOT_FOUND"; message = "window not found"; err = none }

abbrev pub workspace_not_found : Error
workspace_not_found = record {
  code = "WORKSPACE_NOT_FOUND";
  message = "workspace not found";
  err = none;
}
