-- ===== src/Report.antt =====
-- What a check hands to its `error` argument; the file name is the same for all checks of a file.
use c_plus_server.Base.{ℕ}
use c_plus_server.Text.{Text}

pub record Report : Type 0 where
  pub linenum : ℕ
  pub category : Text
  pub confidence : ℕ
  pub message : Text
