-- ===== src/DictServer/Utils.antt =====
-- Project_TCPServer_Plus/src/utils/Utils.cpp.
use study_code.Prelude.{Bool, not, [], ◌∷◌, if◌then◌else◌}
use study_code.Prelude.Int.{ℤ, is_negative, is_positive}
use study_code.Sys.{Trace, close}

-- `checkError`: whether a call succeeded.
abbrev pub check_error : ℤ → Bool
check_error ret = not (is_negative ret)

unfoldable pub closefd : ℤ → Trace
closefd fd = if is_positive fd then close fd ∷ [] else []
