-- ===== src/Sys/Panic.antt =====
-- kernel/sys/panic.cpp: what a panic prints before it halts the processor.
use ice.Prelude.{ℕ, List, [], ◌∷◌, ◌++◌}
use Prim.Native.String.{String}
use ice.Sys.Logger.{Fragment, text, text_at, log_error}

unfoldable pub panic : String → List Fragment
panic message =
    text "\n" ∷ (log_error (text message ∷ []) ++ log_error (text "System halted!" ∷ []))

-- The line is a number, and is printed as the text at that address.
unfoldable pub panic_at : String → ℕ → String → String → List Fragment
panic_at file line func message =
    text "\n"
    ∷ (log_error (text message ∷ [])
        ++ log_error (text "File: " ∷ text file ∷ [])
        ++ log_error (text "Line: " ∷ text_at line ∷ [])
        ++ log_error (text "Function: " ∷ text func ∷ [])
        ++ log_error (text "System halted!" ∷ []))

abbrev pub abort : List Fragment
abort = panic "abort()"

abbrev pub assert_fail : String → String → ℕ → String → List Fragment
assert_fail message file line func = panic_at file line func message
