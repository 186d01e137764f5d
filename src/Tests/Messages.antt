-- ===== src/Tests/Messages.antt =====
-- What exceptions and panics print, on concrete values.
use ice.Prelude.{true, false, ◌≡◌, refl, [], ◌∷◌, negsuc}
use ice.Sys.Logger.{text, vlog, level_str}
use ice.Sys.Panic.{panic}
use ice.Cpu.Idt.Exception.{exception_messages, message_at, prints_code}
use ice.Utils.Math.Signed.{pow, pow_loop}

message_runs :
    (message_at exception_messages 14 ≡ "Page fault")
    × (message_at exception_messages 31 ≡ "Reserved")
unfolding message_at
message_runs = (refl, refl)

code_runs : (prints_code 14 ≡ true) × (prints_code 9 ≡ false) × (prints_code 15 ≡ false)
unfolding prints_code
code_runs = (refl, refl, refl)

panic_runs :
    panic "stop"
    ≡ text "\n"
      ∷ text "\u{1b}[0;31merror\u{1b}[0m"
      ∷ text ": "
      ∷ text "stop"
      ∷ text "\n"
      ∷ text "\u{1b}[0;31merror\u{1b}[0m"
      ∷ text ": "
      ∷ text "System halted!"
      ∷ text "\n"
      ∷ []
unfolding panic vlog level_str
panic_runs = refl

pow_runs : pow (negsuc 1) 3 ≡ negsuc 7
unfolding pow pow_loop
pow_runs = refl
