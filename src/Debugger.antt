-- ===== src/Debugger.antt =====
-- include/aiasm/debugger.h: the set of breakpoints and the single-step flag. The dumps of state only
-- format text.
pub mod Listing
use novium_emulator.Base.{ℕ, update, Bool, true, false}

pub record Debugger : Type 0 where
  pub breakpoints : ℕ → Bool
  pub single_step : Bool

unfoldable pub new_debugger : Debugger
new_debugger = record { breakpoints = λ _. false; single_step = false }

unfoldable pub add_breakpoint : Debugger → ℕ → Debugger
add_breakpoint d addr = record d { breakpoints = update d.breakpoints addr true }

unfoldable pub remove_breakpoint : Debugger → ℕ → Debugger
remove_breakpoint d addr = record d { breakpoints = update d.breakpoints addr false }

unfoldable pub clear_breakpoints : Debugger → Debugger
clear_breakpoints d = record d { breakpoints = λ _. false }

unfoldable pub has_breakpoint : Debugger → ℕ → Bool
has_breakpoint d addr = d.breakpoints addr

unfoldable pub set_single_step : Debugger → Bool → Debugger
set_single_step d v = record d { single_step = v }
