-- ===== src/Safety.antt =====
-- internal/safety/recover.go: what becomes of a panic. The text that is logged is left out; `totalPanics` is explicit
-- state.
use Prim.Native.String.{String}
use thermal_recovery_flow.Base.{ℕ, ◌-◌, Bool, true, false, Option, none, some, inc64}

-- How a function ends.
pub data Ending : Type 0 where
  returned : Ending
  panicked : String → Ending

-- `recover()`, of the language: it returns the value of a panic, and stops it, only where a deferred function
-- calls it directly.
abbrev pub recover : Bool → Ending → Option String
recover direct returned = none
recover true (panicked r) = some r
recover false (panicked r) = none

-- The panics so far, and how the function that defers ends.
pub record Recovery : Type 0 where
  pub total_panics : ℕ
  pub ending : Ending

count_recovered : ℕ → Ending → Option String → Recovery
count_recovered total ending none = record { total_panics = total; ending = ending }
count_recovered total ending (some r) = record { total_panics = inc64 total; ending = returned }

-- `SafeRecover`, with whether a deferred function is SafeRecover itself or only calls it.
pub safe_recover : Bool → ℕ → Ending → Recovery
unfolding count_recovered
safe_recover deferred total ending = count_recovered total ending (recover deferred ending)

-- `SafeGo`: its deferred function calls `recover` directly.
pub safe_go : ℕ → Ending → Recovery
unfolding count_recovered
safe_go total ending = count_recovered total ending (recover true ending)

-- `SafeGoWG`, with the counter of the wait group, which `wgDone` lowers.
pub safe_go_wg : ℕ → ℕ → Ending → Recovery × ℕ
unfolding safe_go
safe_go_wg total waiting ending = (safe_go total ending, waiting - 1)
