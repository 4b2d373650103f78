-- ===== src/Program/Flags.antt =====
-- What both programs share: their flags as data, and what `main` ends with.
use iothub.Base.{ℕ, Bool, Option, none, some, Str, Outcome, ok, fail, panic, Error, if◌then◌else◌}
use iothub.Base.Int.{ℤ}
use iothub.Cli.{is_usage_error}

-- A flag with its name, default and help; the variable that it sets is in the program's Settings.
pub data FlagVar : Type 0 where
  bool_var : Str → Bool → Str → FlagVar
  string_var : Str → Str → Str → FlagVar
  int_var : Str → ℤ → Str → FlagVar
  duration_var : Str → ℤ → Str → FlagVar

-- The exit status, behind the error that `main` writes. `none` is a panic.
unfoldable pub exit :
    {World : Type 0} → (Error → World → World) → World × Outcome (Unit {0}) → World × Option ℕ
unfolding is_usage_error
exit report (w, ok u) = (w, some 0)
exit report (w, fail e) = (if is_usage_error e then w else report e w, some 1)
exit report (w, panic) = (w, none)
