-- ===== src/Cli.antt =====
-- cmd/internal/cli.go: the command line of the two programs. Go's flag package is the argument
-- `Flags`, and what is written to the standard error is in the outer state `World`.
pub mod Arguments
pub mod Commands
pub mod Usage
mod Tests
use iothub.Base.{
  ℕ, ◌+◌, ◌%◌, ltb, length, Bool, true, false, ◌||◌, List, [], ◌∷◌, ◌++◌, Option, none, some, Str,
  codes, str_eq, Dict, insert, Outcome, ok, fail, panic, Error, invalid_usage, odd_arguments,
  if◌then◌else◌,
}
use iothub.Act.{Act, continue, lift, ◌>>=◌}

pub record Command (World FlagSet : Type 0) : Type 0 where
  pub name : Str
  pub alias : Str
  pub help : Str
  pub desc : Str
  pub handler : FlagSet → Act World (Unit {0})
  pub parse_func : Option (FlagSet → FlagSet)

pub record Cli (World FlagSet : Type 0) : Type 0 where
  pub desc : Str
  pub cmds : List (Command World FlagSet)
  pub main : Option (FlagSet → FlagSet)

-- `parse` is given what FlagSet.Usage does; `help_asked` says whether an error is flag.ErrHelp.
pub record Flags (World FlagSet : Type 0) : Type 0 where
  pub new_flag_set : Str → FlagSet
  pub parse : FlagSet → (FlagSet → World → World) → List Str → Act World FlagSet
  pub help_asked : Error → Bool
  pub name : FlagSet → Str
  pub args : FlagSet → List Str
  pub print_defaults : FlagSet → World → World
  pub printf : Str → List Str → World → World

-- ArgsToMap; the source tests the length first.
unfoldable pub put_pairs : List Str → Dict Str → Outcome (Dict Str)
put_pairs [] m = ok m
put_pairs (k ∷ []) m = panic
put_pairs (k ∷ v ∷ rest) m = put_pairs rest (insert k v m)

unfoldable pub args_to_map : List Str → Outcome (Dict Str)
unfolding put_pairs
args_to_map s = if ltb 0 (length s % 2) then fail odd_arguments else put_pairs s []

unfoldable pub is_usage_error : Error → Bool
is_usage_error invalid_usage = true
is_usage_error _ = false

abbrev pub prepare : {FlagSet : Type 0} → Option (FlagSet → FlagSet) → FlagSet → FlagSet
prepare none fs = fs
prepare (some f) fs = f fs

module _ {World FlagSet : Type 0} where
  -- New: `sort` is sort.Slice with the test of the names.
  unfoldable pub new :
      (List (Command World FlagSet) → List (Command World FlagSet))
      → Str
      → Option (FlagSet → FlagSet)
      → List (Command World FlagSet)
      → Cli World FlagSet
  new sort desc f cmds = record { desc = desc; cmds = sort cmds; main = f }

  unfoldable pub answers_to : Str → Command World FlagSet → Bool
  answers_to k cmd = str_eq cmd.name k || str_eq cmd.alias k

  unfoldable pub find_command : Str → List (Command World FlagSet) → Option (Command World FlagSet)
  unfolding answers_to
  find_command k [] = none
  find_command k (cmd ∷ cmds) = if answers_to k cmd then some cmd else find_command k cmds

  module _ (flags : Flags World FlagSet) where
    open flags use {new_flag_set, parse, help_asked, name, args, print_defaults, printf}

    command_lines : List (Command World FlagSet) → World → World
    command_lines [] w = w
    command_lines (cmd ∷ cmds) w =
        command_lines cmds
          (printf (codes "  %-22s %s\n") ((cmd.name ++ codes "," ++ cmd.alias) ∷ cmd.desc ∷ []) w)

    common_text : Str
    common_text = codes "usage: %s [FLAGS...] {COMMAND} [FLAGS...] [ARGS]...\n\n%s\n\ncommands:\n"

    command_text : Str
    command_text = codes "usage: %s [FLAGS...] %s [FLAGS....] %s\n\nflags:\n"

    -- sm.Usage
    unfoldable pub common_usage : Cli World FlagSet → FlagSet → World → World
    unfolding command_lines common_text
    common_usage r sm w =
        let w1 = command_lines r.cmds (printf common_text (name sm ∷ r.desc ∷ []) w) in
        print_defaults sm (printf (codes "common flags: \n") [] (printf (codes "\n") [] w1))

    -- sc.Usage, for the command that the argument `k` chose
    unfoldable pub command_usage : FlagSet → Str → Command World FlagSet → FlagSet → World → World
    unfolding command_text
    command_usage sm k cmd sc w =
        let w1 = print_defaults sc (printf command_text (name sm ∷ k ∷ cmd.help ∷ []) w) in
        print_defaults sm (printf (codes "common flags: \n") [] (printf (codes "\n") [] w1))

    unfoldable pub parse_error : Error → Error
    parse_error e = if help_asked e then invalid_usage else e

    parsed : World × Outcome FlagSet → World × Outcome FlagSet
    unfolding parse_error
    parsed (w, ok fs) = (w, ok fs)
    parsed (w, fail e) = (w, fail (parse_error e))
    parsed (w, panic) = (w, panic)

    -- `err == ErrInvalidUsage` shows the usage.
    handled : (World → World) → World × Outcome (Unit {0}) → World × Outcome (Unit {0})
    unfolding is_usage_error
    handled usage (w, fail e) = (if is_usage_error e then usage w else w, fail e)
    handled usage (w, ok u) = (w, ok u)
    handled usage (w, panic) = (w, panic)

    -- The part of Run behind findCommand.
    run_command : FlagSet → Str → List Str → Command World FlagSet → Act World (Unit {0})
    unfolding command_usage parsed handled
    run_command sm k more cmd = do
      sc ← λ w.
          parsed (parse (prepare cmd.parse_func (new_flag_set k)) (command_usage sm k cmd) more w)
      λ w. handled (command_usage sm k cmd sc) (cmd.handler sc w)

    shown_instead : Cli World FlagSet → FlagSet → Act World (Unit {0})
    unfolding common_usage
    shown_instead r sm w = (common_usage r sm w, fail invalid_usage)

    found :
        Cli World FlagSet
        → FlagSet
        → Str
        → List Str
        → Option (Command World FlagSet)
        → Act World (Unit {0})
    unfolding shown_instead run_command
    found r sm k more none = shown_instead r sm
    found r sm k more (some cmd) = run_command sm k more cmd

    chosen : Cli World FlagSet → FlagSet → List Str → Act World (Unit {0})
    unfolding shown_instead found find_command
    chosen r sm [] = shown_instead r sm
    chosen r sm (k ∷ more) = found r sm k more (find_command k r.cmds)

    unfoldable pub run : Cli World FlagSet → List Str → Act World (Unit {0})
    unfolding chosen parsed common_usage
    run r [] = lift panic
    run r (program ∷ rest) = do
      sm ← λ w. parsed (parse (prepare r.main (new_flag_set program)) (common_usage r) rest w)
      chosen r sm (args sm)
