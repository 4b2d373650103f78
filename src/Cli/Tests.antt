-- ===== src/Cli/Tests.antt =====
-- A program with one command over a small flag package, and each property at it.
use iothub.Base.{
  ℕ, ◌+◌, ◌<◌, ◌≤◌, ◌≡◌, ◌≢◌, refl, arith, Bool, true, false, List, [], ◌∷◌, none, some, Str, codes,
  str_eq, lookup, Dict, ok, fail, external, Error, invalid_usage, if◌then◌else◌,
}
use iothub.Act.{Act}
use iothub.Cli.{Command, Cli, Flags, answers_to, find_command, args_to_map, run}
use iothub.Cli.Arguments.{arguments, args_to_map-arguments}
use iothub.Cli.Usage.{Shows, run_invalid-shown}

abbrev two_keys : Dict Str
two_keys = (codes "a", codes "1") ∷ (codes "b", codes "2") ∷ []

args_to_map-arguments_example : args_to_map (arguments two_keys) ≡ ok two_keys
args_to_map-arguments_example =
    args_to_map-arguments two_keys (unfold lookup str_eq in (refl, (refl, tt)))

-- A set of flags is its name and the words behind the flags.
abbrev Set : Type 0
Set = Str × List Str

-- "-h" asks for help.
abbrev asks : List Str → Bool
asks [] = false
asks (s ∷ l) = str_eq s (codes "-h")

abbrev answer : Bool → Set → (Set → ℕ → ℕ) → List Str → Act ℕ Set
answer true fs usage l w = (usage fs w, fail (external (codes "help")))
answer false fs usage l w = (w, ok (fs.0, l))

abbrev is_help : Error → Bool
is_help (external s) = true
is_help _ = false

-- The outer state is the number of lines on the standard error.
abbrev small_flags : Flags ℕ Set
small_flags = record {
  new_flag_set = λ s. (s, []);
  parse = λ fs usage l w. answer (asks l) fs usage l w;
  help_asked = is_help;
  name = λ fs. fs.0;
  args = λ fs. fs.1;
  print_defaults = λ fs w. w;
  printf = λ f l w. w + 1;
}

answer-asked :
    (b : Bool) (fs : Set) (usage : Set → ℕ → ℕ) (l : List Str) (w : ℕ) (e : Error)
    → ((gs : Set) (v : ℕ) → v < usage gs v)
    → (answer b fs usage l w).1 ≡ fail e
    → w < (answer b fs usage l w).0
answer-asked true fs usage l w e raises x = raises fs w
answer-asked false fs usage l w e raises x = cc

answer-kept :
    (b : Bool) (fs : Set) (usage : Set → ℕ → ℕ) (l : List Str) (w : ℕ)
    → ((gs : Set) (v : ℕ) → v < usage gs v)
    → w ≤ (answer b fs usage l w).0
answer-kept true fs usage l w raises = omega (arith, raises fs w)
answer-kept false fs usage l w raises = omega arith

answer-own_error :
    (b : Bool) (fs : Set) (usage : Set → ℕ → ℕ) (l : List Str) (w : ℕ)
    → (answer b fs usage l w).1 ≢ fail invalid_usage
answer-own_error true fs usage l w x = cc
answer-own_error false fs usage l w x = cc

small_flags-Shows : Shows small_flags (λ w. w)
small_flags-Shows = record {
  printf = λ f l w. omega arith;
  print_defaults = λ fs w. omega arith;
  asked = λ fs usage l w e raises x is_asked. answer-asked (asks l) fs usage l w e raises x;
  kept = λ fs usage l w raises. answer-kept (asks l) fs usage l w raises;
  own_error = λ fs usage l w. answer-own_error (asks l) fs usage l w;
}

abbrev send : Command ℕ Set
send = record {
  name = codes "send";
  alias = codes "s";
  help = codes "PAYLOAD";
  desc = codes "send a message";
  handler = λ fs w. (w, fail invalid_usage);
  parse_func = none;
}

abbrev program : Cli ℕ Set
program = record { desc = codes "device"; cmds = send ∷ []; main = none }

send_is_invalid : (run small_flags program (codes "p" ∷ codes "s" ∷ []) 0).1 ≡ fail invalid_usage
unfolding run str_eq find_command
send_is_invalid = refl

only_send :
    (b : Bool) (cmd : Command ℕ Set) → (if b then some send else none) ≡ some cmd → send ≡ cmd
only_send true cmd e = cc
only_send false cmd e = cc

send_keeps :
    (k : Str) (cmd : Command ℕ Set)
    → find_command k program.cmds ≡ some cmd
    → (fs : Set) (v : ℕ) → v ≤ (cmd.handler fs v).0
unfolding find_command
send_keeps k cmd e fs v =
    let same : send ≡ cmd = only_send (answers_to k send) cmd e in rw (← same) (omega arith)

run_invalid-shown_example : ◌<◌ 0 (run small_flags program (codes "p" ∷ codes "s" ∷ []) 0).0
run_invalid-shown_example =
    run_invalid-shown small_flags (λ w. w) small_flags-Shows program (codes "p" ∷ codes "s" ∷ []) 0
      send_keeps send_is_invalid
