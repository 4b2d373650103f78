-- ===== src/Cli/Usage.antt =====
-- When Run answers with the usage error, the usage message was written.
use iothub.Base.{
  ℕ, ◌+◌, ◌<◌, ◌≤◌, ◌≡◌, ◌≢◌, refl, arith, ap, true, false, Bool-cases, inl, inr, List, [], ◌∷◌,
  Option, none, some, Str, Outcome, ok, fail, panic, Error, invalid_usage,
}
use iothub.Act.{Act, continue}
use iothub.Cli.{
  Command, Cli, Flags, prepare, find_command, is_usage_error, command_lines, common_usage,
  command_usage, parse_error, parsed, handled, run_command, shown_instead, found, chosen, run,
}

-- `shown` counts what was written: each printf adds to it and nothing takes away. Parse calls the
-- usage function where it finds that help is asked for, and never returns the program's own error.
pub record Shows {World FlagSet : Type 0} (flags : Flags World FlagSet) (shown : World → ℕ)
    : Type 0 where
  pub printf : (f : Str) (l : List Str) (w : World) → shown w < shown (flags.printf f l w)
  pub print_defaults : (fs : FlagSet) (w : World) → shown w ≤ shown (flags.print_defaults fs w)
  pub asked :
      (fs : FlagSet) (usage : FlagSet → World → World) (l : List Str) (w : World) (e : Error)
      → ((gs : FlagSet) (v : World) → shown v < shown (usage gs v))
      → (flags.parse fs usage l w).1 ≡ fail e
      → flags.help_asked e ≡ true
      → shown w < shown (flags.parse fs usage l w).0
  pub kept :
      (fs : FlagSet) (usage : FlagSet → World → World) (l : List Str) (w : World)
      → ((gs : FlagSet) (v : World) → shown v < shown (usage gs v))
      → shown w ≤ shown (flags.parse fs usage l w).0
  pub own_error :
      (fs : FlagSet) (usage : FlagSet → World → World) (l : List Str) (w : World)
      → (flags.parse fs usage l w).1 ≢ fail invalid_usage

module _ {World FlagSet : Type 0} (flags : Flags World FlagSet) (shown : World → ℕ)
    (h : Shows flags shown) where
  -- If `p` is the usage error, more than `n` was written.
  abbrev Tells : {A : Type 0} → ℕ → World × Outcome A → Type 0
  Tells n p = p.1 ≡ fail invalid_usage → n < shown p.0

  Tells-continue :
      {A B : Type 0} (n : ℕ) (p : World × Outcome A) (k : A → Act World B)
      → n ≤ shown p.0
      → Tells n p
      → ((a : A) (w : World) → n ≤ shown w → Tells n (k a w))
      → Tells n (continue p k)
  Tells-continue n (w, ok a) k le t g = g a w le
  Tells-continue n (w, fail e) k le t g = λ x. t (ap of_fail x)
    where
      of_fail : {A B : Type 0} → Outcome A → Outcome B
      of_fail (ok a) = panic
      of_fail (fail e) = fail e
      of_fail panic = panic
  Tells-continue n (w, panic) k le t g = λ x. cc

  printf_more :
      (n : ℕ) (f : Str) (l : List Str) (w : World)
      → n ≤ shown w
      → n + 1 ≤ shown (flags.printf f l w)
  printf_more n f l w le = omega (arith, le, h.printf f l w)

  printf_up :
      (n : ℕ) (f : Str) (l : List Str) (w : World) → n ≤ shown w → n ≤ shown (flags.printf f l w)
  printf_up n f l w le = omega (arith, le, h.printf f l w)

  defaults_up :
      (n : ℕ) (fs : FlagSet) (w : World) → n ≤ shown w → n ≤ shown (flags.print_defaults fs w)
  defaults_up n fs w le = omega (arith, le, h.print_defaults fs w)

  lines_up :
      (n : ℕ) (l : List (Command World FlagSet)) (w : World)
      → n ≤ shown w
      → n ≤ shown (command_lines flags l w)
  unfolding command_lines
  lines_up n [] w le = le
  lines_up n (c ∷ l) w le = lines_up n l _ (printf_up n _ _ w le)

  common_usage_shown :
      (r : Cli World FlagSet) (sm : FlagSet) (w : World)
      → shown w < shown (common_usage flags r sm w)
  unfolding common_usage
  common_usage_shown r sm w =
      let n = shown w in
      let up : n + 1 ≤ shown (common_usage flags r sm w) = defaults_up (n + 1) sm _ (
        printf_up (n + 1) _ _ _ (
          printf_up (n + 1) _ _ _
            (lines_up (n + 1) r.cmds _ (printf_more n _ _ w (omega arith))))) in
      omega (arith, up)

  command_usage_shown :
      (sm : FlagSet) (k : Str) (cmd : Command World FlagSet) (sc : FlagSet) (w : World)
      → shown w < shown (command_usage flags sm k cmd sc w)
  unfolding command_usage
  command_usage_shown sm k cmd sc w =
      let n = shown w in
      let up : n + 1 ≤ shown (command_usage flags sm k cmd sc w) = defaults_up (n + 1) sm _ (
        printf_up (n + 1) _ _ _ (
          printf_up (n + 1) _ _ _
            (defaults_up (n + 1) sc _ (printf_more n _ _ w (omega arith))))) in
      omega (arith, up)

  parsed_world : (p : World × Outcome FlagSet) → (parsed flags p).0 ≡ p.0
  unfolding parsed
  parsed_world (w, ok fs) = refl
  parsed_world (w, fail e) = refl
  parsed_world (w, panic) = refl

  Tells-parsed :
      (n : ℕ) (p : World × Outcome FlagSet)
      → p.1 ≢ fail invalid_usage
      → ((e : Error) → p.1 ≡ fail e → flags.help_asked e ≡ true → n < shown p.0)
      → Tells n (parsed flags p)
  unfolding parsed parse_error
  Tells-parsed n (w, ok fs) own asked = λ x. cc
  Tells-parsed n (w, fail e) own asked = λ x. elim (Bool-cases (flags.help_asked e)) [
    | inl is_help ↦ asked e refl is_help
    | inr other_error ↦ absurd (own (ap fail (cc (other other_error, x))))
  ]
    where
      other : flags.help_asked e ≡ false → parse_error flags e ≡ e
      other other_error = rw other_error refl
  Tells-parsed n (w, panic) own asked = λ x. cc

  Tells-parse :
      (n : ℕ) (fs : FlagSet) (usage : FlagSet → World → World) (l : List Str) (w : World)
      → n ≤ shown w
      → ((gs : FlagSet) (v : World) → shown v < shown (usage gs v))
      → Tells n (parsed flags (flags.parse fs usage l w))
        × (n ≤ shown (parsed flags (flags.parse fs usage l w)).0)
  Tells-parse n fs usage l w le raises = (
    Tells-parsed n (flags.parse fs usage l w) (h.own_error fs usage l w)
        (λ e fails is_help. omega (arith, le, h.asked fs usage l w e raises fails is_help)),
    rw (parsed_world (flags.parse fs usage l w)) (omega (arith, le, h.kept fs usage l w raises)),
  )

  Tells-handled :
      (n : ℕ) (usage : World → World) (p : World × Outcome (Unit {0}))
      → n ≤ shown p.0
      → ((v : World) → shown v < shown (usage v))
      → Tells n (handled flags usage p)
  unfolding handled is_usage_error
  Tells-handled n usage (w, ok u) le raises = λ x. cc
  Tells-handled n usage (w, panic) le raises = λ x. cc
  Tells-handled n usage (w, fail e) le raises =
      λ x. let same : e ≡ invalid_usage = cc x in rw same (omega (arith, le, raises w))

  Tells-run_command :
      (n : ℕ) (sm : FlagSet) (k : Str) (more : List Str) (cmd : Command World FlagSet) (w : World)
      → n ≤ shown w
      → ((fs : FlagSet) (v : World) → shown v ≤ shown (cmd.handler fs v).0)
      → Tells n (run_command flags sm k more cmd w)
  unfolding run_command
  Tells-run_command n sm k more cmd w le keeps =
      let fs = prepare cmd.parse_func (flags.new_flag_set k) in
      let usage = command_usage flags sm k cmd in
      let (tells, up) = Tells-parse n fs usage more w le (command_usage_shown sm k cmd) in
      Tells-continue n (parsed flags (flags.parse fs usage more w))
        (λ sc v. handled flags (usage sc) (cmd.handler sc v)) up tells
        λ sc v le_v.
          Tells-handled n (usage sc) (cmd.handler sc v) (omega (arith, le_v, keeps sc v))
            (command_usage_shown sm k cmd sc)

  Tells-shown_instead :
      (n : ℕ) (r : Cli World FlagSet) (sm : FlagSet) (w : World)
      → n ≤ shown w
      → Tells n (shown_instead flags r sm w)
  unfolding shown_instead
  Tells-shown_instead n r sm w le x = omega (arith, le, common_usage_shown r sm w)

  -- A handler takes nothing of what was written away.
  abbrev HandlersKeep : Cli World FlagSet → Type 0
  HandlersKeep r =
      (k : Str) (cmd : Command World FlagSet)
      → find_command k r.cmds ≡ some cmd
      → (fs : FlagSet) (v : World) → shown v ≤ shown (cmd.handler fs v).0

  Tells-found :
      (n : ℕ) (r : Cli World FlagSet) (sm : FlagSet) (k : Str) (more : List Str)
      (o : Option (Command World FlagSet)) (w : World)
      → n ≤ shown w
      → HandlersKeep r
      → find_command k r.cmds ≡ o
      → Tells n (found flags r sm k more o w)
  unfolding found
  Tells-found n r sm k more none w le keep e = Tells-shown_instead n r sm w le
  Tells-found n r sm k more (some cmd) w le keep e =
      Tells-run_command n sm k more cmd w le (keep k cmd e)

  Tells-chosen :
      (n : ℕ) (r : Cli World FlagSet) (sm : FlagSet) (l : List Str) (w : World)
      → n ≤ shown w
      → HandlersKeep r
      → Tells n (chosen flags r sm l w)
  unfolding chosen
  Tells-chosen n r sm [] w le keep = Tells-shown_instead n r sm w le
  Tells-chosen n r sm (k ∷ more) w le keep =
      Tells-found n r sm k more (find_command k r.cmds) w le keep refl

  -- Where no handler takes written text away and the flag package shows the usage that it is given
  -- when help is asked for: a Run that returns ErrInvalidUsage has written to the standard error.
  pub run_invalid-shown :
      (r : Cli World FlagSet) (argv : List Str) (w : World)
      → ((k : Str) (cmd : Command World FlagSet)
          → find_command k r.cmds ≡ some cmd
          → (fs : FlagSet) (v : World) → shown v ≤ shown (cmd.handler fs v).0)
      → (run flags r argv w).1 ≡ fail invalid_usage
      → shown w < shown (run flags r argv w).0
  unfolding run
  run_invalid-shown r [] w keep e = cc
  run_invalid-shown r (program ∷ rest) w keep e =
      let n = shown w in
      let fs = prepare r.main (flags.new_flag_set program) in
      let (tells, up) =
        Tells-parse n fs (common_usage flags r) rest w (omega arith) (common_usage_shown r) in
      Tells-continue n (parsed flags (flags.parse fs (common_usage flags r) rest w))
        (λ sm v. chosen flags r sm (flags.args sm) v) up tells
        (λ sm v le. Tells-chosen n r sm (flags.args sm) v le keep) e
