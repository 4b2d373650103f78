-- ===== src/Cli/Commands.antt =====
-- Which command an argument chooses.
use mathlib.Core.List.{Permᴰ}
use mathlib.Core.List.Permᴰ
use iothub.Base.{
  ◌≡◌, refl, sym, ◌∙◌, true, false, Bool-cases, ◌↔◌, inl, inr, List, [], ◌∷◌, Option, none, some,
  Str, All,
}
use iothub.Cli.{Command, new, answers_to, find_command}

module _ {A : Type 0} (P : A → Type 0) where
  All-permuted : {l m : List A} → Permᴰ l m → All P l → All P m
  All-permuted Permᴰ.nil a = tt
  All-permuted (Permᴰ.cons e p) (x, a) = (rw (← e) x, All-permuted p a)
  All-permuted (Permᴰ.swap e1 e2) (x, (y, a)) = (rw (← e2) y, (rw (← e1) x, a))
  All-permuted (Permᴰ.trans p q) a = All-permuted q (All-permuted p a)

module _ {World FlagSet : Type 0} where
  abbrev IsDeafTo : Str → Command World FlagSet → Type 0
  IsDeafTo k c = answers_to k c ≡ false

  first_of :
      (k : Str) (c : Command World FlagSet) (l : List (Command World FlagSet))
      → answers_to k c ≡ true
      → find_command k (c ∷ l) ≡ some c
  unfolding find_command
  first_of k c l hit = rw hit refl

  rest_of :
      (k : Str) (c : Command World FlagSet) (l : List (Command World FlagSet))
      → answers_to k c ≡ false
      → find_command k (c ∷ l) ≡ find_command k l
  unfolding find_command
  rest_of k c l miss = rw miss refl

  deaf_of_none :
      (k : Str) (l : List (Command World FlagSet)) → find_command k l ≡ none → All (IsDeafTo k) l
  unfolding find_command
  deaf_of_none k [] e = tt
  deaf_of_none k (c ∷ l) e = elim (Bool-cases (answers_to k c)) [
    | inl hit ↦ absurd (cc (first_of k c l hit, e))
    | inr miss ↦ (miss, deaf_of_none k l (sym (rest_of k c l miss) ∙ e))
  ]

  none_of_deaf :
      (k : Str) (l : List (Command World FlagSet)) → All (IsDeafTo k) l → find_command k l ≡ none
  unfolding find_command
  none_of_deaf k [] a = refl
  none_of_deaf k (c ∷ l) (e, a) = rw e (none_of_deaf k l a)

  answers_of_some :
      (k : Str) (l : List (Command World FlagSet)) (c : Command World FlagSet)
      → find_command k l ≡ some c
      → answers_to k c ≡ true
  unfolding find_command
  answers_of_some k [] c e = cc
  answers_of_some k (d ∷ l) c e = elim (Bool-cases (answers_to k d)) [
    | inl hit ↦ let same : d ≡ c = cc (first_of k d l hit, e) in rw (← same) hit
    | inr miss ↦ answers_of_some k l c (sym (rest_of k d l miss) ∙ e)
  ]

  -- The command that is found is one of the list.
  pub All-find_command :
      (P : Command World FlagSet → Type 0) (k : Str) (l : List (Command World FlagSet))
      (c : Command World FlagSet)
      → find_command k l ≡ some c
      → All P l
      → P c
  unfolding find_command
  All-find_command P k [] c e a = cc
  All-find_command P k (d ∷ l) c e (here, a) = elim (Bool-cases (answers_to k d)) [
    | inl hit ↦ let same : d ≡ c = cc (first_of k d l hit, e) in rw (← same) here
    | inr miss ↦ All-find_command P k l c (sym (rest_of k d l miss) ∙ e) a
  ]

  -- Where the sorting permutes the commands: an argument chooses no command of New's exactly if none
  -- of the given ones has it for a name or an alias, and what it chooses has.
  pub find_command-new :
      (sort : List (Command World FlagSet) → List (Command World FlagSet))
      → ((l : List (Command World FlagSet)) → Permᴰ l (sort l))
      → (k desc : Str) (f : Option (FlagSet → FlagSet)) (cmds : List (Command World FlagSet))
      → ((find_command k (new sort desc f cmds).cmds ≡ none)
          ↔ All (λ c. answers_to k c ≡ false) cmds)
        × ((c : Command World FlagSet)
            → find_command k (new sort desc f cmds).cmds ≡ some c
            → answers_to k c ≡ true)
  unfolding new
  find_command-new sort permutes k desc f cmds = (
    (
      λ e. All-permuted (IsDeafTo k) (Permᴰ.symm (permutes cmds)) (deaf_of_none k (sort cmds) e),
      λ a. none_of_deaf k (sort cmds) (All-permuted (IsDeafTo k) (permutes cmds) a),
    ),
    answers_of_some k (sort cmds),
  )
