-- ===== src/Recovery/Claude/Options.antt =====
-- The loop over the arguments of a Claude command line against a grammar of its options.
use tmux_rescue.Common.{
  All, Bool, Bool-cases, List, Option, Option-cases, [], ap, arith, false, inl, inr, length,
  length-append, list_eq, none, num_eq, refl, some, some-injective, subst, suc, sym, true, zero, ℕ,
  ◌++◌, ◌<◌, ◌==◌, ◌↔◌, ◌∙◌, ◌∷◌, ◌≡◌, ◌≢◌, ◌≤◌, ◌⊎◌,
}
use tmux_rescue.Std.Path.{split}
use tmux_rescue.Std.Text.{Bytes, lit}
use tmux_rescue.Model.OsString.{LosslessOsString}
use tmux_rescue.Recovery.Claude.{
  ClaudeOptionArity, after_argument, after_cut, after_option, arguments_loop, behind_first,
  cut_at_equals, flag_arity, is_dashed, optional_value, required_value, skip_one_plain, skip_plain,
  supported_claude_option, supported_claude_tui_arguments, variadic_value,
}

-- An argument is an option of this arity, with or without a value after a `=`.
pub record HasOption (argument : LosslessOsString) (arity : ClaudeOptionArity)
    (inline_value : Option Bytes) : Type 0 where
  pub not_separator : (argument.bytes == lit "--") ≡ false
  pub dashed : is_dashed argument.bytes ≡ true
  pub supported : supported_claude_option (cut_at_equals argument.bytes).0 ≡ some arity
  pub cut : (cut_at_equals argument.bytes).1 ≡ inline_value

-- No value that a list of plain values holds looks like an option.
abbrev pub IsPlain : List LosslessOsString → Type 0
IsPlain = All (λ value. is_dashed (LosslessOsString.bytes value) ≡ false)

-- One option and its values, in front of what is left.
pub data Takes (argument : LosslessOsString) : (rest left : List LosslessOsString) → Type 0 where
  alone :
      {rest : List LosslessOsString} → HasOption argument flag_arity none → Takes argument rest rest
  without_value :
      {rest : List LosslessOsString}
      → HasOption argument optional_value none
      → Takes argument rest rest
  with_inline :
      {rest : List LosslessOsString} {arity : ClaudeOptionArity} {b : ℕ} {bs : Bytes}
      → HasOption argument arity (some (b ∷ bs))
      → arity ≢ flag_arity
      → Takes argument rest rest
  with_value :
      {value : LosslessOsString} {rest : List LosslessOsString}
      → HasOption argument required_value none
      → Takes argument (value ∷ rest) rest
  with_plain :
      {value : LosslessOsString} {rest : List LosslessOsString}
      → HasOption argument optional_value none
      → is_dashed value.bytes ≡ false
      → Takes argument (value ∷ rest) rest
  with_values :
      {value : LosslessOsString} {rest left : List LosslessOsString}
      (values : List LosslessOsString)
      → HasOption argument variadic_value none
      → is_dashed value.bytes ≡ false
      → IsPlain values
      → rest ≡ values ++ left
      → Takes argument (value ∷ rest) left

-- A sequence of supported options, each with the values that its arity asks for.
pub data IsClaudeOptions : List LosslessOsString → Type 0 where
  finished : IsClaudeOptions []
  option :
      {argument : LosslessOsString} {rest left : List LosslessOsString}
      → Takes argument rest left
      → IsClaudeOptions left
      → IsClaudeOptions (argument ∷ rest)

skip_plain-IsPlain :
    (rest : List LosslessOsString)
    → (values : List LosslessOsString) × IsPlain values × (rest ≡ values ++ skip_plain rest)
skip_plain-IsPlain [] = ([], tt, refl)
skip_plain-IsPlain (value ∷ rest) = elim (Bool-cases (is_dashed value.bytes)) [
  | inl dashed ↦ ([], tt, rw dashed refl)
  | inr plain ↦
      let (values, all_plain, split) = skip_plain-IsPlain rest in
      (value ∷ values, (plain, all_plain), rw plain (ap (λ l. value ∷ l) split))
]

after_option-Takes :
    (argument : LosslessOsString) (arity : ClaudeOptionArity) (rest left : List LosslessOsString)
    → HasOption argument arity none
    → after_option arity rest ≡ some left
    → Takes argument rest left
unfolding after_option
after_option-Takes argument flag_arity rest left has h =
    subst (λ l. Takes argument rest l) (some-injective h) (alone has)
after_option-Takes argument required_value [] left has h = cc
after_option-Takes argument required_value (value ∷ rest) left has h =
    subst (λ l. Takes argument (value ∷ rest) l) (some-injective h) (with_value has)
after_option-Takes argument optional_value [] left has h =
    subst (λ l. Takes argument [] l) (some-injective h) (without_value has)
after_option-Takes argument optional_value (value ∷ rest) left has h =
    elim (Bool-cases (is_dashed value.bytes)) [
      | inl dashed ↦
          subst (λ l. Takes argument (value ∷ rest) l) (some-injective (rw dashed at h))
            (without_value has)
      | inr plain ↦
          subst (λ l. Takes argument (value ∷ rest) l) (some-injective (rw plain at h))
            (with_plain has plain)
    ]
after_option-Takes argument variadic_value [] left has h = cc
after_option-Takes argument variadic_value (value ∷ rest) left has h =
    elim (Bool-cases (is_dashed value.bytes)) [
      | inl dashed ↦ let never : none ≡ some left = rw dashed at h in cc
      | inr plain ↦
          let (values, all_plain, split) = skip_plain-IsPlain rest in
          subst (λ l. Takes argument (value ∷ rest) l) (some-injective (rw plain at h))
            (with_values values has plain all_plain split)
    ]

after_cut-Takes :
    (argument : LosslessOsString) (arity : ClaudeOptionArity) (inline_value : Option Bytes)
    (rest left : List LosslessOsString)
    → HasOption argument arity inline_value
    → after_cut arity inline_value rest ≡ some left
    → Takes argument rest left
unfolding after_cut
after_cut-Takes argument flag_arity (some inline_value) rest left has h = cc
after_cut-Takes argument required_value (some []) rest left has h = cc
after_cut-Takes argument optional_value (some []) rest left has h = cc
after_cut-Takes argument variadic_value (some []) rest left has h = cc
after_cut-Takes argument required_value (some (b ∷ bs)) rest left has h =
    subst (λ l. Takes argument rest l) (some-injective h) (with_inline has (λ p. cc))
after_cut-Takes argument optional_value (some (b ∷ bs)) rest left has h =
    subst (λ l. Takes argument rest l) (some-injective h) (with_inline has (λ p. cc))
after_cut-Takes argument variadic_value (some (b ∷ bs)) rest left has h =
    subst (λ l. Takes argument rest l) (some-injective h) (with_inline has (λ p. cc))
after_cut-Takes argument flag_arity none rest left has h =
    after_option-Takes argument flag_arity rest left has h
after_cut-Takes argument required_value none rest left has h =
    after_option-Takes argument required_value rest left has h
after_cut-Takes argument optional_value none rest left has h =
    after_option-Takes argument optional_value rest left has h
after_cut-Takes argument variadic_value none rest left has h =
    after_option-Takes argument variadic_value rest left has h

after_argument-Takes :
    (argument : LosslessOsString) (rest left : List LosslessOsString)
    → after_argument argument rest ≡ some left
    → Takes argument rest left
unfolding after_argument
after_argument-Takes argument rest left h = elim (Bool-cases (argument.bytes == lit "--")) [
  | inl separator ↦ let never : none ≡ some left = rw separator at h in cc
  | inr other ↦ elim (Bool-cases (is_dashed argument.bytes)) [
    | inr plain ↦ let never : none ≡ some left = rw (other, plain) at h in cc
    | inl dashed ↦ elim (Option-cases (supported_claude_option (cut_at_equals argument.bytes).0)) [
      | inl unknown ↦ let never : none ≡ some left = rw (other, dashed, unknown) at h in cc
      | inr (arity, known) ↦
          after_cut-Takes argument arity _ rest left
            (record { not_separator = other; dashed = dashed; supported = known; cut = refl })
            (rw (other, dashed, known) at h)
    ]
  ]
]

Takes-dashed :
    {argument : LosslessOsString} {rest left : List LosslessOsString}
    → Takes argument rest left
    → is_dashed argument.bytes ≡ true
Takes-dashed (alone has) = has.dashed
Takes-dashed (without_value has) = has.dashed
Takes-dashed (with_inline has _) = has.dashed
Takes-dashed (with_value has) = has.dashed
Takes-dashed (with_plain has _) = has.dashed
Takes-dashed (with_values _ has _ _ _) = has.dashed

-- The first of a sequence of options is dashed.
skip-IsClaudeOptions :
    (left : List LosslessOsString)
    → IsClaudeOptions left
    → (skip_plain left ≡ left) × (skip_one_plain left ≡ left)
skip-IsClaudeOptions [] finished = (refl, refl)
skip-IsClaudeOptions (argument ∷ rest) (option takes _) =
    let dashed = Takes-dashed takes in (rw dashed refl, rw dashed refl)

skip_plain-values :
    (values left : List LosslessOsString)
    → IsPlain values
    → skip_plain (values ++ left) ≡ skip_plain left
skip_plain-values [] left h = refl
skip_plain-values (value ∷ values) left (plain, h) = rw plain (skip_plain-values values left h)

-- What the code does with one option is what the grammar takes.
after_argument-HasOption :
    (argument : LosslessOsString) (arity : ClaudeOptionArity) (inline_value : Option Bytes)
    (rest : List LosslessOsString)
    → HasOption argument arity inline_value
    → after_argument argument rest ≡ after_cut arity inline_value rest
unfolding after_argument
after_argument-HasOption argument arity inline_value rest has =
    rw (has.not_separator, has.dashed, has.supported, has.cut) refl

after_cut-inline :
    (arity : ClaudeOptionArity) (b : ℕ) (bs : Bytes) (rest : List LosslessOsString)
    → arity ≢ flag_arity
    → after_cut arity (some (b ∷ bs)) rest ≡ some rest
unfolding after_cut
after_cut-inline flag_arity b bs rest h = absurd (h refl)
after_cut-inline required_value b bs rest h = refl
after_cut-inline optional_value b bs rest h = refl
after_cut-inline variadic_value b bs rest h = refl

after_argument-some :
    (argument : LosslessOsString) (rest left : List LosslessOsString)
    → Takes argument rest left
    → IsClaudeOptions left
    → after_argument argument rest ≡ some left
unfolding after_cut after_option
after_argument-some argument rest left (alone has) options =
    after_argument-HasOption argument flag_arity none rest has
after_argument-some argument rest left (without_value has) options =
    after_argument-HasOption argument optional_value none rest has
    ∙ ap some (skip-IsClaudeOptions rest options).1
after_argument-some argument rest left (with_inline {arity = arity} {b = b} {bs = bs} has h)
      options =
    after_argument-HasOption argument arity _ rest has ∙ after_cut-inline arity b bs rest h
after_argument-some argument rest left (with_value has) options =
    after_argument-HasOption argument required_value none rest has
after_argument-some argument (value ∷ rest) left (with_plain has plain) options =
    after_argument-HasOption argument optional_value none (value ∷ rest) has ∙ rw plain refl
after_argument-some argument (value ∷ rest) left (with_values values has plain h split) options =
    after_argument-HasOption argument variadic_value none (value ∷ rest) has
    ∙ rw plain (
        ap some (
          ap skip_plain split
          ∙ skip_plain-values values left h
          ∙ (skip-IsClaudeOptions left options).0))

Takes-length :
    {argument : LosslessOsString} {rest left : List LosslessOsString}
    → Takes argument rest left
    → length left ≤ length rest
Takes-length (alone has) = omega arith
Takes-length (without_value has) = omega arith
Takes-length (with_inline has h) = omega arith
Takes-length (with_value has) = omega arith
Takes-length (with_plain has plain) = omega arith
Takes-length (with_values {left = left} values has plain h split) =
    rw split (omega (arith, length-append values left))

IsAnswer : List LosslessOsString → Option Bool → Type 0
IsAnswer arguments answer =
    ((answer ≡ some true) × IsClaudeOptions arguments)
    ⊎ ((answer ≡ some false) × ¬ IsClaudeOptions arguments)

arguments_loop_step :
    (fuel : ℕ) (argument : LosslessOsString) (rest left : List LosslessOsString)
    → after_argument argument rest ≡ some left
    → arguments_loop (suc fuel) (argument ∷ rest) ≡ arguments_loop fuel left
unfolding arguments_loop
arguments_loop_step fuel argument rest left next = rw (next, arguments_loop) refl

arguments_loop_refused :
    (fuel : ℕ) (argument : LosslessOsString) (rest : List LosslessOsString)
    → after_argument argument rest ≡ none
    → arguments_loop (suc fuel) (argument ∷ rest) ≡ some false
unfolding arguments_loop
arguments_loop_refused fuel argument rest refused = rw (refused, arguments_loop) refl

arguments_loop-IsAnswer :
    (fuel : ℕ) (arguments : List LosslessOsString)
    → length arguments < fuel
    → IsAnswer arguments (arguments_loop fuel arguments)
unfolding IsAnswer arguments_loop
arguments_loop-IsAnswer zero arguments h = elim h [ ]
arguments_loop-IsAnswer (suc fuel) [] h = inl (refl, finished)
arguments_loop-IsAnswer (suc fuel) (argument ∷ rest) h =
    elim (Option-cases (after_argument argument rest)) [
      | inl refused ↦ inr (
        arguments_loop_refused fuel argument rest refused,
        elim [
          | option takes options ↦
              let taken = after_argument-some argument rest _ takes options in cc
        ],
      )
      | inr (left, next) ↦
          let takes = after_argument-Takes argument rest left next in
          let shorter = Takes-length takes in
          let step = arguments_loop_step fuel argument rest left next in
          elim (arguments_loop-IsAnswer fuel left (omega arith)) [
            | inl (answer, options) ↦ inl (step ∙ answer, option takes options)
            | inr (answer, nothing) ↦ inr (
              step ∙ answer,
              elim [
                | option takes' options ↦
                    let taken = after_argument-some argument rest _ takes' options in
                    nothing (subst IsClaudeOptions (some-injective (sym taken ∙ next)) options)
              ],
            )
          ]
    ]

behind_first-length : (argv : List LosslessOsString) → length (behind_first argv) ≤ length argv
behind_first-length [] = omega arith
behind_first-length (_ ∷ arguments) = omega arith

-- A command line is taken for an interactive session exactly if the arguments behind `argv[0]` are
-- supported options with their values, and no prompt, subcommand or `--`.
pub supported_claude_tui_arguments_iff :
    (argv : List LosslessOsString)
    → (supported_claude_tui_arguments argv ≡ true) ↔ IsClaudeOptions (behind_first argv)
unfolding supported_claude_tui_arguments IsAnswer
supported_claude_tui_arguments_iff argv =
    let enough = behind_first-length argv in
    elim (arguments_loop-IsAnswer (suc (length argv)) (behind_first argv) (omega arith)) [
      | inl (answer, options) ↦
          rw (supported_claude_tui_arguments, answer) (λ h. options, λ o. refl)
      | inr (answer, refused) ↦
          rw (supported_claude_tui_arguments, answer) (λ h. cc, λ o. absurd (refused o))
    ]
