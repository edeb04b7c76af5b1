-- ===== src/Process/Stat/Name.antt =====
-- A process's own name does not disturb the reading of its line.
use tmux_rescue.Common.{
  ==_ne, ==_refl, Bool-cases, [], contains, false, inl, inr, list_eq, ne_==, none, num_eq, refl,
  some, sym, ℕ, ◌++◌, ◌==◌, ◌∙◌, ◌∷◌, ◌≡◌,
}
use tmux_rescue.Std.Text.{Bytes}
use tmux_rescue.Process.Stat.{around_first, behind_last, parse_proc_stat, stat_from}

around_first-append :
    (b : ℕ) (before behind : Bytes)
    → contains before b ≡ false
    → around_first b (before ++ b ∷ behind) ≡ some (before, behind)
unfolding around_first
around_first-append b [] behind h = rw (==_refl b) refl
around_first-append b (c ∷ before) behind h = elim (Bool-cases (b == c)) [
  | inl same ↦ let never = rw same at h in cc
  | inr other ↦
      let differs : c == b ≡ false = ne_== c b (λ equal. ==_ne b c other (sym equal)) in
      rw (differs, around_first-append b before behind (rw other at h)) refl
]

behind_last-none :
    (b : ℕ) (behind : Bytes) → contains behind b ≡ false → behind_last b behind ≡ none
unfolding behind_last
behind_last-none b [] h = refl
behind_last-none b (c ∷ behind) h = elim (Bool-cases (b == c)) [
  | inl same ↦ let never = rw same at h in cc
  | inr other ↦
      let differs : c == b ≡ false = ne_== c b (λ equal. ==_ne b c other (sym equal)) in
      rw (behind_last-none b behind (rw other at h), differs) refl
]

behind_last-append :
    (b : ℕ) (before behind : Bytes)
    → contains behind b ≡ false
    → behind_last b (before ++ b ∷ behind) ≡ some behind
unfolding behind_last
behind_last-append b [] behind h = rw (behind_last-none b behind h, ==_refl b) refl
behind_last-append b (c ∷ before) behind h = rw (behind_last-append b before behind h) refl

parse_proc_stat-parts :
    (expected : ℕ) (input before inside behind : Bytes)
    → around_first b'(' input ≡ some (before, inside)
    → behind_last b')' inside ≡ some behind
    → parse_proc_stat expected input ≡ stat_from expected before behind
unfolding parse_proc_stat
parse_proc_stat-parts expected input before inside behind opened closed =
    rw (opened, parse_proc_stat, closed) refl

-- Whatever stands between the parentheses, parentheses and white space too, the line is read from
-- what is in front of the first one and behind the last one.
parse_proc_stat-stat_from :
    (expected : ℕ) (before name behind : Bytes)
    → contains before b'(' ≡ false
    → contains behind b')' ≡ false
    → parse_proc_stat expected (before ++ b'(' ∷ (name ++ b')' ∷ behind))
      ≡ stat_from expected before behind
parse_proc_stat-stat_from expected before name behind h k =
    parse_proc_stat-parts expected _ before (name ++ b')' ∷ behind) behind
      (around_first-append b'(' before (name ++ b')' ∷ behind) h)
      (behind_last-append b')' name behind k)

-- A line is read in the same way whatever the name of the process is, if no parenthesis opens in
-- front of the name's own and none closes behind it.
pub parse_proc_stat-any_name :
    (expected : ℕ) (before name other behind : Bytes)
    → contains before b'(' ≡ false
    → contains behind b')' ≡ false
    → parse_proc_stat expected (before ++ b'(' ∷ (name ++ b')' ∷ behind))
      ≡ parse_proc_stat expected (before ++ b'(' ∷ (other ++ b')' ∷ behind))
parse_proc_stat-any_name expected before name other behind h k =
    parse_proc_stat-stat_from expected before name behind h k
    ∙ sym (parse_proc_stat-stat_from expected before other behind h k)
