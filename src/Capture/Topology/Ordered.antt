-- ===== src/Capture/Topology/Ordered.antt =====
-- An accepted topology is in order and within the limits, at every level.
use tmux_rescue.Common.{
  >>=-eq-ok, All, Bool, List, [], ap, arith, false, is_empty, length, list_eq, ltb, num_eq, ok,
  ok-injective, refl, subst, suc, true, ℕ, ◌+◌, ◌<◌, ◌∷◌, ◌≡◌, ◌≤◌,
}
use tmux_rescue.Std.Sort.{sort_by}
use tmux_rescue.Std.Sort.Laws.{IsSorted, length-sort_by, sort_by-All, sort_by-IsSorted}
use tmux_rescue.Std.Text.{Text}
use tmux_rescue.Capture.{TopologySession, TopologyWindow}
use tmux_rescue.Capture.Topology.{
  TopologyObservation, check_pane_indexes, check_session, check_sessions, check_window,
  check_windows, pane_key, session_key, text_less, topology_try_new, window_key,
}
use tmux_rescue.Model.Error.{
  max_panes_per_window, max_sessions, max_windows_per_session, refuse_if-eq-ok,
}
use tmux_rescue.Model.Name.{validate_session_name, validate_window_name}

-- Neither empty nor more than the limit.
abbrev pub IsWithin : {A : Type 0} → ℕ → List A → Type 0
IsWithin maximum xs = (0 < length xs) × (length xs ≤ maximum)

abbrev pub IsOrderedWindow : TopologyWindow → Type 0
IsOrderedWindow window =
    IsWithin max_panes_per_window window.panes × IsSorted pane_key ltb window.panes

abbrev pub IsOrderedSession : TopologySession → Type 0
IsOrderedSession session =
    IsWithin max_windows_per_session session.windows
    × IsSorted window_key ltb session.windows
    × All IsOrderedWindow session.windows

-- Sessions by name, windows and panes by index, and none of the lists empty or beyond its limit.
pub record IsOrderedTopology (reading : TopologyObservation) : Type 0 where
  pub within_limit : IsWithin max_sessions reading.sessions
  pub by_name : IsSorted session_key text_less reading.sessions
  pub ordered : All IsOrderedSession reading.sessions

ltb-asymmetric : (m n : ℕ) → ltb m n ≡ true → ltb n m ≡ false
ltb-asymmetric m n h = ground arith

text_less-asymmetric :
    (text other : Text) → text_less text other ≡ true → text_less other text ≡ false
text_less-asymmetric [] [] h = cc
text_less-asymmetric [] (d ∷ other) h = refl
text_less-asymmetric (c ∷ text) [] h = cc
text_less-asymmetric (c ∷ text) (d ∷ other) h = ground (arith, text_less-asymmetric text other)

checked_bounds :
    {A : Type 0} (maximum : ℕ) (xs : List A)
    → is_empty xs ≡ false
    → ltb maximum (length xs) ≡ false
    → IsWithin maximum xs
checked_bounds maximum [] h k = cc
checked_bounds maximum (x ∷ xs) h k = (omega arith, ground arith)

module _ {A : Type 0} {K : Type 0} (key : A → K) (less : K → K → Bool) where
  sort_by-IsWithin :
      (maximum : ℕ) (xs : List A) → IsWithin maximum xs → IsWithin maximum (sort_by key less xs)
  sort_by-IsWithin maximum xs (some_left, few) =
      let same = length-sort_by key less xs in (omega (arith, same), omega (arith, same))

check_window-IsOrderedWindow :
    (session : Text) (window checked : TopologyWindow)
    → check_window session window ≡ ok checked
    → IsOrderedWindow checked
unfolding check_window
check_window-IsOrderedWindow session window checked h =
    let (filled, behind) = refuse_if-eq-ok _ h in
    let (few, behind') = refuse_if-eq-ok _ behind in
    let (_, _, done) =
      >>=-eq-ok (check_pane_indexes session window.source_index [] window.panes) _ behind' in
    subst IsOrderedWindow (ok-injective done) (
      sort_by-IsWithin pane_key ltb max_panes_per_window window.panes
          (checked_bounds max_panes_per_window window.panes filled few),
      sort_by-IsSorted pane_key ltb ltb-asymmetric window.panes,
    )

check_windows-All :
    (session : Text) (session_position : ℕ) (seen : List ℕ) (position : ℕ)
    (windows checked : List TopologyWindow)
    → check_windows session session_position seen position windows ≡ ok checked
    → All IsOrderedWindow checked × (length checked ≡ length windows)
unfolding check_windows
check_windows-All session session_position seen position [] checked h =
    let none_left = ok-injective h in rw (← none_left) (tt, refl)
check_windows-All session session_position seen position (window ∷ windows) checked h =
    let (_, _, behind) =
      >>=-eq-ok (validate_window_name window.name session_position position) _ h in
    let (_, fresh) = refuse_if-eq-ok _ behind in
    let (first, passed, later) = >>=-eq-ok (check_window session window) _ fresh in
    let (others, rest, done) =
      >>=-eq-ok
        (check_windows session session_position (window.source_index ∷ seen) (position + 1) windows)
        _ later in
    let (ordered, same) =
      check_windows-All session session_position (window.source_index ∷ seen) (position + 1) windows
        others rest in
    let whole = ok-injective done in
    rw (← whole) ((check_window-IsOrderedWindow session window first passed, ordered), ap suc same)

check_session-IsOrderedSession :
    (position : ℕ) (session checked : TopologySession)
    → check_session position session ≡ ok checked
    → IsOrderedSession checked
unfolding check_session
check_session-IsOrderedSession position session checked h =
    let (filled, behind) = refuse_if-eq-ok _ h in
    let (few, behind') = refuse_if-eq-ok _ behind in
    let (windows, passed, done) =
      >>=-eq-ok (check_windows session.name position [] 0 session.windows) _ behind' in
    let (ordered, same) =
      check_windows-All session.name position [] 0 session.windows windows passed in
    let (some_left, not_many) = checked_bounds max_windows_per_session session.windows filled few in
    subst IsOrderedSession (ok-injective done) (
      sort_by-IsWithin window_key ltb max_windows_per_session windows
          (omega (arith, same), omega (arith, same)),
      sort_by-IsSorted window_key ltb ltb-asymmetric windows,
      sort_by-All window_key ltb IsOrderedWindow windows ordered,
    )

check_sessions-All :
    (seen : List Text) (position : ℕ) (sessions checked : List TopologySession)
    → check_sessions seen position sessions ≡ ok checked
    → All IsOrderedSession checked × (length checked ≡ length sessions)
unfolding check_sessions
check_sessions-All seen position [] checked h =
    let none_left = ok-injective h in rw (← none_left) (tt, refl)
check_sessions-All seen position (session ∷ sessions) checked h =
    let (_, _, behind) = >>=-eq-ok (validate_session_name session.name position) _ h in
    let (_, fresh) = refuse_if-eq-ok _ behind in
    let (first, passed, later) = >>=-eq-ok (check_session position session) _ fresh in
    let (others, rest, done) =
      >>=-eq-ok (check_sessions (session.name ∷ seen) (position + 1) sessions) _ later in
    let (ordered, same) =
      check_sessions-All (session.name ∷ seen) (position + 1) sessions others rest in
    let whole = ok-injective done in
    rw (← whole)
      ((check_session-IsOrderedSession position session first passed, ordered), ap suc same)

-- An accepted topology has its sessions by name, its windows and panes by index, and none of these
-- lists is empty or beyond its limit.
pub topology_try_new-IsOrderedTopology :
    (sessions : List TopologySession) (reading : TopologyObservation)
    → topology_try_new sessions ≡ ok reading
    → IsOrderedTopology reading
unfolding topology_try_new
topology_try_new-IsOrderedTopology sessions reading h =
    let (filled, behind) = refuse_if-eq-ok _ h in
    let (few, behind') = refuse_if-eq-ok _ behind in
    let (checked, passed, done) = >>=-eq-ok (check_sessions [] 0 sessions) _ behind' in
    let (ordered, same) = check_sessions-All [] 0 sessions checked passed in
    let (some_left, not_many) = checked_bounds max_sessions sessions filled few in
    subst IsOrderedTopology (ok-injective done) (record {
      within_limit =
          sort_by-IsWithin session_key text_less max_sessions checked
            (omega (arith, same), omega (arith, same));
      by_name = sort_by-IsSorted session_key text_less text_less-asymmetric checked;
      ordered = sort_by-All session_key text_less IsOrderedSession checked ordered;
    })
