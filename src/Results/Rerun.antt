-- ===== src/Results/Rerun.antt =====
-- The query runs again: after a refresh, at most once in a second, and after a commit.
use dbm.Base.{
  ℕ, ◌+◌, ◌≡◌, refl, ap, subst, ◌∙◌, true, false, not, ◌&&◌, none, some, Text, arith, if-cases,
  list_eq, nat_eq, [], ◌∷◌, ltb, List, if◌then◌else◌,
}
use dbm.Edit.Session
use dbm.Edit.Session.{is_dirty}
use dbm.Edit.Live
use dbm.Edit.Live.{live_rows}
use dbm.Grid.State.{ListState}
use dbm.Grid.Effect.{ResultsEffect, run_query}
use dbm.Grid.Handlers
use dbm.Grid.Paging.{has_dirty_session}
use dbm.Grid.Update
use dbm.Results.Editor.{Editor}
use dbm.Results.Detail.{clear_draft}
use dbm.Results.Message
use dbm.Results.Message.{
  is_move, is_enter_edit, is_exit_edit, is_rollback, detail_draft_blocks_list_action,
  list_edits_block_action, resets_detail_scroll,
}
use dbm.Results.State.{ResultsState, Outcome, refresh_allowed, mark_refresh_started, run_again}
use dbm.Results.Update.{
  follow_session, resolve_warning, reset_scroll, follow_move, after_list, route_to_list, dispatch,
  gated, update, handle_commit_outcome, handle_refresh,
}
use dbm.Results.Draft.{held}
use dbm.Results.Saving.{Holds}

-- The last query of a list, as the effect that runs it.
abbrev last_query : ListState → List ResultsEffect
last_query s = run_query s.context s.last_sql s.paginated s.page s.row_limit ∷ []

-- No unsaved draft has the focus, and the session has no unsaved changes.
abbrev IsFree : {ed : Editor} → ResultsState ed → Type 0
IsFree s = (s.detail.focused && s.detail.dirty ≡ false) × (has_dirty_session s.list ≡ false)

-- The session is over and the draft is gone; the rows are still there, and the last query runs.
abbrev pub IsCommitted : {ed : Editor} → ResultsState ed → Outcome ed → Type 0
IsCommitted {ed} s o =
    (o.1 ≡ last_query s.list)
    × (o.0.list.live.edit ≡ Session.default)
    × (o.0.list.live.result ≡ s.list.live.result)
    × (held ed o.0.detail ≡ ([], [], false, false, none))

module _ (ed : Editor) (lower : Text → Text) (width : Text → ℕ) where
  -- What a refresh at `now` leads to.
  record IsRefreshed (now : ℕ) (s : ResultsState ed) (o : Outcome ed) : Type 0 where
    runs :
        o.1 ≡ (if refresh_allowed now s.list.refresh_cooldown_until then last_query s.list else [])
    again : last_query o.0.list ≡ last_query s.list
    free : IsFree o.0
    cools :
        refresh_allowed now s.list.refresh_cooldown_until ≡ true
        → o.0.list.refresh_cooldown_until ≡ some (now + 1_000_000_000)

  refreshing :
      (now wall : ℕ) (s : ResultsState ed)
      → IsFree s
      → Holds (IsRefreshed now s) (update ed lower width now wall Message.refresh s)
  unfolding update gated dispatch detail_draft_blocks_list_action list_edits_block_action
      handle_refresh mark_refresh_started run_again route_to_list Update.update Update.handle
      Update.disarm Handlers.handle_run_query after_list follow_session resolve_warning reset_scroll
      follow_move is_move is_enter_edit is_exit_edit is_rollback resets_detail_scroll
  refreshing now wall s free =
      if-cases (Holds (IsRefreshed now s)) (s.detail.focused && (s.detail.dirty && true))
        (λ blocked. absurd (ground arith))
        λ open_gate.
          if-cases (Holds (IsRefreshed now s)) (has_dirty_session s.list && true)
            (λ blocked. absurd (ground arith))
            λ passed.
              if-cases (Holds (IsRefreshed now s))
                (not (refresh_allowed now s.list.refresh_cooldown_until))
                (λ cooling. record {
                  runs = ground arith;
                  again = refl;
                  free = free;
                  cools = λ allowed. cc;
                })
                (λ fires. record {
                  runs = ground arith;
                  again = refl;
                  free = ground arith;
                  cools = λ allowed. refl;
                })

  -- With nothing unsaved, a refresh that is let through runs the last query once; another refresh less
  -- than a second later runs nothing, and one after a second or more runs the same query once more.
  refresh_twice :
      (now wall later then_wall : ℕ) (s : ResultsState ed) (o p : Outcome ed)
      → IsFree s
      → refresh_allowed now s.list.refresh_cooldown_until ≡ true
      → update ed lower width now wall Message.refresh s ≡ some o
      → update ed lower width later then_wall Message.refresh o.0 ≡ some p
      → (o.1 ≡ last_query s.list)
        × (p.1 ≡ (if ltb later (now + 1_000_000_000) then [] else last_query s.list))
  unfolding refresh_allowed
  refresh_twice now wall later then_wall s o p free allowed first second =
      let one : IsRefreshed now s o =
        subst (Holds (IsRefreshed now s)) first (refreshing now wall s free) in
      let two : IsRefreshed later o.0 p =
        subst (Holds (IsRefreshed later o.0)) second (refreshing later then_wall o.0 one.free) in
      (
        one.runs ∙ ap (λ b. if b then last_query s.list else []) allowed,
        two.runs
            ∙ (λ i. if refresh_allowed later (one.cools allowed i) then one.again i else [])
            ∙ ground arith,
      )

  -- A successful commit, whatever the state: the session is over and the draft is gone, the rows stay
  -- until the result of the last query, which is run once, lands.
  pub commit_outcome_lem :
      (now wall : ℕ) (s : ResultsState ed) (o : Outcome ed)
      → update ed lower width now wall (Message.commit_outcome true) s ≡ some o
      → IsCommitted s o
  commit_outcome_lem now wall s o e = subst (Holds (IsCommitted s)) e (
      unfold update gated dispatch detail_draft_blocks_list_action list_edits_block_action
        handle_commit_outcome run_again route_to_list Update.update Update.handle Update.disarm
        Handlers.handle_run_query after_list follow_session resolve_warning reset_scroll follow_move
        is_move is_enter_edit is_exit_edit is_rollback resets_detail_scroll clear_draft
        Live.exit_edit Session.exit_edit Session.clear in
      if-cases (Holds (IsCommitted s)) (s.detail.focused && (s.detail.dirty && false))
        (λ blocked. absurd (ground arith))
        λ open_gate.
          if-cases (Holds (IsCommitted s)) (has_dirty_session s.list && false)
            (λ blocked. absurd (ground arith)) (λ passed. (refl, refl, refl, refl)))
