-- ===== src/Results/Examples.antt =====
-- The theorems on the results pane at concrete inputs: a page of a table, with an editor that appends
-- each character to its text.
use Prim.Native.String.{String}
use dbm.Base.{
  ℕ, ◌≡◌, refl, true, false, Option, none, some, List, [], ◌∷◌, ◌++◌, Text, codes, length,
}
use dbm.Base.Assoc
use dbm.Base.HashSet
use dbm.Edit.Session
use dbm.Edit.Session.{ResultsEditState, is_dirty}
use dbm.Edit.Live
use dbm.Edit.Live.{ColumnInfo, QueryResultData, live_rows}
use dbm.Edit.Sql.{EditTarget}
use dbm.Edit.Valid.{cell_at, default-IsValid}
use dbm.Edit.Coherence.{IsSafe, presses-enter_edit-IsSafe, presses}
use dbm.Grid.Search.{KeyEvent, char}
use dbm.Grid.State
use dbm.Grid.State.{ListState}
use dbm.Results.Editor.{Editor, plain}
use dbm.Results.Detail
use dbm.Results.Detail.{
  DetailState, current_text, has_unsaved_draft, focus_editor, apply_editor_key,
}
use dbm.Results.Message
use dbm.Results.State.{ResultsState, Outcome}
use dbm.Results.Update.{update}
use dbm.Results.Gates.{update-keeps_session, writes_session}
use dbm.Results.Draft.{update-keeps_draft, writes_draft, held}
use dbm.Results.Sound.Pane.{IsSound}
use dbm.Results.Sound.{update-IsSound}
use dbm.Results.Saving.{save_detail_cell_lem}
use dbm.Results.Stale.{stale_draft}
use dbm.Results.Rerun.{commit_outcome_lem, IsCommitted}

abbrev typed_key : KeyEvent → Text → Text
typed_key key e = elim key.code [ char c ↦ e ++ c ∷ [] | _ ↦ e ]

abbrev typewriter : Editor
typewriter = record {
  State = Text;
  Gesture = Unit {0};
  fresh = λ t. t;
  text = λ e. e;
  set_text = λ t e. t;
  on_key_event = typed_key;
  inserting = λ e. false;
  same_cursor = λ a b. true;
  set_scroll_locked = λ b e. e;
  viewport = λ e. 0;
  set_viewport = λ y e. e;
  highlight = λ t e. e;
  gesture = λ g e. e;
  selection = λ e. none;
}

abbrev fold : Text → Text
fold s = s

abbrev width : Text → ℕ
width s = length s

abbrev column : String → ColumnInfo
column name = record {
  name = codes name;
  type_name = codes "text";
  type_display = [];
  comment = none;
}

abbrev page_of : List (List Text) → QueryResultData
page_of rows = record {
  columns = column "id" ∷ column "name" ∷ [];
  rows = rows;
  rows_affected = none;
  total_rows = none;
}

abbrev target : EditTarget
target = record {
  schema = codes "public";
  table = codes "people";
  primary_keys = codes "id" ∷ [];
  columns = codes "id" ∷ codes "name" ∷ [];
}

-- The cursor is on the second name.
abbrev grid : Live.ListState
grid = record {
  result = some (page_of ((codes "1" ∷ codes "ann" ∷ []) ∷ (codes "2" ∷ codes "bob" ∷ []) ∷ []));
  row = 1;
  col = 1;
  edit = Session.default;
  edit_target = some target;
}

abbrev list_of : Live.ListState → ListState
unfolding State.new
list_of live = record State.new { live = live; last_sql = codes "select * from people" }

-- The detail pane shows the cell, and its editor has the focus.
abbrev focused_on : Text → DetailState typewriter
focused_on value = record {
  scroll = 0;
  baseline = value;
  draft = value;
  dirty = false;
  leave_warning = false;
  focused = true;
  editor = some value;
}

-- An edit session without changes.
abbrev editing : ResultsState typewriter
unfolding State.new Live.enter_edit
editing = record {
  list = list_of (Live.enter_edit grid);
  detail = focused_on (codes "bob");
  detail_open = true;
}

-- A character was typed.
abbrev drafted : ResultsState typewriter
unfolding State.new Live.enter_edit
drafted = record editing {
  detail = record (focused_on (codes "bob")) {
    draft = codes "bobx";
    dirty = true;
    editor = some (codes "bobx");
  };
}

-- It was saved.
abbrev changed : ResultsState typewriter
unfolding State.new Live.enter_edit Live.apply_cell_value
changed = record editing {
  list = list_of (Live.apply_cell_value (Live.enter_edit grid) 1 1 (codes "bobx"));
}

abbrev after : ResultsState typewriter → Option (Outcome typewriter) → Outcome typewriter
after s none = (s, [], false)
after s (some o) = o

abbrev sent : Message.ResultsMessage typewriter → ResultsState typewriter → Outcome typewriter
sent m s = after s (update typewriter fold width 5 0 m s)

drafted-IsSound : IsSound typewriter drafted
unfolding State.new Live.enter_edit Detail.detail_draft_dirty
drafted-IsSound = record { honest = refl; hosted = refl; shown = refl }

update-keeps_session_example :
    (sent (Message.query_error (codes "down")) changed).0.list.live.edit ≡ changed.list.live.edit
unfolding update is_dirty writes_session State.new Live.enter_edit Live.apply_cell_value
    Session.apply_cell Session.enter_edit HashSet.contains Session.count_changes HashSet.extend
    Session.dirty_rows Assoc.insert HashSet.insert
update-keeps_session_example =
    update-keeps_session typewriter fold width 5 0 (Message.query_error (codes "down")) changed
      (sent (Message.query_error (codes "down")) changed) refl refl refl

update-keeps_draft_example :
    held typewriter (sent (Message.set_page 2) drafted).0.detail ≡ held typewriter drafted.detail
unfolding update writes_draft has_unsaved_draft State.new Live.enter_edit Session.enter_edit
    Session.count_changes HashSet.extend Session.dirty_rows
update-keeps_draft_example =
    update-keeps_draft typewriter fold width 5 0 (Message.set_page 2) drafted
      (sent (Message.set_page 2) drafted) refl refl refl refl

update-IsSound_example : IsSound typewriter (sent Message.toggle_detail drafted).0
unfolding update State.new Live.enter_edit Session.enter_edit Session.count_changes HashSet.extend
    Session.dirty_rows
update-IsSound_example =
    update-IsSound typewriter fold width 5 0 Message.toggle_detail drafted
      (sent Message.toggle_detail drafted) drafted-IsSound refl

grid-IsSafe : IsSafe (Live.enter_edit grid)
unfolding presses Live.editable
grid-IsSafe = presses-enter_edit-IsSafe grid [] refl refl default-IsValid tt

save_detail_cell_lem_example :
    (cell_at (live_rows (sent Message.save_detail_cell drafted).0.list.live.result) 1 1
      ≡ some (current_text typewriter drafted.detail))
    × IsSafe (sent Message.save_detail_cell drafted).0.list.live
    × (has_unsaved_draft typewriter (sent Message.save_detail_cell drafted).0.detail ≡ false)
unfolding update has_unsaved_draft State.new Live.enter_edit HashSet.contains Session.enter_edit
    Session.count_changes HashSet.extend Session.dirty_rows
save_detail_cell_lem_example =
    save_detail_cell_lem typewriter fold width 5 0 drafted (sent Message.save_detail_cell drafted)
      drafted-IsSound refl grid-IsSafe refl refl refl refl

abbrev other_page : QueryResultData
other_page = page_of ((codes "7" ∷ codes "eve" ∷ []) ∷ [])

abbrev landed : ResultsState typewriter
unfolding State.new Live.enter_edit
landed = (sent (Message.set_result other_page true) editing).0

abbrev typed : ResultsState typewriter
unfolding State.new Live.enter_edit
typed = (sent (Message.detail_editor_key (plain b'x')) landed).0

-- The text of the second name, with the key, becomes the id of the new row.
stale_draft_example :
    (landed.detail.editor ≡ editing.detail.editor)
    × (cell_at (live_rows (sent Message.save_detail_cell typed).0.list.live.result) 0 0
        ≡ some (current_text typewriter (apply_editor_key typewriter landed.detail (plain b'x')).0))
unfolding update is_dirty State.new Live.enter_edit Session.enter_edit Session.count_changes
    HashSet.extend Session.dirty_rows dbm.Grid.Paging.handle_set_result
stale_draft_example =
    stale_draft typewriter fold width 5 0 editing other_page true (plain b'x')
      (sent (Message.set_result other_page true) editing)
      (sent (Message.detail_editor_key (plain b'x')) landed) (sent Message.save_detail_cell typed)
      refl refl refl refl refl refl refl refl refl refl

commit_outcome_lem_example : IsCommitted changed (sent (Message.commit_outcome true) changed)
unfolding update State.new Live.enter_edit Live.apply_cell_value Session.apply_cell
    Session.enter_edit HashSet.contains Session.count_changes HashSet.extend Session.dirty_rows
    Assoc.insert HashSet.insert
commit_outcome_lem_example =
    commit_outcome_lem typewriter fold width 5 0 changed
      (sent (Message.commit_outcome true) changed) refl
