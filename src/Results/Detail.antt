-- ===== src/Results/Detail.antt =====
-- The detail pane of the results, detail/state.rs and detail/update.rs: the draft of one cell.
use dbm.Base.{
  ℕ, ◌+◌, ◌-◌, ◌%◌, ◌^◌, min, max, Bool, true, false, not, ◌&&◌, ◌||◌, Option, none, some, [], Text,
  ltb, ◌==◌, ◌=?◌, nat_eq, list_eq, if◌then◌else◌,
}
use dbm.Base.Int.{ℤ, pos, negsuc, shift}
use dbm.Grid.Search.{KeyEvent}
use dbm.Results.Editor.{Editor, accepts_key_event, try_insert_non_ascii_key}

-- detail_edit.rs
unfoldable pub detail_draft_dirty : Text → Text → Bool
detail_draft_dirty editor_text baseline = not (editor_text =? baseline)

pub record DetailState (ed : Editor) : Type 0 where
  pub scroll : ℕ
  pub baseline : Text
  pub draft : Text
  pub dirty : Bool
  pub leave_warning : Bool
  pub focused : Bool
  pub editor : Option ed.State

pub data DetailMessage (ed : Editor) : Type 0 where
  scroll_by : ℤ → DetailMessage ed
  set_v_scroll : ℕ → DetailMessage ed
  set_draft load_cell_value : Text → DetailMessage ed
  clear : DetailMessage ed
  key_event : KeyEvent → DetailMessage ed
  mouse_gesture : ed.Gesture → DetailMessage ed

abbrev pos_part : ℤ → ℕ
pos_part (pos n) = n
pos_part (negsuc n) = 0

-- `n as i32`
unfoldable as_i32 : ℕ → ℤ
as_i32 n = if ltb (n % 2 ^ 32) (2 ^ 31) then pos (n % 2 ^ 32) else negsuc (2 ^ 32 - n % 2 ^ 32 - 1)

-- `(y as i32).saturating_add(delta).max(0) as usize`
unfoldable viewport_to : ℕ → ℤ → ℕ
unfolding as_i32
viewport_to y delta =
    min (elim (as_i32 y) [ pos a ↦ pos_part (shift a delta) | negsuc a ↦ pos_part delta - (a + 1) ])
      (2 ^ 31 - 1)

unfoldable scroll_to : ℕ → ℤ → ℕ
scroll_to scroll (pos n) = min (scroll + n) (2 ^ 64 - 1)
scroll_to scroll (negsuc n) = scroll - (n + 1)

module _ (ed : Editor) where
  unfoldable pub default : DetailState ed
  default = record {
    scroll = 0;
    baseline = [];
    draft = [];
    dirty = false;
    leave_warning = false;
    focused = false;
    editor = none;
  }

  unfoldable clamp_scroll : DetailState ed → ℕ → ℕ → DetailState ed
  clamp_scroll d row_count viewport = record d {
    scroll = min d.scroll (row_count - max viewport 1);
  }

  unfoldable sync_editor_viewport : DetailState ed → ℕ → DetailState ed × Bool
  sync_editor_viewport d y = if not d.focused then (d, false) else elim d.editor [
    | none ↦ (d, false)
    | some e ↦ (record d { editor = some (ed.set_viewport y e) }, true)
  ]

  unfoldable pub load_cell : DetailState ed → Text → DetailState ed
  load_cell d value = record d {
    baseline = value;
    draft = value;
    dirty = false;
    leave_warning = false;
  }

  unfoldable pub current_text : DetailState ed → Text
  current_text d = elim d.editor [ none ↦ d.draft | some e ↦ ed.text e ]

  unfoldable pub has_unsaved_draft : DetailState ed → Bool
  has_unsaved_draft d = d.focused && d.dirty

  unfoldable pub focus_editor : DetailState ed → Text → DetailState ed
  focus_editor d value = record {
    scroll = 0;
    baseline = value;
    draft = value;
    dirty = false;
    leave_warning = false;
    focused = true;
    editor = some (ed.fresh value);
  }

  unfoldable pub unfocus : DetailState ed → DetailState ed
  unfocus d = record d { focused = false; editor = none }

  unfoldable pub clear_draft : DetailState ed → DetailState ed
  clear_draft d = record {
    scroll = d.scroll;
    baseline = [];
    draft = [];
    dirty = false;
    leave_warning = false;
    focused = false;
    editor = none;
  }

  unfoldable pub reset_for_close : DetailState ed → DetailState ed
  reset_for_close d = record d { scroll = 0; leave_warning = false }

  -- With the editor `e`: the draft is its text.
  unfoldable pub with_draft_of : DetailState ed → ed.State → DetailState ed
  unfolding detail_draft_dirty
  with_draft_of d e = record d {
    draft = ed.text e;
    dirty = detail_draft_dirty (ed.text e) d.baseline;
    editor = some (ed.highlight d.baseline e);
  }

  unfoldable pub sync_draft_from_editor : DetailState ed → DetailState ed
  unfolding with_draft_of
  sync_draft_from_editor d = elim d.editor [ none ↦ d | some e ↦ with_draft_of d e ]

  -- After a key that the editor took in, from `before` to `e`.
  unfoldable pub after_key : DetailState ed → ed.State → ed.State → DetailState ed × Bool
  unfolding with_draft_of
  after_key d before e =
      if not (ed.text e =? ed.text before) || not (ed.same_cursor before e)
      then (with_draft_of d e, true)
      else (record d { editor = some e }, false)

  unfoldable pub take_key : DetailState ed → KeyEvent → ed.State → DetailState ed × Bool
  unfolding after_key with_draft_of try_insert_non_ascii_key accepts_key_event
  take_key d key e = elim (try_insert_non_ascii_key ed key e) [
    | some inserted ↦ (with_draft_of d inserted, true)
    | none ↦
        if not (accepts_key_event key)
        then (record d { editor = some e }, false)
        else after_key d e (ed.on_key_event key e)
  ]

  unfoldable pub apply_editor_key : DetailState ed → KeyEvent → DetailState ed × Bool
  unfolding take_key
  apply_editor_key d key = elim d.editor [
    | none ↦ (d, false)
    | some e ↦ take_key d key (ed.set_scroll_locked false e)
  ]

  unfoldable pub apply_mouse_gesture : DetailState ed → ed.Gesture → DetailState ed × Bool
  apply_mouse_gesture d g = elim d.editor [
    | none ↦ (d, false)
    | some e ↦
        if not d.focused
        then (d, false)
        else (record d { editor = some (ed.gesture g (ed.set_scroll_locked false e)) }, true)
  ]

  -- The editor's viewport moves to `y`, if it is focused; else the preview scrolls to `rows`.
  unfoldable pub scroll_editor_or :
      DetailState ed → Option ed.State → (ℕ → ℕ) → ℕ → DetailState ed × Bool
  scroll_editor_or d none to rows = (record d { scroll = rows }, not (rows == d.scroll))
  scroll_editor_or d (some e) to rows = (
    record d { editor = some (ed.set_scroll_locked true (ed.set_viewport (to (ed.viewport e)) e)) },
    not (to (ed.viewport e) == ed.viewport e),
  )

  abbrev pub focused_editor : DetailState ed → Option ed.State
  focused_editor d = if d.focused then d.editor else none

  unfoldable pub update : DetailMessage ed → DetailState ed → DetailState ed × Bool
  unfolding apply_editor_key apply_mouse_gesture scroll_editor_or load_cell clear_draft
      detail_draft_dirty viewport_to scroll_to
  update (scroll_by delta) d =
      scroll_editor_or d (focused_editor d) (λ y. viewport_to y delta) (scroll_to d.scroll delta)
  update (set_v_scroll position) d = scroll_editor_or d (focused_editor d) (λ y. position) position
  update (set_draft text) d =
      (record d { draft = text; dirty = detail_draft_dirty text d.baseline }, true)
  update (load_cell_value value) d = (load_cell d value, true)
  update clear d = (clear_draft d, true)
  update (key_event key) d = apply_editor_key d key
  update (mouse_gesture g) d = apply_mouse_gesture d g
