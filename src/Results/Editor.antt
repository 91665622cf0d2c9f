-- ===== src/Results/Editor.antt =====
-- The editor of a cell's text: edtui's editor state and key handler, a library, are parameters, and
-- so are the functions of crates/dbm-tui2/src/common/editor.rs that only rearrange them. Modelled of
-- that file: which keys are passed on, and the insertion of a character that is not ASCII.
use dbm.Base.{ℕ, Bool, true, false, not, ◌||◌, Option, none, some, Text, ltb, if◌then◌else◌}
use dbm.Grid.Search.{KeyEvent, KeyCode, char, other_key}

-- An editor with its key handler. `Gesture` is what a mouse event makes of cursor, mode and selection.
pub record Editor : Type 1 where
  pub State : Type 0
  pub Gesture : Type 0
  -- `DetailEditor::new`, `editor_text`, `set_editor_text`
  pub fresh : Text → State
  pub text : State → Text
  pub set_text : Text → State → State
  -- `EditorEventHandler::on_key_event`
  pub on_key_event : KeyEvent → State → State
  -- the mode is Insert
  pub inserting : State → Bool
  -- the cursors, modes and selections are equal
  pub same_cursor : State → State → Bool
  -- `set_scroll_locked`, `viewport_offset().1` and `set_viewport_offset` with the same x
  pub set_scroll_locked : Bool → State → State
  pub viewport : State → ℕ
  pub set_viewport : ℕ → State → State
  -- `refresh_detail_dirty_highlights`
  pub highlight : Text → State → State
  pub gesture : Gesture → State → State
  -- the selected text, where there is a selection
  pub selection : State → Option Text

unfoldable accepts_code : KeyCode → Bool
accepts_code other_key = false
accepts_code _ = true

unfoldable pub accepts_key_event : KeyEvent → Bool
unfolding accepts_code
accepts_key_event key = accepts_code key.code

unfoldable strip_non_text_modifiers : KeyEvent → KeyEvent
strip_non_text_modifiers key = record key { control = false; alt_or_meta = false }

-- `KeyEvent::new(KeyCode::Char(c), KeyModifiers::empty())`
abbrev pub plain : ℕ → KeyEvent
plain c = record {
  code = char c;
  control = false;
  shift = false;
  alt_or_meta = false;
  caps_lock = false;
}

-- The modifiers that are left after the normalisation let a text through: none, or SHIFT.
abbrev is_text : KeyEvent → Bool
is_text key = not (key.control || key.alt_or_meta) || key.shift

-- For a character outside ASCII the normalisation strips the modifiers, whether or not caps lock is
-- on. `none`: the key is not taken.
unfoldable pub try_insert_non_ascii_key : (ed : Editor) → KeyEvent → ed.State → Option ed.State
unfolding strip_non_text_modifiers
try_insert_non_ascii_key ed key e = if not (ed.inserting e) then none else elim key.code [
  | char c ↦
      if ltb c 0x80
      then none
      else if is_text (strip_non_text_modifiers key)
      then some (ed.on_key_event (plain c) e)
      else none
  | _ ↦ none
]
