-- ===== src/Results/Sound/Pane.antt =====
-- The detail pane in step with itself, under each of its own messages.
use dbm.Base.{
  ℕ, ◌≡◌, refl, Bool, false, not, ◌&&◌, ◌||◌, Option, some, Text, arith, if-cases, Option-cases,
  inl, inr, =?_refl, list_eq, nat_eq, ◌=?◌,
}
use dbm.Edit.Live.{is_some}
use dbm.Grid.Search.{KeyEvent}
use dbm.Results.Editor.{Editor, try_insert_non_ascii_key, accepts_key_event}
use dbm.Results.Detail
use dbm.Results.Detail.{
  DetailState, DetailMessage, detail_draft_dirty, has_unsaved_draft, load_cell, clear_draft,
  unfocus, with_draft_of, sync_draft_from_editor, reset_for_close, focus_editor, after_key,
  take_key, apply_editor_key, apply_mouse_gesture, scroll_editor_or,
}
use dbm.Results.State.{ResultsState}

module _ (ed : Editor) where
  -- The draft is marked as unsaved exactly where it differs from the cell's value, there is an editor
  -- exactly while it has the focus, and the focus is in an open pane.
  pub record AreInStep (d : DetailState ed) (detail_open : Bool) : Type 0 where
    pub honest : d.dirty ≡ detail_draft_dirty d.draft d.baseline
    pub hosted : d.focused ≡ is_some d.editor
    pub shown : (d.focused && not detail_open) ≡ false

  abbrev pub IsSound : ResultsState ed → Type 0
  IsSound s = AreInStep s.detail s.detail_open

  pub loaded-AreInStep :
      (d : DetailState ed) (b : Bool) (v : Text) → AreInStep d b → AreInStep (load_cell ed d v) b
  unfolding load_cell detail_draft_dirty
  loaded-AreInStep d b v h = record { honest = rw (=?_refl v); hosted = h.hosted; shown = h.shown }

  pub cleared-AreInStep : (d : DetailState ed) (b : Bool) → AreInStep (clear_draft ed d) b
  unfolding clear_draft detail_draft_dirty
  cleared-AreInStep d b = record { honest = refl; hosted = refl; shown = refl }

  pub unfocused-AreInStep :
      (d : DetailState ed) (b : Bool) → AreInStep d b → AreInStep (unfocus ed d) b
  unfolding unfocus
  unfocused-AreInStep d b h = record { honest = h.honest; hosted = refl; shown = refl }

  -- An editor that replaces another.
  pub hosting :
      (d : DetailState ed) (b : Bool) (e host : ed.State)
      → d.editor ≡ some host
      → AreInStep d b
      → AreInStep (record d { editor = some e }) b
  hosting d b e host here h = record {
    honest = h.honest;
    hosted = ground (arith, h.hosted);
    shown = h.shown;
  }

  pub drafted-AreInStep :
      (d : DetailState ed) (b : Bool) (e host : ed.State)
      → d.editor ≡ some host
      → AreInStep d b
      → AreInStep (with_draft_of ed d e) b
  unfolding with_draft_of
  drafted-AreInStep d b e host here h = record {
    honest = refl;
    hosted = ground (arith, h.hosted);
    shown = h.shown;
  }

  pub after_key-AreInStep :
      (d : DetailState ed) (b : Bool) (before e host : ed.State)
      → d.editor ≡ some host
      → AreInStep d b
      → AreInStep (after_key ed d before e).0 b
  unfolding after_key
  after_key-AreInStep d b before e host here h =
      if-cases (λ (r : DetailState ed × Bool). AreInStep r.0 b)
        (not (ed.text e =? ed.text before) || not (ed.same_cursor before e))
        (λ changed. drafted-AreInStep d b e host here h) (λ same. hosting d b e host here h)

  pub take_key-AreInStep :
      (d : DetailState ed) (b : Bool) (key : KeyEvent) (e host : ed.State)
      → d.editor ≡ some host
      → AreInStep d b
      → AreInStep (take_key ed d key e).0 b
  unfolding take_key
  take_key-AreInStep d b key e host here h =
      elim (Option-cases (try_insert_non_ascii_key ed key e)) [
        | inr (inserted, t) ↦ rw (t, take_key) (drafted-AreInStep d b inserted host here h)
        | inl t ↦
            rw (t, take_key)
              (if-cases (λ (r : DetailState ed × Bool). AreInStep r.0 b)
                (not (accepts_key_event key)) (λ out. hosting d b e host here h)
                (λ taken. after_key-AreInStep d b e (ed.on_key_event key e) host here h))
      ]

  pub key-AreInStep :
      (d : DetailState ed) (b : Bool) (key : KeyEvent)
      → AreInStep d b
      → AreInStep (apply_editor_key ed d key).0 b
  unfolding apply_editor_key
  key-AreInStep d b key h = elim (Option-cases d.editor) [
    | inl e ↦ rw (e, apply_editor_key) h
    | inr (host, e) ↦
        rw (e, apply_editor_key)
          (take_key-AreInStep d b key (ed.set_scroll_locked false host) host e h)
  ]

  pub gesture-AreInStep :
      (d : DetailState ed) (b : Bool) (g : ed.Gesture)
      → AreInStep d b
      → AreInStep (apply_mouse_gesture ed d g).0 b
  unfolding apply_mouse_gesture
  gesture-AreInStep d b g h = elim (Option-cases d.editor) [
    | inl e ↦ rw (e, apply_mouse_gesture) h
    | inr (host, e) ↦
        rw (e, apply_mouse_gesture)
          (if-cases (λ (r : DetailState ed × Bool). AreInStep r.0 b) (not d.focused) (λ off. h)
            (λ on. hosting d b _ host e h))
  ]

  pub scroll-AreInStep :
      (d : DetailState ed) (b : Bool) (to : ℕ → ℕ) (rows : ℕ)
      → AreInStep d b
      → AreInStep (scroll_editor_or ed d (Detail.focused_editor ed d) to rows).0 b
  unfolding scroll_editor_or
  scroll-AreInStep d b to rows h =
      if-cases (λ (o : Option ed.State). AreInStep (scroll_editor_or ed d o to rows).0 b) d.focused
        (λ on. elim (Option-cases d.editor) [
          | inl e ↦
              rw (e, scroll_editor_or)
                (record { honest = h.honest; hosted = h.hosted; shown = h.shown })
          | inr (host, e) ↦ rw (e, scroll_editor_or) (hosting d b _ host e h)
        ])
        (λ off. record { honest = h.honest; hosted = h.hosted; shown = h.shown })

  pub update-AreInStep :
      (m : DetailMessage ed) (d : DetailState ed) (b : Bool)
      → AreInStep d b
      → AreInStep (Detail.update ed m d).0 b
  unfolding Detail.update
  update-AreInStep (Detail.scroll_by delta) d b h = scroll-AreInStep d b _ _ h
  update-AreInStep (Detail.set_v_scroll position) d b h = scroll-AreInStep d b _ _ h
  update-AreInStep (Detail.set_draft text) d b h = record {
    honest = refl;
    hosted = h.hosted;
    shown = h.shown;
  }
  update-AreInStep (Detail.load_cell_value value) d b h = loaded-AreInStep d b value h
  update-AreInStep Detail.clear d b h = cleared-AreInStep d b
  update-AreInStep (Detail.key_event key) d b h = key-AreInStep d b key h
  update-AreInStep (Detail.mouse_gesture g) d b h = gesture-AreInStep d b g h
