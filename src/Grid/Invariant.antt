-- ===== src/Grid/Invariant.antt =====
-- What every message keeps: the page and the row limit are positive, an action waits only for a count
-- that is running, the active match is one of the matches, the columns' widths are in their range, and
-- the edit session is valid.
use dbm.Base.{
  ℕ, ◌-◌, ◌/◌, ◌≤◌, ◌≡◌, refl, subst, sym, ◌⊎◌, inl, inr, Bool, true, false, not, ◌&&◌, ◌||◌, ◌=?◌,
  nat_eq, list_eq, Option, none, some, List, Text, arith, length, leb, ◌==◌, if-cases, Bool-cases,
  Option-cases,
}
use dbm.Edit.Live.{is_some, QueryResultData}
use dbm.Edit.Session.{ResultsEditState}
use dbm.Edit.Valid.{IsValid}
use dbm.Page.Scroll.{
  ResultsPageAction, first, prev, next, last, resolve_page_chord, results_page_chord_ms,
}
use dbm.Page.Scroll
use dbm.Page.Math.{max_page}
use dbm.Grid.View
use dbm.Grid.Layout.{AllWidths, init_results_layout-AllWidths}
use dbm.Grid.State.{ListState, ResultsSearchMatch, total_rows, can_count_rows, can_go_next_page}
use dbm.Grid.Paging.{
  Outcome, go_to_page, go_to_last, apply_page_action, has_dirty_session, resume, take_total,
  mark_last_page, handle_count_ready, after_count, handle_count_rows, handle_page_chord,
  follow_chord, handle_page_nav, handle_set_page, handle_set_row_limit, handle_set_result,
  land_result,
}

pub record AreSane (page row_limit : ℕ) (pending : Option ResultsPageAction) (counting : Bool)
    (matches : List ResultsSearchMatch) (index : ℕ) (widths : List ℕ) (edit : ResultsEditState)
    : Type 0 where
  pub page_pos : 1 ≤ page
  pub limit_pos : 1 ≤ row_limit
  pub waits : (pending ≡ none) ⊎ ((pending ≡ some last) × (counting ≡ true))
  pub match_at : index ≤ length matches - 1
  pub in_range : AllWidths widths
  pub session : IsValid edit

abbrev pub IsSane : ListState → Type 0
IsSane s =
    AreSane s.page s.row_limit s.pending_page_after_count s.counting s.search_matches
      s.search_match_index s.col_widths s.live.edit

abbrev pub IsSaneAfter : Outcome → Type 0
IsSaneAfter o = IsSane o.0

go_to_page-IsSane :
    (s : ListState) (target : ℕ) (b : Bool)
    → 1 ≤ target
    → IsSane s
    → IsSane (go_to_page s target b).0
unfolding go_to_page
go_to_page-IsSane s target b p h =
    if-cases IsSaneAfter (target == s.page) (λ e. h)
      λ e. record {
        page_pos = p;
        limit_pos = h.limit_pos;
        waits = h.waits;
        match_at = h.match_at;
        in_range = h.in_range;
        session = h.session;
      }

go_to_last-IsSane : (s : ListState) → IsSane s → IsSane (go_to_last s).0
unfolding go_to_last
go_to_last-IsSane s h = elim (Option-cases (total_rows s)) [
  | inl unknown ↦
      rw (unknown, go_to_last)
        (if-cases IsSaneAfter (can_count_rows s && not s.counting)
          (λ e. record {
            page_pos = h.page_pos;
            limit_pos = h.limit_pos;
            waits = inr (refl, refl);
            match_at = h.match_at;
            in_range = h.in_range;
            session = h.session;
          })
          λ e. go_to_page-IsSane s s.page false h.page_pos h)
  | inr (total, known) ↦ rw (known, go_to_last) (go_to_page-IsSane s _ true (omega arith) h)
]

-- The page that an action names is positive.
abbrev pub Admits : ResultsPageAction → Type 0
Admits (Scroll.set n) = 1 ≤ n
Admits _ = Unit

apply_page_action-IsSane :
    (s : ListState) (a : ResultsPageAction) → Admits a → IsSane s → IsSane (apply_page_action s a).0
unfolding apply_page_action
apply_page_action-IsSane s first p h =
    if-cases IsSaneAfter (has_dirty_session s) (λ e. h)
      λ e. go_to_page-IsSane s 1 false (omega arith) h
apply_page_action-IsSane s prev p h =
    if-cases IsSaneAfter (has_dirty_session s) (λ e. h)
      λ e. go_to_page-IsSane s _ true (omega arith) h
apply_page_action-IsSane s next p h =
    if-cases IsSaneAfter (has_dirty_session s) (λ e. h)
      λ e.
        go_to_page-IsSane s _ false
          (if-cases (λ n. 1 ≤ n) (not (can_go_next_page s)) (λ e. h.page_pos) λ e. omega arith) h
apply_page_action-IsSane s last p h =
    if-cases IsSaneAfter (has_dirty_session s) (λ e. h) λ e. go_to_last-IsSane s h
apply_page_action-IsSane s (Scroll.set n) p h =
    if-cases IsSaneAfter (has_dirty_session s) (λ e. h) λ e. go_to_page-IsSane s n false p h

-- A state that differs in what this is not about, and in the page action that waits.
pub no_wait :
    {page row_limit : ℕ} {pending : Option ResultsPageAction} {counting b : Bool}
    {matches : List ResultsSearchMatch} {index : ℕ} {widths : List ℕ} {edit : ResultsEditState}
    → AreSane page row_limit pending counting matches index widths edit
    → AreSane page row_limit none b matches index widths edit
no_wait h = record {
  page_pos = h.page_pos;
  limit_pos = h.limit_pos;
  waits = inl refl;
  match_at = h.match_at;
  in_range = h.in_range;
  session = h.session;
}

resume-IsSane : (s : ListState) → IsSane (record s { counting = true }) → IsSane (resume s).0
unfolding resume
resume-IsSane s h = elim (Option-cases s.pending_page_after_count) [
  | inl nothing ↦ rw nothing (no_wait h)
  | inr (action, queued) ↦ rw queued (
      if-cases IsSaneAfter (is_some (total_rows s))
        (λ e.
          apply_page_action-IsSane (record s { pending_page_after_count = none }) action
            (elim h.waits [
              | inl nothing ↦ cc
              | inr (is_last, running) ↦ let same : last ≡ action = cc in subst Admits same tt
            ])
            (no_wait h))
        λ e. no_wait h)
]

mark_last_page-IsSane : (s : ListState) → IsSane s → IsSane (mark_last_page s)
unfolding mark_last_page
mark_last_page-IsSane s h = elim (Option-cases (total_rows s)) [
  | inl unknown ↦ rw (unknown, mark_last_page) h
  | inr (total, known) ↦ rw (known, mark_last_page) h
]

take_total-IsSane :
    (s : ListState) (total : Option ℕ)
    → IsSane (record s { counting = true })
    → IsSane (record (take_total s total) { counting = true })
unfolding take_total
take_total-IsSane s none h = h
take_total-IsSane s (some n) h = h

running : (s : ListState) → IsSane s → IsSane (record s { counting = true })
running s h = record {
  page_pos = h.page_pos;
  limit_pos = h.limit_pos;
  waits = elim h.waits [ inl nothing ↦ inl nothing | inr queued ↦ inr (queued.0, refl) ];
  match_at = h.match_at;
  in_range = h.in_range;
  session = h.session;
}

pub handle_count_ready-IsSane :
    (s : ListState) (sql : Text) (total : Option ℕ)
    → IsSane s
    → IsSane (handle_count_ready s sql total).0
unfolding handle_count_ready after_count
handle_count_ready-IsSane s sql total h =
    if-cases IsSaneAfter (not (s.last_sql =? sql)) (λ e. h)
      λ e.
        mark_last_page-IsSane (resume (take_total s total)).0
          (resume-IsSane (take_total s total) (take_total-IsSane s total (running s h)))

pub handle_count_rows-IsSane : (s : ListState) → IsSane s → IsSane (handle_count_rows s).0
unfolding handle_count_rows
handle_count_rows-IsSane s h =
    if-cases IsSaneAfter (s.counting || not (can_count_rows s)) (λ e. h) λ e. no_wait h

-- A page key asks for one of the four moves.
pub resolve_page_chord-Admits :
    (o : Option (Bool × ℕ)) (now : ℕ) (forward : Bool)
    → (pending : Option (Bool × ℕ)) × (action : ResultsPageAction) × (resolve_page_chord o now
          forward
        ≡ (pending, some action))
      × Admits action
unfolding resolve_page_chord
resolve_page_chord-Admits none now true = (_, next, refl, tt)
resolve_page_chord-Admits none now false = (_, prev, refl, tt)
resolve_page_chord-Admits (some (true, at)) now true =
    elim (Bool-cases (leb ((now - at) / 1_000_000) results_page_chord_ms)) [
      | inl soon ↦ (none, last, ground arith, tt)
      | inr late ↦ (some (true, now), next, ground arith, tt)
    ]
resolve_page_chord-Admits (some (false, at)) now false =
    elim (Bool-cases (leb ((now - at) / 1_000_000) results_page_chord_ms)) [
      | inl soon ↦ (none, first, ground arith, tt)
      | inr late ↦ (some (false, now), prev, ground arith, tt)
    ]
resolve_page_chord-Admits (some (true, at)) now false = (_, prev, refl, tt)
resolve_page_chord-Admits (some (false, at)) now true = (_, next, refl, tt)

pub handle_page_chord-IsSane :
    (now : ℕ) (s : ListState) (forward : Bool)
    → IsSane s
    → IsSane (handle_page_chord now s forward).0
unfolding handle_page_chord follow_chord
handle_page_chord-IsSane now s forward h =
    let (pending, action, resolved, fit) = resolve_page_chord-Admits s.page_chord now forward in
    subst (λ r. IsSaneAfter (follow_chord s r)) (sym resolved)
      (apply_page_action-IsSane (record s { page_chord = pending }) action fit h)

pub handle_page_nav-IsSane :
    (s : ListState) (a : ResultsPageAction) → Admits a → IsSane s → IsSane (handle_page_nav s a).0
unfolding handle_page_nav
handle_page_nav-IsSane s a fit h = apply_page_action-IsSane (record s { page_chord = none }) a fit h

at_page :
    {page p row_limit l : ℕ} {pending : Option ResultsPageAction} {counting : Bool}
    {matches : List ResultsSearchMatch} {index : ℕ} {widths : List ℕ} {edit : ResultsEditState}
    → 1 ≤ p
    → 1 ≤ l
    → AreSane page row_limit pending counting matches index widths edit
    → AreSane p l pending counting matches index widths edit
at_page p l h = record {
  page_pos = p;
  limit_pos = l;
  waits = h.waits;
  match_at = h.match_at;
  in_range = h.in_range;
  session = h.session;
}

pub handle_set_row_limit-IsSane :
    (s : ListState) (limit : ℕ) → IsSane s → IsSane (handle_set_row_limit s limit).0
unfolding handle_set_row_limit
handle_set_row_limit-IsSane s limit h =
    if-cases IsSaneAfter (has_dirty_session s) (λ e. h) λ e. at_page (omega arith) (omega arith) h

pub handle_set_page-IsSane :
    (s : ListState) (page : ℕ) → IsSane s → IsSane (handle_set_page s page).0
unfolding handle_set_page
handle_set_page-IsSane s page h = elim (Option-cases (max_page (total_rows s) s.row_limit)) [
  | inl unknown ↦
      rw unknown (
        if-cases IsSaneAfter (has_dirty_session s) (λ e. h)
          λ e. at_page (omega arith) h.limit_pos h)
  | inr (most, known) ↦
      rw known (
        if-cases IsSaneAfter (has_dirty_session s) (λ e. h)
          λ e. at_page (omega arith) h.limit_pos h)
]

pub handle_set_result-IsSane :
    (width : Text → ℕ) (wall : ℕ) (s : ListState) (result : QueryResultData) (paginated : Bool)
    → IsSane s
    → IsSane (handle_set_result width wall s result paginated).0
unfolding handle_set_result land_result View.set_result
handle_set_result-IsSane width wall s result paginated h = record {
  page_pos = h.page_pos;
  limit_pos = h.limit_pos;
  waits = inl refl;
  match_at = omega arith;
  in_range = init_results_layout-AllWidths width result.columns result.rows;
  session = h.session;
}
