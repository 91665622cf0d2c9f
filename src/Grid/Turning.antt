-- ===== src/Grid/Turning.antt =====
-- Turning pages: under an edit session with changes, and within a known total.
use dbm.Base.{
  ℕ, zero, suc, ◌+◌, ◌-◌, ◌*◌, ◌%◌, ◌^◌, ◌≡◌, ◌≤◌, ◌<◌, refl, sym, ap, subst, max, Bool, true,
  false, not, none, some, [], ◌∷◌, arith, ◌==◌, if◌then◌else◌, if-cases,
}
use native.Mathlib.Nat.{mod-eq_of_lt}
use dbm.Page.Math.{page_count, can_go_next}
use native.Mathlib.Nat
use dbm.Page.Cover.{page_count_bounds}
use dbm.Page.Scroll.{ResultsPageAction, first, prev, next, last, set}
use dbm.Grid.State.{ListState, total_rows, row_count, can_go_next_page}
use dbm.Grid.Effect.{run_query}
use dbm.Grid.Paging.{
  Outcome, cannot_run, has_dirty_session, handle_page_nav, handle_page_chord, handle_set_page,
  handle_set_row_limit, apply_page_action, follow_chord, go_to_last, go_to_page, rerun_query,
}
use dbm.Grid.Invariant.{resolve_page_chord-Admits}

-- Neither the page, the row limit, the rows nor the session change, and nothing is run.
abbrev IsRefused : ListState → Outcome → Type 0
IsRefused s o =
    (o.0.live ≡ s.live)
    × (o.0.page ≡ s.page)
    × (o.0.row_limit ≡ s.row_limit)
    × (o.1 ≡ [])
    × (o.2 ≡ false)

-- While an edit session has changes, the page keys, the toolbar, a typed page and a new row limit are
-- refused.
dirty_session-IsRefused :
    (s : ListState) (action : ResultsPageAction) (now page limit : ℕ) (forward : Bool)
    → has_dirty_session s ≡ true
    → IsRefused s (handle_page_nav s action)
      × IsRefused s (handle_page_chord now s forward)
      × IsRefused s (handle_set_page s page)
      × IsRefused s (handle_set_row_limit s limit)
unfolding handle_page_nav handle_page_chord follow_chord handle_set_page handle_set_row_limit
    apply_page_action
dirty_session-IsRefused s action now page limit forward dirty =
    let (pending, asked, resolved, fit) = resolve_page_chord-Admits s.page_chord now forward in
    (
      rw dirty (refl, refl, refl, refl, refl),
      subst (λ r. IsRefused s (follow_chord s r)) (sym resolved)
          (rw dirty (refl, refl, refl, refl, refl)),
      rw dirty (refl, refl, refl, refl, refl),
      rw dirty (refl, refl, refl, refl, refl),
    )

pred_mul : (q l : ℕ) → 1 ≤ q → q * l ≡ (q - 1) * l + l
pred_mul zero l h = absurd (omega arith)
pred_mul (suc k) l h =
    let same : (suc k - 1) * l ≡ k * l = ap (λ m. m * l) (omega arith) in grind arith

can_go_next-lt :
    (t limit p rows : ℕ) (at_end : Bool)
    → 0 < limit
    → t + limit < 2 ^ 64
    → p ≤ page_count t limit
    → can_go_next p limit rows (some t) at_end ≡ true
    → p < page_count t limit
unfolding can_go_next
can_go_next-lt t limit p rows at_end pos fits inside go =
    let (all, whole, one, full) = page_count_bounds t limit pos in
    let below : p * limit ≤ page_count t limit * limit = Nat.mul-le-mul_right limit inside in
    let kept : (p * limit) % 2 ^ 64 ≡ p * limit =
      mod-eq_of_lt (omega (arith, pred_mul (page_count t limit) limit one)) in
    Nat.lt_of_mul-lt-mul_right limit (ground arith)

-- A jump to a page that is there.
goes_to :
    (s : ListState) (target : ℕ) (b : Bool)
    → cannot_run s ≡ false
    → ((go_to_page s target b).0.page ≡ target)
      × ((go_to_page s target b).1 ≡ (
          if target == s.page
          then []
          else run_query s.context s.last_sql s.paginated target s.row_limit ∷ []))
unfolding go_to_page rerun_query
goes_to s target b runs = (ground arith, ground arith)

-- The page that First, Prev, Next and Last lead to, of a total of `t` rows.
target_of : ListState → ResultsPageAction → ℕ → ℕ
target_of s first t = 1
target_of s prev t = max (s.page - 1) 1
target_of s next t = if not (can_go_next_page s) then s.page else s.page + 1
target_of s last t = max (page_count t s.row_limit) 1
target_of s (set n) t = n

abbrev goes_back : ResultsPageAction → Bool
goes_back prev = true
goes_back last = true
goes_back _ = false

apply_page_action-go :
    (s : ListState) (action : ResultsPageAction) (t : ℕ)
    → has_dirty_session s ≡ false
    → total_rows s ≡ some t
    → apply_page_action s action ≡ go_to_page s (target_of s action t) (goes_back action)
unfolding apply_page_action target_of go_to_last
apply_page_action-go s first t clean known = rw clean refl
apply_page_action-go s prev t clean known = rw clean refl
apply_page_action-go s next t clean known = rw clean refl
apply_page_action-go s last t clean known = rw (clean, go_to_last, known) refl
apply_page_action-go s (set n) t clean known = rw clean refl

next_page-lt :
    (s : ListState) (t : ℕ)
    → total_rows s ≡ some t
    → 0 < s.row_limit
    → t + s.row_limit < 2 ^ 64
    → s.page ≤ page_count t s.row_limit
    → can_go_next_page s ≡ true
    → s.page < page_count t s.row_limit
unfolding can_go_next_page
next_page-lt s t known pos fits high go =
    can_go_next-lt t s.row_limit s.page (row_count s) s.at_last_page pos fits high (
      if-cases
        (λ b.
          b ≡ true → can_go_next s.page s.row_limit (row_count s) (some t) s.at_last_page ≡ true)
        (not s.paginated) (λ e no. cc)
        (λ e yes.
          subst (λ o. can_go_next s.page s.row_limit (row_count s) o s.at_last_page ≡ true) known
            yes)
        go)

-- A step forward and a step back.
next-prev :
    (s : ListState) (t : ℕ)
    → has_dirty_session s ≡ false
    → total_rows s ≡ some t
    → 1 ≤ s.page
    → can_go_next_page s ≡ true
    → (handle_page_nav (handle_page_nav s next).0 prev).0.page ≡ s.page
unfolding handle_page_nav can_go_next_page
next-prev s t clean known low go =
    let s' = record s { page_chord = none } in
    let on = record s' { page = s.page + 1; page_anchor_bottom = false } in
    let forward : (handle_page_nav s next).0 ≡ on =
      rw (apply_page_action-go s' next t clean known)
        (unfold target_of in unfold go_to_page in ground arith) in
    rw forward (
      rw (apply_page_action-go on prev t clean known)
        (unfold target_of in unfold go_to_page in ground arith))

-- A move, not a jump to a given page.
abbrev pub is_move : ResultsPageAction → Bool
is_move (set n) = false
is_move _ = true

target_of-bounds :
    (s : ListState) (action : ResultsPageAction) (t : ℕ)
    → total_rows s ≡ some t
    → 0 < s.row_limit
    → t + s.row_limit < 2 ^ 64
    → 1 ≤ s.page
    → s.page ≤ page_count t s.row_limit
    → is_move action ≡ true
    → (1 ≤ target_of s action t) × (target_of s action t ≤ page_count t s.row_limit)
unfolding target_of
target_of-bounds s first t known pos fits low high m =
    let (all, whole, one, full) = page_count_bounds t s.row_limit pos in (omega arith, omega arith)
target_of-bounds s prev t known pos fits low high m = (omega arith, omega arith)
target_of-bounds s next t known pos fits low high m =
    if-cases (λ n. (1 ≤ n) × (n ≤ page_count t s.row_limit)) (not (can_go_next_page s))
      (λ e. (low, high))
      λ e.
        let more = next_page-lt s t known pos fits high (ground arith) in (omega arith, omega arith)
target_of-bounds s last t known pos fits low high m =
    let (all, whole, one, full) = page_count_bounds t s.row_limit pos in (omega arith, omega arith)
target_of-bounds s (set n) t known pos fits low high m = cc

-- On a page of a known total, First, Prev, Next and Last lead to a page of that total, which is fetched
-- once where it is another page, and a step forward and a step back lead to where they started.
pub page_nav_bounds :
    (s : ListState) (action : ResultsPageAction) (t : ℕ)
    → has_dirty_session s ≡ false
    → cannot_run s ≡ false
    → total_rows s ≡ some t
    → 0 < s.row_limit
    → t + s.row_limit < 2 ^ 64
    → 1 ≤ s.page
    → s.page ≤ page_count t s.row_limit
    → is_move action ≡ true
    → (1 ≤ (handle_page_nav s action).0.page)
      × ((handle_page_nav s action).0.page ≤ page_count t s.row_limit)
      × ((handle_page_nav s action).1 ≡ (
          if (handle_page_nav s action).0.page == s.page
          then []
          else run_query s.context s.last_sql s.paginated
              (handle_page_nav s action).0.page
              s.row_limit
            ∷ []))
      × (can_go_next_page s ≡ true
          → (handle_page_nav (handle_page_nav s next).0 prev).0.page ≡ s.page)
unfolding handle_page_nav
page_nav_bounds s action t clean runs known pos fits low high m =
    let s' = record s { page_chord = none } in
    let (low', high') = target_of-bounds s' action t known pos fits low high m in
    let (at, effects) = goes_to s' (target_of s' action t) (goes_back action) runs in
    rw (apply_page_action-go s' action t clean known, at)
      (low', high', effects, next-prev s t clean known low)
