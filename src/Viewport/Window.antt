-- ===== src/Viewport/Window.antt =====
-- What an anchored viewport shows: proofs about Viewport/Anchor.antt.
use dbm.Base.{
  ℕ, zero, suc, ◌+◌, ◌-◌, ◌*◌, ◌/◌, ◌%◌, ◌^◌, ◌≤◌, ◌<◌, ◌≡◌, refl, ap, subst, inl, inr, ◌⊎◌, Bool,
  true, false, ◌&&◌, List, arith, min, max, ltb, leb, ◌==◌, if◌then◌else◌, Bool-cases,
}
use dbm.Viewport.Anchor.{
  uniform, variable, height_at, top, count_tops, fill, push, variable_max_start, pane_anchor,
}

-- In a pane of fewer than 2^64 steps of one line each, with the cursor on one of them, the window lies
-- inside the steps and holds as many as fit; it holds the cursor unless a drag has locked it, it is
-- where the pane was scrolled to, cut to the largest offset, while locked, and it ends at the last step
-- where it starts at the largest offset.
pub pane_anchor_uniform :
    (total extent scroll cursor : ℕ) (locked : Bool)
    → cursor < total
    → total < 2 ^ 64
    → let a = pane_anchor total (uniform 1) extent scroll cursor locked in
      (a.visible ≡ min total (max extent 1))
      × (a.start + a.visible ≤ total)
      × (a.start ≤ a.max_scroll)
      × (a.max_scroll + a.visible ≡ total)
      × (locked ≡ false → (a.start ≤ cursor) × (cursor < a.start + a.visible))
      × (locked ≡ true → a.start ≡ min scroll a.max_scroll)
unfolding pane_anchor
pane_anchor_uniform total extent scroll cursor true h fits =
    let some_steps : (total == 0) ≡ false = ground arith in
    let product : (total * 1) % 2 ^ 64 ≡ total = omega arith in
    let floor : max extent 1 / 1 ≡ max extent 1 = omega arith in
    let ceil : max extent 1 % 1 ≡ 0 = omega arith in
    let most : (if leb total (max extent 1) then 0 else total - max extent 1)
        ≡ total - max extent 1 =
      ground arith in
    rw (some_steps, product, floor, ceil, most)
      (omega arith, omega arith, omega arith, omega arith, λ e. cc, λ e. omega arith)
pane_anchor_uniform total extent scroll cursor false h fits =
    let some_steps : (total == 0) ≡ false = ground arith in
    let product : (total * 1) % 2 ^ 64 ≡ total = omega arith in
    let floor : max extent 1 / 1 ≡ max extent 1 = omega arith in
    let ceil : max extent 1 % 1 ≡ 0 = omega arith in
    let most : (if leb total (max extent 1) then 0 else total - max extent 1)
        ≡ total - max extent 1 =
      ground arith in
    let at : min cursor (total - 1) ≡ cursor = omega arith in
    rw (some_steps, product, floor, ceil, most, at)
      (
        ground arith,
        ground arith,
        ground arith,
        ground arith,
        λ e. (ground arith, ground arith),
        λ e. cc,
      )

top_zero : (h : List ℕ) → top h 0 ≡ 0
unfolding top
top_zero h = refl

top_next : (h : List ℕ) (i : ℕ) → top h (i + 1) ≡ top h i + height_at h i
unfolding top
top_next h i = let step : i + 1 ≡ suc i = omega arith in ap (top h) step

-- The tops that are counted are at most the bound.
count_tops_lem :
    (h : List ℕ) (most i n : ℕ)
    → count_tops h most i n ≡ 0 ⊎ top h (i + count_tops h most i n - 1) ≤ most
unfolding count_tops
count_tops_lem h most i zero = inl refl
count_tops_lem h most i (suc n) = elim (Bool-cases (leb (top h i) most)) [
  | inr above ↦ rw above (inl refl)
  | inl below ↦ rw below (
      inr (elim (count_tops_lem h most (i + 1) n) [
        | inl last ↦ let same : i + suc 0 - 1 ≡ i = omega arith in rw (last, same) (ground arith)
        | inr more ↦
            let same : i + suc (count_tops h most (i + 1) n) - 1
                ≡ i + 1 + count_tops h most (i + 1) n - 1 =
              omega arith in
            rw same more
      ]))
]

count_tops-le : (h : List ℕ) (most i n : ℕ) → count_tops h most i n ≤ n
unfolding count_tops
count_tops-le h most i zero = omega arith
count_tops-le h most i (suc n) = ground (arith, count_tops-le h most (i + 1) n)

fill_lem :
    (h : List ℕ) (ext px i n : ℕ)
    → (fill h ext px i n ≤ n)
      × (px ≤ ext → px + top h (i + fill h ext px i n) ≤ ext + top h i)
      × (fill h ext px i n < n
          → ext + top h i
            < px + top h (i + fill h ext px i n) + height_at h (i + fill h ext px i n))
unfolding fill
fill_lem h ext px i zero =
    let same : i + 0 ≡ i = omega arith in
    (omega arith, λ k. rw same (omega arith), λ k. absurd (omega arith))
fill_lem h ext px i (suc n) = elim (Bool-cases (ltb ext (px + height_at h i))) [
  | inl full ↦
      let same : i + 0 ≡ i = omega arith in
      rw full (omega arith, λ k. rw same (omega arith), λ k. rw same (ground arith))
  | inr room ↦
      let r = fill h ext (px + height_at h i) (i + 1) n in
      let (a, b, c) = fill_lem h ext (px + height_at h i) (i + 1) n in
      let shift : i + 1 + r ≡ i + suc r = omega arith in
      let next : top h (i + 1) ≡ top h i + height_at h i = top_next h i in
      rw room (
        omega arith,
        λ k. rw (← shift) (omega (arith, b (ground arith))),
        λ k. rw (← shift) (omega (arith, c (omega arith))),
      )
]

first_top : (h : List ℕ) (most n : ℕ) → count_tops h most 0 (n + 1) ≡ 0 → ⊥
unfolding count_tops top
first_top h most n e =
    let step : n + 1 ≡ suc n = omega arith in
    let e' : count_tops h most 0 (suc n) ≡ 0 = subst (λ k. count_tops h most 0 k ≡ 0) step e in
    ground arith

-- The largest offset is the last step whose top is at most what lies above a full window.
variable_max_start_lem :
    (h : List ℕ) (total ext : ℕ)
    → 0 < ext
    → 0 < top h total
    → (variable_max_start h total ext < total)
      × (top h (variable_max_start h total ext) ≤ top h total - ext)
unfolding variable_max_start
variable_max_start_lem h total ext pos some_rows =
    let c = count_tops h (top h total - ext) 0 (total + 1) in
    let within : c ≤ total + 1 = count_tops-le h (top h total - ext) 0 (total + 1) in
    elim (count_tops_lem h (top h total - ext) 0 (total + 1)) [
      | inl nothing ↦ absurd (first_top h (top h total - ext) total nothing)
      | inr last ↦
          let same : 0 + c - 1 ≡ c - 1 = omega arith in
          let below : top h (c - 1) ≤ top h total - ext =
            subst (λ i. top h i ≤ top h total - ext) same last in
          (
            elim (Bool-cases (c - 1 == total)) [
              | inl e ↦
                  let at : top h (c - 1) ≡ top h total = ap (top h) (ground arith) in
                  absurd (omega arith)
              | inr e ↦ ground arith
            ],
            below,
          )
    ]

-- The number of steps that are shown from a step on.
shown_lem :
    (h : List ℕ) (ext start total : ℕ)
    → start < total
    → let fits = fill h ext 0 start (total - start) in
      let v = if fits == 0 && ltb start total then 1 else fits in
      (1 ≤ v)
      × (start + v ≤ total)
      × (height_at h start ≤ ext → top h (start + v) ≤ top h start + ext)
      × (start + v < total → top h start + ext < top h (start + v) + height_at h (start + v))
shown_lem h ext start total inside =
    let fits = fill h ext 0 start (total - start) in
    let (a, b, c) = fill_lem h ext 0 start (total - start) in
    let here : ltb start total ≡ true = ground arith in
    let next = top_next h start in
    elim (Bool-cases (fits == 0)) [
      | inr e ↦ rw e (
        ground arith,
        omega arith,
        λ k. omega (arith, b (omega arith)),
        λ k. omega (arith, c (omega arith)),
      )
      | inl e ↦
          let none_fits : fits ≡ 0 = ground arith in
          let same : start + fits ≡ start = omega arith in
          let tall : ext + top h start < 0 + top h start + height_at h start =
            subst (λ i. ext + top h start < 0 + top h i + height_at h i) same (c (omega arith)) in
          rw (e, here) (omega arith, omega arith, λ k. omega arith, λ k. omega arith)
    ]

suc_not_zero : (n : ℕ) → (suc n == 0) ≡ false
suc_not_zero n = ground arith

-- In a pane of steps of several lines each, with one line in all at least, the window lies inside the
-- steps and shows one at least; the steps that it shows fit where its first step does, one more would
-- not, and while a drag has locked it, it is where the pane was scrolled to.
pub pane_anchor_variable :
    (total extent scroll cursor : ℕ) (h : List ℕ) (locked : Bool)
    → 0 < top h total
    → let a = pane_anchor total (variable h) extent scroll cursor locked in
      (1 ≤ a.visible)
      × (a.start + a.visible ≤ total)
      × (a.start ≤ a.max_scroll)
      × (height_at h a.start ≤ max extent 1
          → top h (a.start + a.visible) ≤ top h a.start + max extent 1)
      × (a.start + a.visible < total
          → top h a.start + max extent 1
            < top h (a.start + a.visible) + height_at h (a.start + a.visible))
      × (locked ≡ true → a.start ≡ min scroll a.max_scroll)
unfolding pane_anchor
pane_anchor_variable zero extent scroll cursor h locked some_rows =
    absurd (omega (arith, top_zero h))
pane_anchor_variable (suc n) extent scroll cursor h locked some_rows =
    let ext = max extent 1 in
    let most = variable_max_start h (suc n) ext in
    let from = min scroll most in
    let pushed = if locked then from else push h (suc n) ext from (min cursor (suc n - 1)) in
    let last = variable_max_start_lem h (suc n) ext (omega arith) some_rows in
    let (some_shown, inside, fit, full) = shown_lem h ext (min pushed most) (suc n) (omega arith) in
    rw (suc_not_zero n) (some_shown, inside, omega arith, fit, full, λ e. rw e (omega arith))
