-- ===== src/Page/Cover.antt =====
-- The pages cover the rows of a result, and the offset arithmetic stays in its width.
use dbm.Base.{
  ℕ, zero, suc, ◌+◌, ◌-◌, ◌*◌, ◌/◌, ◌%◌, ◌^◌, ◌≤◌, ◌<◌, ◌≡◌, ap, ◌∙◌, ◌↔◌, inl, inr, true, false,
  Option, none, some, arith, min, ◌==◌, Bool-cases,
}
use native.Mathlib.Nat.{div-add-mod, mod-lt, mod-eq_of_lt}
use native.Mathlib.Nat
use dbm.Page.Math.{page_count, clamp_page, page_offset, can_go_next}

-- The number of pages for a positive limit, as the two inequalities that determine it.
pub page_count_bounds :
    (total limit : ℕ)
    → 0 < limit
    → (total ≤ page_count total limit * limit)
      × ((page_count total limit - 1) * limit ≤ total)
      × (1 ≤ page_count total limit)
      × (0 < total → (page_count total limit - 1) * limit < total)
unfolding page_count
page_count_bounds total limit h =
    let q = total / limit in
    let r = total % limit in
    let whole : total ≡ q * limit + r = omega (arith, div-add-mod total limit) in
    let small : r < limit = mod-lt total h in
    elim (Bool-cases (total % limit == 0)) [ inl e ↦ grind arith | inr e ↦ grind arith ]

-- A clamped page is a page: at least the first and, where the total is known, at most the last; and
-- a page in that range is kept.
pub clamp_page_bounds :
    (page limit : ℕ) (total : Option ℕ)
    → (1 ≤ clamp_page page total limit)
      × ((t : ℕ) → total ≡ some t → clamp_page page total limit ≤ page_count t limit)
      × (1 ≤ page → total ≡ none → clamp_page page total limit ≡ page)
      × ((t : ℕ)
          → total ≡ some t
          → 1 ≤ page
          → page ≤ page_count t limit
          → clamp_page page total limit ≡ page)
unfolding clamp_page page_count
clamp_page_bounds page limit none = (ground arith, λ t e. cc, λ h e. ground arith, λ t e. cc)
clamp_page_bounds page limit (some total) =
    (ground arith, λ t e. ground arith, λ h e. cc, λ t e h k. ground arith)

-- An offset of a page that exists does not wrap.
page_offset-eq :
    (total limit p : ℕ)
    → 0 < limit
    → total < 2 ^ 64
    → 1 ≤ p
    → p ≤ page_count total limit
    → (page_offset p limit ≡ (p - 1) * limit) × ((p - 1) * limit ≤ total)
unfolding page_offset
page_offset-eq total limit p pos fits first last =
    let most : (p - 1) * limit ≤ total =
      Nat.le_trans (Nat.mul-le-mul_right limit (omega arith))
        (page_count_bounds total limit pos).1 in
    (mod-eq_of_lt (omega arith), most)

-- Division finds the block of `limit` rows in which row r stands.
block_iff :
    (k r limit : ℕ) → 0 < limit → ((k * limit ≤ r) × (r < k * limit + limit)) ↔ (k ≡ r / limit)
block_iff k r limit pos =
    let whole : r ≡ r / limit * limit + r % limit = omega (arith, div-add-mod r limit) in
    let small : r % limit < limit = mod-lt r pos in
    (λ h. grind arith, λ e. rw e (omega arith, omega arith))

-- For a positive limit, row r of a total below 2^64 stands on page r / limit + 1, which is one of the pages, and on no
-- other page.
pub page_covers :
    (total limit r p : ℕ)
    → 0 < limit
    → total < 2 ^ 64
    → r < total
    → 1 ≤ p
    → p ≤ page_count total limit
    → (r / limit + 1 ≤ page_count total limit)
      × (((page_offset p limit ≤ r) × (r < page_offset p limit + limit)) ↔ (p ≡ r / limit + 1))
page_covers total limit r p pos fits h first last =
    let at = block_iff (p - 1) r limit pos in
    let offset = (page_offset-eq total limit p pos fits first last).0 in
    let whole : r ≡ r / limit * limit + r % limit = omega (arith, div-add-mod r limit) in
    let all = (page_count_bounds total limit pos).0 in
    (
      grind arith,
      (λ on. omega (arith, at.0 (rw (← offset) on)), λ e. rw offset (at.1 (omega arith))),
    )

-- For a positive limit and a total that stays below 2^64 with a limit added: from one of the pages of a
-- known total, which shows the rows that it has, the next page may be opened exactly where the page is
-- not the last one.
can_go_next_iff :
    (total limit p : ℕ)
    → 0 < limit
    → total + limit < 2 ^ 64
    → 1 ≤ p
    → p ≤ page_count total limit
    → (can_go_next p limit (min limit (total - page_offset p limit)) (some total) false ≡ true)
      ↔ (p < page_count total limit)
unfolding can_go_next
can_go_next_iff total limit zero pos fits first last = absurd (omega arith)
can_go_next_iff total limit (suc k) pos fits first last =
    let same : (suc k - 1) * limit ≡ k * limit = ap (λ m. m * limit) (omega arith) in
    let (at, most) = page_offset-eq total limit (suc k) pos (omega arith) first last in
    let offset : page_offset (suc k) limit ≡ k * limit = at ∙ same in
    let near : k * limit ≤ total = omega arith in
    let step : suc k * limit ≡ k * limit + limit = grind arith in
    let (all, whole, one, full) = page_count_bounds total limit pos in
    let kept : (suc k * limit) % 2 ^ 64 ≡ suc k * limit = mod-eq_of_lt (omega arith) in
    rw offset (
      rw kept (
        λ go. Nat.lt_of_mul-lt-mul_right limit (ground arith),
        λ more.
            let below : suc k * limit ≤ (page_count total limit - 1) * limit =
              Nat.mul-le-mul_right limit (omega arith) in
            ground (arith, full (omega arith)),
      ))
