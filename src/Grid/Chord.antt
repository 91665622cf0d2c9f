-- ===== src/Grid/Chord.antt =====
-- The `dd` chord that deletes a row.
use dbm.Base.{
  ℕ, ◌+◌, ◌≡◌, ◌≤◌, ◌<◌, refl, ap, true, false, some, [], arith, ltb, if◌then◌else◌, Bool-cases,
  inl, inr,
}
use dbm.Edit.Live.{edit_del_row}
use dbm.Grid.State.{ListState}
use dbm.Grid.Handlers.{handle_del_chord, is_second_press, with_live}
use dbm.Grid.Paging.{Outcome}

pub lone_press :
    (now : ℕ) (s : ListState)
    → is_second_press s.del_chord_at now ≡ false
    → handle_del_chord now s ≡ (record s { del_chord_at = some now }, [], false)
unfolding handle_del_chord
lone_press now s lone = rw lone refl

second_press :
    (now : ℕ) (s : ListState)
    → is_second_press s.del_chord_at now ≡ true
    → handle_del_chord now s
      ≡ (record (with_live s (edit_del_row s.live)) { del_chord_at = some now }, [], true)
unfolding handle_del_chord
second_press now s second = rw second refl

is_second_press-lt : (t u : ℕ) → u < t + 501_000_000 → is_second_press (some t) u ≡ true
unfolding is_second_press
is_second_press-lt t u h = ground arith

is_second_press-ge : (t u : ℕ) → t + 501_000_000 ≤ u → is_second_press (some t) u ≡ false
unfolding is_second_press
is_second_press-ge t u h = ground arith

-- A first `d` changes nothing but the chord; a second one deletes the row under the cursor exactly
-- where less than 501 ms have passed; and a third one, as soon after the second, presses the delete key
-- once more.
pub handle_del_chord_lem :
    (s : ListState) (t u v : ℕ)
    → is_second_press s.del_chord_at t ≡ false
    → ((handle_del_chord t s).0.live ≡ s.live)
      × ((handle_del_chord u (handle_del_chord t s).0).0.live
          ≡ (if ltb u (t + 501_000_000) then edit_del_row s.live else s.live))
      × (u < t + 501_000_000
          → v < u + 501_000_000
          → (handle_del_chord v (handle_del_chord u (handle_del_chord t s).0).0).0.live
            ≡ edit_del_row (edit_del_row s.live))
handle_del_chord_lem s t u v first =
    let armed = record s { del_chord_at = some t } in
    let deleted = record (with_live s (edit_del_row s.live)) { del_chord_at = some u } in
    rw (lone_press t s first) (
      refl,
      elim (Bool-cases (ltb u (t + 501_000_000)))
          as (λ x.
            (handle_del_chord u armed).0.live
            ≡ (if ltb u (t + 501_000_000) then edit_del_row s.live else s.live)) [
              | inl soon ↦ rw soon (
                  ap (λ (o : Outcome). o.0.live)
                    (second_press u armed (is_second_press-lt t u (ground arith))))
              | inr late ↦ rw late (
                  ap (λ (o : Outcome). o.0.live)
                    (lone_press u armed (is_second_press-ge t u (ground arith))))
            ],
      λ h k.
          rw (second_press u armed (is_second_press-lt t u h))
            (ap (λ (o : Outcome). o.0.live) (second_press v deleted (is_second_press-lt u v k))),
    )
