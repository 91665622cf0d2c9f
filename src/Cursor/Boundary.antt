-- ===== src/Cursor/Boundary.antt =====
-- The boundaries of characters are the lengths of the text's beginnings.
use dbm.Base.{
  ℕ, zero, suc, ◌+◌, ◌-◌, ◌≡◌, ◌≤◌, refl, true, [], ◌∷◌, Text, arith, len_utf8, byte_len, take,
  ◌==◌, Bool-cases, inl, inr,
}
use dbm.Cursor.Offset.{is_char_boundary, snap}

pub len_utf8_pos : (c : ℕ) → 1 ≤ len_utf8 c
unfolding len_utf8
len_utf8_pos c = ground arith

pub byte_len-take_le : (n : ℕ) (s : Text) → byte_len (take n s) ≤ byte_len s
unfolding byte_len
byte_len-take_le zero s = omega arith
byte_len-take_le (suc n) [] = omega arith
byte_len-take_le (suc n) (c ∷ s) = omega (arith, byte_len-take_le n s)

pub is_char_boundary-take : (n : ℕ) (s : Text) → is_char_boundary s (byte_len (take n s)) ≡ true
unfolding is_char_boundary byte_len
is_char_boundary-take zero [] = refl
is_char_boundary-take (suc n) [] = refl
is_char_boundary-take zero (c ∷ s) = refl
is_char_boundary-take (suc n) (c ∷ s) =
    let past : len_utf8 c + byte_len (take n s) - len_utf8 c ≡ byte_len (take n s) = omega arith in
    ground (arith, len_utf8_pos c, is_char_boundary-take n s)

pub take-is_char_boundary :
    (s : Text) (m : ℕ) → is_char_boundary s m ≡ true → (n : ℕ) × (byte_len (take n s) ≡ m)
unfolding is_char_boundary byte_len
take-is_char_boundary [] m h = (0, ground arith)
take-is_char_boundary (c ∷ s) m h = elim (Bool-cases (m == 0)) [
  | inl start ↦ (0, ground arith)
  | inr on ↦
      let (n, e) = take-is_char_boundary s (m - len_utf8 c) (ground arith) in
      (suc n, ground (arith, len_utf8_pos c))
]

-- Going down from `m`: a boundary, none between it and `m`.
pub snap_lem :
    (text : Text) (m : ℕ)
    → (snap text m ≤ m)
      × (is_char_boundary text (snap text m) ≡ true)
      × ((b : ℕ) → b ≤ m → is_char_boundary text b ≡ true → b ≤ snap text m)
unfolding snap byte_len
snap_lem text zero = (omega arith, is_char_boundary-take 0 text, λ b h k. h)
snap_lem text (suc m) =
    let (below, at, most) = snap_lem text m in
    elim (Bool-cases (is_char_boundary text (suc m))) [
      | inl on ↦ rw on (omega arith, on, λ b h k. h)
      | inr off ↦ rw off (
        omega arith,
        at,
        λ b h k. elim (Bool-cases (b == suc m)) [
          | inl e ↦ let same : b ≡ suc m = ground arith in cc
          | inr e ↦ most b (ground arith) k
        ],
      )
    ]
