-- ===== src/Grid/Search.antt =====
-- The search input, common/components/search.rs, and the matches in the grid, list/search.rs.
use dbm.Base.{
  ℕ, zero, suc, ◌+◌, ◌-◌, Bool, true, false, not, ◌&&◌, ◌||◌, Option, none, some, List, [], ◌∷◌,
  ◌++◌, Text, ltb, ◌==◌, if◌then◌else◌, length, trim, split_at_byte, byte_len, is_ascii_alphabetic,
  between, to_ascii_lower, take, drop,
}

-- A key as the terminal library reports it.
pub data KeyCode : Type 0 where
  esc enter backspace delete tab left right up down home end_key page_up page_down : KeyCode
  char : ℕ → KeyCode
  other_key : KeyCode

pub record KeyEvent : Type 0 where
  pub code : KeyCode
  pub control : Bool
  pub shift : Bool
  -- ALT, META, SUPER or HYPER is held
  pub alt_or_meta : Bool
  pub caps_lock : Bool

pub record PaneSearch : Type 0 where
  pub active : Bool
  pub query : Text
  pub ignore_case : Bool

pub data PaneSearchInput : Type 0 where
  ignored cancelled applied query_changed options_changed : PaneSearchInput
  navigate : Bool → PaneSearchInput

abbrev pub is_nil {ℓ} : {A : Type ℓ} → List A → Bool
is_nil [] = true
is_nil (x ∷ xs) = false

unfoldable pub start : PaneSearch → PaneSearch
start s = record s { active = true }

unfoldable pub end : PaneSearch → PaneSearch
end s = record s { active = false }

unfoldable pub reset : PaneSearch → PaneSearch
reset s = record s { active = false; query = [] }

unfoldable has_filter : PaneSearch → Bool
has_filter s = not (is_nil (trim s.query))

-- Input ends first, then the filter is cleared.
unfoldable escape : PaneSearch → PaneSearch
unfolding end has_filter
escape s = if s.active then end s else if has_filter s then record s { query = [] } else s

abbrev xor : Bool → Bool → Bool
xor true b = not b
xor false b = b

unfoldable pub to_ascii_upper : ℕ → ℕ
to_ascii_upper c = if between b'a' b'z' c then c - 32 else c

unfoldable effective_ascii_letter : ℕ → Bool → Bool → ℕ
unfolding is_ascii_alphabetic to_ascii_lower to_ascii_upper
effective_ascii_letter c shift caps_lock =
    if not (is_ascii_alphabetic c)
    then c
    else if not shift && not caps_lock && between b'A' b'Z' c
    then c
    else if xor shift caps_lock
    then to_ascii_upper (to_ascii_lower c)
    else to_ascii_lower c

-- CTRL+u, which some terminals send as U+15.
abbrev is_clear_line : ℕ → Bool
is_clear_line c = c == b'u' || c == 0x15

-- The forms in which terminals send CTRL+/.
abbrev is_case_toggle : ℕ → Bool
is_case_toggle c = c == b'/' || c == b'_' || c == 0x1f || c == b'7'

-- A text without its last character.
unfoldable pub pop : Text → Text
pop [] = []
pop (c ∷ []) = []
pop (c ∷ d ∷ s) = c ∷ pop (d ∷ s)

unfoldable handle_char : PaneSearch → ℕ → KeyEvent → PaneSearch × PaneSearchInput
unfolding effective_ascii_letter
handle_char s c key =
    if key.control && is_clear_line c
    then (if is_nil s.query then (s, ignored) else (record s { query = [] }, query_changed))
    else if key.control && is_case_toggle c
    then (record s { ignore_case = not s.ignore_case }, options_changed)
    else if c == b'p' && key.control
    then (s, navigate false)
    else if c == b'n' && key.control
    then (s, navigate true)
    else if not (key.control || key.alt_or_meta)
    then (
      record s {
        query =
            s.query
            ++ (if ltb c 0x80 then effective_ascii_letter c key.shift key.caps_lock else c) ∷ [];
      },
      query_changed,
    )
    else (s, ignored)

unfoldable pub handle_key : PaneSearch → KeyEvent → PaneSearch × PaneSearchInput
unfolding escape end pop handle_char
handle_key s key = elim key.code [
  | esc ↦ (escape s, cancelled)
  | enter ↦ (end s, applied)
  | backspace ↦
      if is_nil s.query then (s, ignored) else (record s { query = pop s.query }, query_changed)
  | char c ↦ handle_char s c key
  | _ ↦ (s, ignored)
]

abbrev pub starts_with : Text → Text → Bool
starts_with [] s = true
starts_with (p ∷ ps) [] = false
starts_with (p ∷ ps) (c ∷ s) = p == c && starts_with ps s

-- `s.find(needle)`, counted in characters.
unfoldable pub find : Text → Text → Option ℕ
find needle [] = if is_nil needle then some 0 else none
find needle (c ∷ s) =
    let rest = find needle s in
    if starts_with needle (c ∷ s) then some 0 else elim rest [ some i ↦ some (suc i) | none ↦ none ]

-- The loop of `find_match_starts`: a round for each match, from the character `base` on.
unfoldable pub occurrences : ℕ → Text → ℕ → Text → List ℕ
unfolding find
occurrences zero needle base s = []
occurrences (suc fuel) needle base s = elim (find needle s) [
  | none ↦ []
  | some i ↦
      (base + i) ∷ occurrences fuel needle (base + i + length needle) (drop (i + length needle) s)
]

-- `haystack[..n].chars().count()` for the bytes before each match in the folded text; a cut inside a
-- character, or past the end, panics.
unfoldable cut_at_all : Text → Text → List ℕ → Option (List ℕ)
unfolding split_at_byte byte_len
cut_at_all haystack folded [] = some []
cut_at_all haystack folded (i ∷ more) =
    let rest = cut_at_all haystack folded more in
    elim (split_at_byte (byte_len (take i folded)) haystack) [
      | none ↦ none
      | some (front, back) ↦ elim rest [ some starts ↦ some (length front ∷ starts) | none ↦ none ]
    ]

-- `lower` is `str::to_lowercase` of the standard library.
unfoldable pub find_match_starts : (Text → Text) → Text → Text → Bool → Option (List ℕ)
unfolding trim occurrences cut_at_all
find_match_starts lower haystack needle ignore_case =
    let key = trim needle in
    if is_nil key
    then some []
    else if ignore_case
    then cut_at_all haystack (lower haystack)
        (occurrences (length (lower haystack)) (lower key) 0 (lower haystack))
    else some (occurrences (length haystack) key 0 haystack)
