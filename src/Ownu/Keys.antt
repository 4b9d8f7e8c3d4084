-- ===== src/Ownu/Keys.antt =====
-- The control keys of a new user, soft/apps/ownu/wnu-keys.c.
use mnetsoft.Base.{
  ℕ, ◌-◌, Bool, false, not, ◌&&◌, ◌||◌, Option, none, some, List, [], ◌∷◌, if◌then◌else◌, ◌==◌, leb,
  set,
}
use mnetsoft.Base.Text.{Text, is_lower}
use mnetsoft.Ownu.Wrap.{byte_at}

-- MERASE, MINTR, MKILL, MEOF are the indices 0 to 3 of `keyval`.
abbrev pub start_keyval : List ℕ
start_keyval = 8 ∷ 3 ∷ 24 ∷ 4 ∷ []

abbrev meof : ℕ
meof = 3

-- The characters with an explanation, but for the end-of-file key.
abbrev reserved_codes : List ℕ
reserved_codes = b'\r' ∷ b'\n' ∷ b'\t' ∷ 26 ∷ 25 ∷ 23 ∷ 18 ∷ 15 ∷ 22 ∷ 17 ∷ 19 ∷ 27 ∷ 28 ∷ []

abbrev is_in : ℕ → List ℕ → Bool
is_in c [] = false
is_in c (d ∷ ds) = c == d || is_in c ds

-- `reserved_key`: whether there is an explanation.
unfoldable pub reserved_key : ℕ → ℕ → Bool
reserved_key c key = is_in c reserved_codes || c == 4 && not (key == meof)

-- The errors that are printed.
pub data Complaint : Type 0 where
  unrecognizable : ℕ → Complaint
  not_control : ℕ → Complaint
  illegal_key : ℕ → Complaint
  same_key : ℕ → ℕ → Complaint

abbrev is_upper : ℕ → Bool
is_upper c = leb b'A' c && leb c b'Z'

abbrev is_print : ℕ → Bool
is_print c = leb 32 c && leb c 126

-- `^C` or `^?`
abbrev is_caret : Text → Bool
is_caret val =
    byte_at 0 val == b'^'
    && (byte_at 2 val == 0
        && (is_upper (byte_at 1 val) || (is_lower (byte_at 1 val) || byte_at 1 val == b'?')))

abbrev caret_key : ℕ → ℕ
caret_key c = if c == b'?' then 127 else if is_upper c then c - b'@' else c - b'`'

-- The end of `check_key`, with the new value.
abbrev stored : ℕ → ℕ → List ℕ → List ℕ × Option Complaint
stored key c keyval =
    (set keyval key c, if reserved_key c key then some (illegal_key key) else none)

unfoldable pub check_key : Text → ℕ → List ℕ → List ℕ × Option Complaint
unfolding reserved_key
check_key val key keyval =
    if byte_at 0 val == 0
    then (keyval, none)
    else if is_caret val
    then stored key (caret_key (byte_at 1 val)) keyval
    else if not (byte_at 1 val == 0) || leb 128 (byte_at 0 val)
    then (keyval, some (unrecognizable key))
    else if is_print (byte_at 0 val)
    then (keyval, some (not_control key))
    else stored key (byte_at 0 val) keyval

-- `check_backspace`, `check_interupt`, `check_kill`, `check_eof`
abbrev pub check_backspace : Text → List ℕ → List ℕ × Option Complaint
check_backspace val keyval = check_key val 0 keyval

abbrev pub check_interupt : Text → List ℕ → List ℕ × Option Complaint
check_interupt val keyval = check_key val 1 keyval

abbrev pub check_kill : Text → List ℕ → List ℕ × Option Complaint
check_kill val keyval = check_key val 2 keyval

abbrev pub check_eof : Text → List ℕ → List ℕ × Option Complaint
check_eof val keyval = check_key val meof keyval

-- The pairs of the two loops of `final_key_check`, and the first with the same key.
abbrev key_pairs : List (ℕ × ℕ)
key_pairs = (0, 1) ∷ (0, 2) ∷ (0, 3) ∷ (1, 2) ∷ (1, 3) ∷ (2, 3) ∷ []

unfoldable pub first_same : List (ℕ × ℕ) → List ℕ → Option Complaint
first_same [] keyval = none
first_same ((i, j) ∷ pairs) keyval =
    if byte_at i keyval == byte_at j keyval then some (same_key i j) else first_same pairs keyval

-- Where there is no complaint the keys are stored for the terminal.
unfoldable pub final_key_check : List ℕ → Option Complaint
unfolding first_same
final_key_check keyval = first_same key_pairs keyval
