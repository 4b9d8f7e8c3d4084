-- ===== src/Bbsread/PartFile/RoundTrip.antt =====
-- `pfread` reads back what `pfwrite` wrote (soft/cmd/bbsread/pf.c).
use mnetsoft.Base.{
  ℕ, ◌+◌, ◌≤◌, ◌<◌, ◌≡◌, ◌≢◌, refl, ap, sym, ◌∙◌, Bool, true, false, some, [], ◌∷◌, ◌++◌,
  if◌then◌else◌, ◌==◌, length, arith,
}
use mathlib.Core.List.{append_assoc}
use mathlib.Core.Path.{subst}
use mnetsoft.Base.Int.{pos, pos_part}
use mnetsoft.Base.Numerals.{
  decimal, hexadecimal, is_xdigit, hex_value, AreDigits, IsPlain, decimal-cons, hexadecimal-cons,
  digits_value-decimal, hex_value-hexadecimal,
}
use mnetsoft.Base.Text.{
  Text, codes, is_digit, skip_space, atol, signed_value, digits_value, long_max,
}
use mnetsoft.Bbsread.Parse.{firstin, firstout, head, tail}
use mnetsoft.Bbsread.Part.{Pfe}
use mnetsoft.Bbsread.PartFile.{
  bfsz, skip_digits, scan_unsigned, scan_int, scan_hex, read_rest, read_behind, read_line, show_int,
  pf_line,
}

skip_digits-append : (a rest : Text) → AreDigits a → IsPlain rest → skip_digits (a ++ rest) ≡ rest
unfolding skip_digits
skip_digits-append [] [] h p = refl
skip_digits-append [] (c ∷ cs) h p = rw p refl
skip_digits-append (d ∷ ds) rest h p = rw (h.0) (skip_digits-append ds rest h.1 p)

-- A number in front of a space.
skip_space-digit : (c : ℕ) (cs : Text) → is_digit c ≡ true → skip_space (c ∷ cs) ≡ c ∷ cs
unfolding skip_space
skip_space-digit c cs h = ground arith

scan_int-decimal :
    (v : ℕ) (rest : Text) → IsPlain rest → scan_int (decimal v ++ rest) ≡ some (pos v, rest)
unfolding scan_int scan_unsigned
scan_int-decimal v rest p =
    let (c, cs, e, d) = decimal-cons v in
    let value : digits_value 0 (c ∷ (cs ++ rest)) ≡ v =
      ap (λ t. digits_value 0 (t ++ rest)) (sym e) ∙ digits_value-decimal v rest p in
    let left : skip_digits (c ∷ (cs ++ rest)) ≡ rest = skip_digits-append (c ∷ cs) rest d p in
    rw (e, skip_space-digit c (cs ++ rest) d.0) (ground (arith, d.0, value, left))

atol-decimal :
    (v : ℕ) (rest : Text) → v ≤ long_max → IsPlain rest → pos_part (atol (decimal v ++ rest)) ≡ v
unfolding atol signed_value
atol-decimal v rest h p =
    let (c, cs, e, d) = decimal-cons v in
    let value : digits_value 0 (c ∷ (cs ++ rest)) ≡ v =
      ap (λ t. digits_value 0 (t ++ rest)) (sym e) ∙ digits_value-decimal v rest p in
    rw (e, skip_space-digit c (cs ++ rest) d.0) (ground (arith, d.0, value, h))

skip_space-xdigit : (c : ℕ) (cs : Text) → is_xdigit c ≡ true → skip_space (b' ' ∷ c ∷ cs) ≡ c ∷ cs
unfolding skip_space
skip_space-xdigit c cs h = ground arith

scan_hex-hexadecimal : (v : ℕ) → scan_hex (b' ' ∷ (hexadecimal v ++ (b'\n' ∷ []))) ≡ some v
unfolding scan_hex
scan_hex-hexadecimal v =
    let (c, cs, e, d) = hexadecimal-cons v in
    let value : hex_value 0 (c ∷ (cs ++ (b'\n' ∷ []))) ≡ v =
      ap (λ t. hex_value 0 (t ++ (b'\n' ∷ []))) (sym e)
      ∙ hex_value-hexadecimal v (b'\n' ∷ []) refl in
    rw (e, skip_space-xdigit c (cs ++ (b'\n' ∷ [])) d.0) (ground (arith, d.0, value))

firstin-digits : (a t : Text) → AreDigits a → firstin (a ++ (b' ' ∷ t)) (codes " ") ≡ b' ' ∷ t
unfolding firstin
firstin-digits [] t h = refl
firstin-digits (c ∷ cs) t h = ground (arith, h.0, firstin-digits cs t h.1)

firstout-space : (c : ℕ) (cs : Text) → c ≢ b' ' → firstout (b' ' ∷ c ∷ cs) (codes " ") ≡ c ∷ cs
unfolding firstout
firstout-space c cs h = ground arith

-- The line that is read back has the same numbers.
abbrev pub reopened : Pfe → Pfe
reopened pf = record pf { old_resp_no = pf.resp_no; deleted = false }

-- An entry with a number of responses that is not negative, and an item number that `atoi` reads.
pub record IsWritable (pf : Pfe) : Type 0 where
  pub responses : ℕ
  pub counted : pf.resp_no ≡ pos responses
  pub small : pf.item_no ≤ long_max
  pub fits : length (pf_line pf) + 1 < bfsz

-- What stands behind the item number.
abbrev behind : ℕ → ℕ → Text
behind r date = decimal r ++ (b' ' ∷ (hexadecimal date ++ (b'\n' ∷ [])))

read_rest-behind :
    (item r date : ℕ) (f : Bool)
    → read_rest item f (behind r date)
      ≡ some (record {
        item_no = item;
        resp_no = pos r;
        forgotten = f;
        old_resp_no = pos r;
        date = date;
        deleted = false;
      })
unfolding read_rest
read_rest-behind item r date f =
    rw
      (
        scan_int-decimal r (b' ' ∷ (hexadecimal date ++ (b'\n' ∷ []))) refl,
        read_rest,
        scan_hex-hexadecimal date,
      )
      refl

line_text :
    (pf : Pfe) (r : ℕ)
    → pf.resp_no ≡ pos r
    → pf_line pf ++ (b'\n' ∷ [])
      ≡ decimal pf.item_no
        ++ (b' ' ∷ ((if pf.forgotten then b'-' ∷ [] else []) ++ behind r pf.date))
unfolding pf_line show_int
line_text pf r e =
    let sign : Text = if pf.forgotten then b'-' ∷ [] else [] in
    let nl : Text = b'\n' ∷ [] in
    ap
      (λ z.
        decimal pf.item_no ++ (b' ' ∷ (sign ++ (show_int z ++ (b' ' ∷ hexadecimal pf.date)))) ++ nl)
      e
    ∙ append_assoc (decimal pf.item_no)
        (b' ' ∷ (sign ++ (decimal r ++ (b' ' ∷ hexadecimal pf.date)))) nl
    ∙ ap (λ t. decimal pf.item_no ++ (b' ' ∷ t))
        (append_assoc sign (decimal r ++ (b' ' ∷ hexadecimal pf.date)) nl
          ∙ ap (λ t. sign ++ t) (append_assoc (decimal r) (b' ' ∷ hexadecimal pf.date) nl))

read_line_at :
    (buf t : Text) (item : ℕ)
    → is_digit (head buf) ≡ true
    → pos_part (atol buf) ≡ item
    → firstout (firstin buf (codes " ")) (codes " ") ≡ t
    → read_line buf ≡ read_behind item t
unfolding read_line
read_line_at buf t item h number found = rw (h, number, found) refl

abbrev minus_of : Bool → Text
minus_of f = if f then b'-' ∷ [] else []

abbrev read_back : ℕ → ℕ → ℕ → Bool → Pfe
read_back item r date f = record {
  item_no = item;
  resp_no = pos r;
  forgotten = f;
  old_resp_no = pos r;
  date = date;
  deleted = false;
}

-- Behind the item number, with the space that `firstin` finds.
read_behind-text :
    (item r date : ℕ) (f : Bool)
    → (firstout (b' ' ∷ (minus_of f ++ behind r date)) (codes " ") ≡ minus_of f ++ behind r date)
      × (read_behind item (minus_of f ++ behind r date) ≡ some (read_back item r date f))
unfolding read_behind
read_behind-text item r date true =
    (firstout-space b'-' (behind r date) (ground arith), read_rest-behind item r date true)
read_behind-text item r date false =
    let (c, cs, e, d) = decimal-cons r in
    let more : Text = cs ++ (b' ' ∷ (hexadecimal date ++ (b'\n' ∷ []))) in
    let here : behind r date ≡ c ∷ more =
      ap (λ t. t ++ (b' ' ∷ (hexadecimal date ++ (b'\n' ∷ [])))) e in
    let plain : (c == b'-') ≡ false = ground (arith, d.0) in
    (
      subst (λ t. firstout (b' ' ∷ t) (codes " ") ≡ t) (sym here)
          (firstout-space c more (ground (arith, d.0))),
      subst
          (λ t.
            (if head t == b'-' then read_rest item true (tail t) else read_rest item false t)
            ≡ some (read_back item r date false))
          (sym here) (rw plain (rw (← here) (read_rest-behind item r date false))),
    )

read_line-text :
    (item r date : ℕ) (f : Bool)
    → item ≤ long_max
    → read_line (decimal item ++ (b' ' ∷ (minus_of f ++ behind r date)))
      ≡ some (read_back item r date f)
read_line-text item r date f h =
    let rest : Text = minus_of f ++ behind r date in
    let (c, cs, e, d) = decimal-cons item in
    let (skipped, read) = read_behind-text item r date f in
    let found : firstin (decimal item ++ (b' ' ∷ rest)) (codes " ") ≡ b' ' ∷ rest =
      rw e (firstin-digits (c ∷ cs) rest d) in
    let start : is_digit (head (decimal item ++ (b' ' ∷ rest))) ≡ true = rw e d.0 in
    read_line_at (decimal item ++ (b' ' ∷ rest)) rest item start
      (atol-decimal item (b' ' ∷ rest) h refl) (ap (λ t. firstout t (codes " ")) found ∙ skipped)
    ∙ read

pub read_line-pf_line :
    (pf : Pfe) → IsWritable pf → read_line (pf_line pf ++ (b'\n' ∷ [])) ≡ some (reopened pf)
read_line-pf_line pf w =
    ap read_line (line_text pf w.responses w.counted)
    ∙ read_line-text pf.item_no w.responses pf.date pf.forgotten w.small
    ∙ ap
        (λ z. some (record {
          item_no = pf.item_no;
          resp_no = z;
          forgotten = pf.forgotten;
          old_resp_no = z;
          date = pf.date;
          deleted = false;
        }))
        (sym w.counted)
