-- ===== src/Ownu/RoundTrip.antt =====
-- What `load_query` of soft/apps/ownu/cgi-decode.c makes of a query that was encoded.
use mathlib.Core.List.{append_assoc, append-nil, reverse, reverse_aux}
use mnetsoft.Base.{
  ℕ, ◌/◌, ◌%◌, ◌<◌, ◌≡◌, ◌≢◌, refl, sym, ap, ◌∙◌, Bool, ◌&&◌, ◌||◌, Option, none, some, List, [],
  ◌∷◌, ◌++◌, map, if◌then◌else◌, leb, arith, Bool-cases, inl, inr,
}
use mnetsoft.Base.Text.{Text, is_digit, is_lower}
use mnetsoft.Base.Numerals.{hex_digit}
use mnetsoft.Ownu.{
  Entry, plustospace, digit_of, x2c, cons, unescape, upto_zero, ended, unescape_url, before, behind,
  entry_of, load_entry, extend, parts, load_parts, load_query,
}

-- The encoding: letters and digits as they are, each other byte as a percent sign and two digits.
abbrev is_plain : ℕ → Bool
is_plain c = is_digit c || (is_lower c || leb b'A' c && leb c b'Z')

abbrev encode_char : ℕ → Text → Text
encode_char c rest =
    if is_plain c then c ∷ rest else b'%' ∷ hex_digit (c / 16) ∷ hex_digit (c % 16) ∷ rest

-- In front of a rest.
abbrev pub encode : Text → Text → Text
encode [] rest = rest
encode (c ∷ cs) rest = encode_char c (encode cs rest)

abbrev pub encode_entry : Entry → Text → Text
encode_entry e rest = encode e.name (b'=' ∷ encode e.value rest)

abbrev pub encode_query : List Entry → Text
encode_query [] = []
encode_query (e ∷ []) = encode_entry e []
encode_query (e ∷ e' ∷ es) = encode_entry e (b'&' ∷ encode_query (e' ∷ es))

-- The bytes of a string.
abbrev pub AreBytes : Text → Type 0
AreBytes [] = Unit {0}
AreBytes (c ∷ cs) = (0 < c) × (c < 256) × AreBytes cs

abbrev pub IsFree : ℕ → Text → Type 0
IsFree ch [] = Unit {0}
IsFree ch (c ∷ cs) = (c ≢ ch) × IsFree ch cs

x2c-hex_digit : (c : ℕ) → c < 256 → x2c (hex_digit (c / 16)) (hex_digit (c % 16)) ≡ c
unfolding x2c digit_of
x2c-hex_digit c h = ground arith

unescape-nil : unescape [] ≡ some []
unfolding unescape
unescape-nil = refl

unescape-cons : (c : ℕ) (cs : Text) → c ≢ b'%' → unescape (c ∷ cs) ≡ cons c (unescape cs)
unfolding unescape
unescape-cons c [] h = ground arith
unescape-cons c (a ∷ []) h = ground arith
unescape-cons c (a ∷ b ∷ cs) h = ground arith

unescape-percent :
    (a b : ℕ) (cs : Text) → unescape (b'%' ∷ a ∷ b ∷ cs) ≡ cons (x2c a b) (unescape cs)
unfolding unescape
unescape-percent a b cs = refl

unescape-encode_char :
    (c : ℕ) (cs : Text) → c < 256 → unescape (encode_char c cs) ≡ cons c (unescape cs)
unescape-encode_char c cs h = elim (Bool-cases (is_plain c)) [
  | inl e ↦ rw e (unescape-cons c cs (ground (arith, e)))
  | inr e ↦ rw e (
      unescape-percent (hex_digit (c / 16)) (hex_digit (c % 16)) cs
      ∙ ap (λ d. cons d (unescape cs)) (x2c-hex_digit c h))
]

-- A text in front of what is decoded.
abbrev in_front : Text → Option Text → Option Text
in_front t none = none
in_front t (some cs) = some (t ++ cs)

cons-in_front : (c : ℕ) (t : Text) (o : Option Text) → cons c (in_front t o) ≡ in_front (c ∷ t) o
cons-in_front c t none = refl
cons-in_front c t (some cs) = refl

in_front-nil : (o : Option Text) → o ≡ in_front [] o
in_front-nil none = refl
in_front-nil (some cs) = refl

unescape-encode :
    (t rest : Text) → AreBytes t → unescape (encode t rest) ≡ in_front t (unescape rest)
unescape-encode [] rest h = in_front-nil (unescape rest)
unescape-encode (c ∷ cs) rest h =
    unescape-encode_char c (encode cs rest) h.1
    ∙ ap (cons c) (unescape-encode cs rest h.2)
    ∙ cons-in_front c cs (unescape rest)

plustospace-encode :
    (t rest : Text) → AreBytes t → plustospace (encode t rest) ≡ encode t (plustospace rest)
unfolding plustospace
plustospace-encode [] rest h = refl
plustospace-encode (c ∷ cs) rest h = ground (arith, plustospace-encode cs rest h.2)

-- A text in front of the first part.
abbrev front : Text → List Text → List Text
front [] ps = ps
front (c ∷ cs) ps = extend c (front cs ps)

front-part : (t q : Text) (ps : List Text) → front t (q ∷ ps) ≡ (t ++ q) ∷ ps
front-part [] q ps = refl
front-part (c ∷ cs) q ps = ap (extend c) (front-part cs q ps)

parts-append : (t rest : Text) → IsFree b'&' t → parts (t ++ rest) ≡ front t (parts rest)
unfolding parts
parts-append [] rest h = refl
parts-append (c ∷ cs) rest h = ground (arith, parts-append cs rest h.1)

encode-append : (t rest : Text) → encode t rest ≡ encode t [] ++ rest
encode-append [] rest = refl
encode-append (c ∷ cs) rest = ground (arith, encode-append cs rest)

encode-IsFree : (t rest : Text) → AreBytes t → IsFree b'&' rest → IsFree b'&' (encode t rest)
encode-IsFree [] rest h f = f
encode-IsFree (c ∷ cs) rest h f = ground (arith, encode-IsFree cs rest h.2 f)

-- An entry that can be sent: bytes that are not zero, and no equals sign in the name.
pub record IsSendable (e : Entry) : Type 0 where
  pub name_bytes : AreBytes e.name
  pub value_bytes : AreBytes e.value
  pub name_free : IsFree b'=' e.name

abbrev pub AreSendable : List Entry → Type 0
AreSendable [] = Unit {0}
AreSendable (e ∷ es) = IsSendable e × AreSendable es

abbrev segment : Entry → Text
segment e = encode_entry e []

encode_entry-append : (e : Entry) (rest : Text) → encode_entry e rest ≡ segment e ++ rest
encode_entry-append e rest =
    encode-append e.name (b'=' ∷ encode e.value rest)
    ∙ ap (λ v. encode e.name [] ++ (b'=' ∷ v)) (encode-append e.value rest)
    ∙ sym (append_assoc (encode e.name []) (b'=' ∷ encode e.value []) rest)
    ∙ ap (λ t. t ++ rest) (sym (encode-append e.name (b'=' ∷ encode e.value [])))

parts-segment :
    (e : Entry) (rest : Text)
    → IsSendable e
    → parts (encode_entry e rest) ≡ front (segment e) (parts rest)
parts-segment e rest h =
    ap parts (encode_entry-append e rest)
    ∙ parts-append (segment e) rest (
        encode-IsFree e.name (b'=' ∷ encode e.value []) h.name_bytes
          (ground (arith, encode-IsFree e.value [] h.value_bytes tt)))

parts-encode_query :
    (e : Entry) (es : List Entry)
    → AreSendable (e ∷ es)
    → parts (encode_query (e ∷ es)) ≡ map segment (e ∷ es)
unfolding parts
parts-encode_query e [] h =
    parts-segment e [] h.0
    ∙ front-part (segment e) [] []
    ∙ ap (λ t. t ∷ []) (append-nil (segment e))
parts-encode_query e (e' ∷ es) h =
    let q : Text = encode_query (e' ∷ es) in
    parts-segment e (b'&' ∷ q) h.0
    ∙ front-part (segment e) [] (parts q)
    ∙ ap (λ t. t ∷ parts q) (append-nil (segment e))
    ∙ ap (λ ps. segment e ∷ ps) (parts-encode_query e' es h.1)

upto_zero-append : (t rest : Text) → AreBytes t → upto_zero (t ++ rest) ≡ t ++ upto_zero rest
upto_zero-append [] rest h = refl
upto_zero-append (c ∷ cs) rest h = ground (arith, h.0, upto_zero-append cs rest h.2)

split-equals :
    (n v : Text)
    → IsFree b'=' n
    → (before b'=' (n ++ b'=' ∷ v) ≡ n) × (behind b'=' (n ++ b'=' ∷ v) ≡ v)
unfolding before behind
split-equals [] v h = (refl, refl)
split-equals (c ∷ cs) v h = ground (arith, split-equals cs v h.1)

unescape-segment :
    (e : Entry) → IsSendable e → unescape (segment e) ≡ some (e.name ++ b'=' ∷ (e.value ++ []))
unescape-segment e h =
    unescape-encode e.name (b'=' ∷ encode e.value []) h.name_bytes
    ∙ ap (in_front e.name) (
        unescape-cons b'=' (encode e.value []) (ground arith)
        ∙ ap (cons b'=')
            (unescape-encode e.value [] h.value_bytes ∙ ap (in_front e.value) unescape-nil))

plustospace-segment : (e : Entry) → IsSendable e → plustospace (segment e) ≡ segment e
unfolding plustospace
plustospace-segment e h =
    plustospace-encode e.name (b'=' ∷ encode e.value []) h.name_bytes
    ∙ ap (λ v. encode e.name (b'=' ∷ v)) (plustospace-encode e.value [] h.value_bytes)

load_entry-segment : (e : Entry) → IsSendable e → load_entry (segment e) ≡ some e
unfolding load_entry unescape_url
load_entry-segment e h =
    let (b, v) = split-equals e.name e.value h.name_free in
    let whole : e.name ++ b'=' ∷ (e.value ++ []) ≡ e.name ++ b'=' ∷ e.value =
      ap (λ v. e.name ++ b'=' ∷ v) (append-nil e.value) in
    let cut : upto_zero (e.name ++ b'=' ∷ (e.value ++ [])) ≡ e.name ++ b'=' ∷ e.value =
      upto_zero-append e.name (b'=' ∷ (e.value ++ [])) h.name_bytes
      ∙ ap (λ v. e.name ++ b'=' ∷ v)
          (upto_zero-append e.value [] h.value_bytes ∙ append-nil e.value) in
    ap (λ t. entry_of (unescape_url t)) (plustospace-segment e h)
    ∙ ap (λ o. entry_of (ended o)) (unescape-segment e h)
    ∙ ap (λ t. entry_of (some t)) cut
    ∙ ap some (
        ap (λ n. record { name = n; value = behind b'=' (e.name ++ b'=' ∷ e.value) }) b
        ∙ ap (λ v. record { name = e.name; value = v }) v)

load_parts-segments :
    (es head : List Entry)
    → AreSendable es
    → load_parts (map segment es) head ≡ some (reverse_aux es head)
unfolding load_parts
load_parts-segments [] head h = refl
load_parts-segments (e ∷ es) head h =
    rw (load_parts, load_entry-segment e h.0) (load_parts-segments es (e ∷ head) h.1)

-- A query with an entry is not empty.
encode-cons : (t : Text) (r : ℕ) (rs : Text) → (c : ℕ) × (cs : Text) × (encode t (r ∷ rs) ≡ c ∷ cs)
encode-cons [] r rs = (r, rs, refl)
encode-cons (c ∷ cs) r rs = elim (Bool-cases (is_plain c)) [
  | inl e ↦ (c, encode cs (r ∷ rs), rw e refl)
  | inr e ↦ (b'%', hex_digit (c / 16) ∷ hex_digit (c % 16) ∷ encode cs (r ∷ rs), rw e refl)
]

encode_query-cons :
    (e : Entry) (es : List Entry) → (c : ℕ) × (cs : Text) × (encode_query (e ∷ es) ≡ c ∷ cs)
encode_query-cons e [] = encode-cons e.name b'=' (encode e.value [])
encode_query-cons e (e' ∷ es) =
    encode-cons e.name b'=' (encode e.value (b'&' ∷ encode_query (e' ∷ es)))

load_query-cons :
    (t : Text) (c : ℕ) (cs : Text) → t ≡ c ∷ cs → load_query t ≡ load_parts (parts t) []
unfolding load_query
load_query-cons [] c cs e = absurd (cc)
load_query-cons (d ∷ ds) c cs e = refl

-- A query in which letters and digits stand for themselves, and every other byte is a percent sign
-- with two digits, is decoded into the entries that were encoded, in reverse: for names and values
-- without zero bytes, and names without an equals sign (`load_query` decodes an entry before it
-- looks for the equals sign).
pub load_query-encode_query :
    (es : List Entry) → AreSendable es → load_query (encode_query es) ≡ some (reverse es)
unfolding load_query
load_query-encode_query [] h = refl
load_query-encode_query (e ∷ es) h =
    let (c, cs, q) = encode_query-cons e es in
    load_query-cons (encode_query (e ∷ es)) c cs q
    ∙ ap (λ ps. load_parts ps []) (parts-encode_query e es h)
    ∙ load_parts-segments (e ∷ es) [] h
