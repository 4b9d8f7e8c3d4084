-- ===== src/Bbsread/Parse/Abbreviations.antt =====
-- What `match` of soft/cmd/bbsread/match.c accepts.
use mnetsoft.Base.{◌≡◌, ◌≢◌, refl, Bool, true, false, ◌&&◌, [], ◌∷◌, ◌++◌, ◌==◌, leb, length, arith}
use mnetsoft.Base.Text.{Text}
use mnetsoft.Bbsread.Parse.{match_loop, match}

-- The letters of a keyword.
abbrev pub IsPlain : Text → Type 0
IsPlain [] = Unit {0}
IsPlain (c ∷ cs) = (c ≢ b'_') × (c ≢ b':') × IsPlain cs

abbrev pub is_prefix : Text → Text → Bool
is_prefix [] t = true
is_prefix (c ∷ cs) [] = false
is_prefix (c ∷ cs) (d ∷ ds) = c == d && is_prefix cs ds

match_loop-optional :
    (name opt : Text) → IsPlain opt → match_loop name opt true ≡ is_prefix name opt
unfolding match_loop
match_loop-optional [] [] h = refl
match_loop-optional [] (p ∷ pat) h = ground arith
match_loop-optional (c ∷ name) [] h = refl
match_loop-optional (c ∷ name) (p ∷ pat) h = ground (arith, match_loop-optional name pat h.2)

match_loop-required :
    (name req opt : Text)
    → IsPlain req
    → IsPlain opt
    → match_loop name (req ++ b'_' ∷ opt) false
      ≡ (leb (length req) (length name) && is_prefix name (req ++ opt))
unfolding match_loop
match_loop-required [] [] opt hr ho = ground arith
match_loop-required [] (p ∷ req) opt hr ho = ground arith
match_loop-required (c ∷ name) [] opt hr ho = ground (arith, match_loop-optional (c ∷ name) opt ho)
match_loop-required (c ∷ name) (p ∷ req) opt hr ho =
    ground (arith, match_loop-required name req opt hr.2 ho)

-- A pattern with one `_` between letters is matched by exactly the names that are a beginning of its
-- letters and have all those before the `_`.
match-abbreviation :
    (name req opt : Text)
    → IsPlain req
    → IsPlain opt
    → match name (req ++ b'_' ∷ opt)
      ≡ (leb (length req) (length name) && is_prefix name (req ++ opt))
unfolding match
match-abbreviation name req opt hr ho = match_loop-required name req opt hr ho
