-- ===== src/Grexhash/Realm.antt =====
-- The realm of a host in soft/libgrex/grexhash.c: `kg_realmofhost` and `kg_localrealm`. A pointer
-- into the host's name is the text from there on; a null pointer is `none`.
pub mod Room
use mnetsoft.Base.{
  ℕ, zero, suc, ◌+◌, ◌-◌, ◌≤◌, ◌<◌, ◌≡◌, ◌≢◌, refl, ap, ◌∙◌, sym, Bool, true, false, not, ◌&&◌,
  ◌||◌, Option, none, some, List, [], ◌∷◌, ◌++◌, if◌then◌else◌, ◌==◌, ltb, leb, length, arith,
  Bool-cases, inl, inr, length-append,
}
use mnetsoft.Base.Text.{Text, codes, is_lower}

-- `s2`, `s3`, `s4` and `c`
pub record Dots : Type 0 where
  pub s2 : Text
  pub s3 : Option Text
  pub s4 : Option Text
  pub c : ℕ

-- What the loop does at one byte, with `s1` behind it.
unfoldable pub pass_dot : ℕ → Text → Dots → Dots
pass_dot x s1 d = if x == b'.' then record { s2 = s1; s3 = some d.s2; s4 = d.s3; c = d.c } else d

-- The `for` loop over the dots, from `s1` on; a dot at the end of the name ends it.
unfoldable pub find_dots : Text → Dots → Dots
unfolding pass_dot
find_dots [] d = d
find_dots (x ∷ []) d = if x == b'.' then record d { c = 1 } else d
find_dots (x ∷ y ∷ ys) d = find_dots (y ∷ ys) (pass_dot x (y ∷ ys) d)

-- FOREIGN; a name with a dot at its end has at least that byte in each of its parts.
abbrev pub foreign : Text → Text → ℕ → Bool
foreign a b c = (length a - c == 2) && leb (length b - c) 6

abbrev pub to_upper : ℕ → ℕ
to_upper ch = if is_lower ch then ch - 32 else ch

-- The `while` loop: the bytes stored, a dot that came last cut off; `none` where there is no room.
unfoldable pub copy_realm : Text → ℕ → Option Text
copy_realm [] rsize = some []
copy_realm (ch ∷ cs) rsize = if leb rsize 1 then none else elim (copy_realm cs (rsize - 1)) [
  | none ↦ none
  | some r ↦ some (if ch == b'.' && (length cs == 0) then [] else to_upper ch ∷ r)
]

-- `kg_realmofhost` behind the loop
unfoldable pub choose_realm : Text → Option Text → Option Text → ℕ → ℕ → Option Text
unfolding copy_realm
choose_realm s2 none s4 c rsize = none
choose_realm s2 (some s3) none c rsize = if foreign s2 s3 c then none else copy_realm s3 (rsize + c)
choose_realm s2 (some s3) (some s4) c rsize =
    copy_realm (if foreign s2 s3 c then s4 else s3) (rsize + c)

unfoldable pub kg_realmofhost : Text → ℕ → Option Text
unfolding find_dots choose_realm
kg_realmofhost hostname rsize =
    let d = find_dots hostname (record { s2 = hostname; s3 = none; s4 = none; c = 0 }) in
    choose_realm d.s2 d.s3 d.s4 d.c rsize

-- GREXHASHREALM is defined; `foo` holds 511 bytes and the terminator.
unfoldable pub kg_localrealm : ℕ → Option Text
unfolding kg_realmofhost
kg_localrealm lsize = kg_realmofhost (codes "grex.cyberspace.org") lsize

pub local_is_cyberspace : kg_localrealm 64 ≡ some (codes "CYBERSPACE.ORG")
unfolding kg_localrealm
local_is_cyberspace = refl
