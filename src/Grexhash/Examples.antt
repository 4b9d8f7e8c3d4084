-- ===== src/Grexhash/Examples.antt =====
-- The theorems on soft/libgrex/grexhash.c at concrete inputs.
use mnetsoft.Base.{ℕ, ◌≡◌, ◌<◌, refl, some, List, [], ◌∷◌, arith, length, replicate}
use mnetsoft.Base.Text.{codes}
use mnetsoft.Grexhash.{kg_str_to_bin, bytes_text, grexhash_r}
use mnetsoft.Grexhash.RoundTrip.{kg_str_to_bin-bytes_text}
use mnetsoft.Grexhash.Realm.{kg_realmofhost, find_dots, pass_dot, choose_realm, copy_realm}
use mnetsoft.Grexhash.Realm.Room.{length-kg_realmofhost}
use mnetsoft.Grexhash.Password.{grexhash_r-password}

abbrev memory : List ℕ
memory = 7 ∷ 255 ∷ 0 ∷ 19 ∷ replicate 40 200

kg_str_to_bin-bytes_text_example :
    kg_str_to_bin (bytes_text 6 (7 ∷ 255 ∷ 0 ∷ 19 ∷ []) []) 4 ≡ some (7 ∷ 255 ∷ 0 ∷ 19 ∷ [])
kg_str_to_bin-bytes_text_example =
    kg_str_to_bin-bytes_text (7 ∷ 255 ∷ 0 ∷ 19 ∷ []) (omega arith) (omega arith)

abbrev digest : List ℕ → List ℕ
digest m = replicate 20 (length m)

grexhash_r-password_example :
    grexhash_r digest memory (codes "open sesame") (codes "ann") 32
    ≡ grexhash_r digest memory (codes "guess") (codes "bob") 32
grexhash_r-password_example =
    grexhash_r-password digest memory (codes "open sesame") (codes "ann") (codes "guess")
      (codes "bob") 32

length-kg_realmofhost_example : length (codes "CYBERSPACE.ORG") < 15
length-kg_realmofhost_example =
    length-kg_realmofhost (codes "grex.cyberspace.org.") 15 {r = codes "CYBERSPACE.ORG"}
      (omega arith) (unfold kg_realmofhost find_dots pass_dot choose_realm copy_realm in refl)
