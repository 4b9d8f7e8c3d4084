-- ===== src/Cflbuild/Sort/Order.antt =====
-- soft/cmd/cflbuild: the order of the names that SortAll compares by.
use mnetsoft.Base.{◌≡◌, refl, true, false, [], ◌∷◌, arith}
use mnetsoft.Base.Text.{Text}
use mnetsoft.Cflbuild.Sort.{text_gt}

pub text_gt_irrefl : (a : Text) → text_gt a a ≡ false
unfolding text_gt
text_gt_irrefl [] = refl
text_gt_irrefl (x ∷ xs) = ground (arith, text_gt_irrefl xs)

pub text_gt-asymm : (a b : Text) → text_gt a b ≡ true → text_gt b a ≡ false
unfolding text_gt
text_gt-asymm [] b h = ground arith
text_gt-asymm (x ∷ xs) [] h = refl
text_gt-asymm (x ∷ xs) (y ∷ ys) h = ground (arith, text_gt-asymm xs ys)

-- "not above" is transitive.
pub text_gt_trans : (a b c : Text) → text_gt a b ≡ false → text_gt b c ≡ false → text_gt a c ≡ false
unfolding text_gt
text_gt_trans [] b c h k = refl
text_gt_trans (x ∷ xs) [] c h k = ground arith
text_gt_trans (x ∷ xs) (y ∷ ys) [] h k = ground arith
text_gt_trans (x ∷ xs) (y ∷ ys) (z ∷ zs) h k = ground (arith, text_gt_trans xs ys zs)
