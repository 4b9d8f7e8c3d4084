-- ===== src/Cflbuild/Heap.antt =====
-- soft/cmd/cflbuild/cflbuild.h: the nodes of the list of conferences, with a map for each field.
use mnetsoft.Base.{ℕ, ◌+◌, Bool, true, false, Option, none, some, ◌==◌, if◌then◌else◌}
use mnetsoft.Base.Text.{Text}

abbrev pub Ptr : Type 0
Ptr = ℕ

abbrev pub null : Ptr
null = 0

-- `top` is the address that the next allocation gives; a freed node is not given again.
pub record Heap : Type 0 where
  pub live : Ptr → Bool
  pub name : Ptr → Text
  pub num : Ptr → ℕ
  pub next : Ptr → Ptr
  pub prev : Ptr → Ptr
  pub top : Ptr

unfoldable pub put {ℓ} : {A : Type ℓ} → (Ptr → A) → Ptr → A → Ptr → A
put f p v r = if r == p then v else f r

-- An access to a node; none where the pointer is NULL or the node is freed.
abbrev pub at {ℓ} : {A : Type ℓ} → Heap → Ptr → A → Option A
at h p a = if h.live p then some a else none

abbrev pub get_next : Ptr → Heap → Option Ptr
get_next p h = at h p (h.next p)

abbrev pub get_prev : Ptr → Heap → Option Ptr
get_prev p h = at h p (h.prev p)

abbrev pub set_next : Ptr → Ptr → Heap → Option Heap
set_next p q h = at h p (record h { next = put h.next p q })

abbrev pub set_prev : Ptr → Ptr → Heap → Option Heap
set_prev p q h = at h p (record h { prev = put h.prev p q })

abbrev pub set_num : Ptr → ℕ → Heap → Option Heap
set_num p n h = at h p (record h { num = put h.num p n })

abbrev pub set_name : Ptr → Text → Heap → Option Heap
set_name p s h = at h p (record h { name = put h.name p s })

-- free(p->ConfName), free(p)
abbrev pub free_node : Ptr → Heap → Option Heap
free_node p h = at h p (record h { live = put h.live p false })

-- malloc, the fields of the new node as the code sets them next
abbrev pub new_node : Text → ℕ → Ptr → Ptr → Heap → Heap
new_node s n p q h = record {
  live = put h.live h.top true;
  name = put h.name h.top s;
  num = put h.num h.top n;
  next = put h.next h.top q;
  prev = put h.prev h.top p;
  top = h.top + 1;
}

infixl 5 ◌>>=◌
abbrev pub ◌>>=◌ {ℓ κ} : {A : Type ℓ} {B : Type κ} → Option A → (A → Option B) → Option B
none >>= k = none
some a >>= k = k a
