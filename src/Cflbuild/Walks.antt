-- ===== src/Cflbuild/Walks.antt =====
-- soft/cmd/cflbuild/cflbuild.c: the functions that walk the list, on fuel; `none` is an access to a
-- node that is not there, or no fuel left.
pub mod Finds
pub mod Shuffles
pub mod Appends
use mnetsoft.Base.{
  ℕ, zero, suc, ◌+◌, Bool, true, false, Option, none, some, ◌==◌, if◌then◌else◌, List, [], ◌∷◌,
  ◌++◌, take,
}
use mnetsoft.Base.Text.{Text, same_text, strlcpy}
use mnetsoft.Cflbuild.Heap.{
  Ptr, null, Heap, at, get_next, set_next, set_num, free_node, new_node, ◌>>=◌,
}

-- InitList: the node before the list, its ConfNum not set (here 0), no other node in the heap.
abbrev pub init_list : Ptr → Heap
init_list conf = record {
  live = λ p. p == conf;
  name = λ p. [];
  num = λ p. 0;
  next = λ p. null;
  prev = λ p. null;
  top = conf + 1;
}

-- Find's test of a node: its number, or with WhichOne its name.
unfoldable pub matches : Bool → ℕ → Text → Heap → Ptr → Bool
matches true num name h p = same_text (h.name p) name
matches false num name h p = h.num p == num

-- Find's loop; NULL where no node is like that.
unfoldable pub find : ℕ → Bool → ℕ → Text → Ptr → Heap → Option Ptr
find zero which num name p h = none
find (suc n) which num name p h = if p == null then some null else do
  m ← at h p (matches which num name h p)
  c ← get_next p h
  let rest = find n which num name c h in if m then some p else rest

-- Shuffle's loop with Num at `k`.
unfoldable pub shuffle : ℕ → ℕ → Ptr → Heap → Option Heap
shuffle zero k p h = none
shuffle (suc n) k p h =
    if p == null then some h else do h₁ ← set_num p k h; c ← get_next p h₁; shuffle n (k + 1) c h₁

-- WriteToBuffers, lines 128-131
unfoldable pub last_node : ℕ → Ptr → Heap → Option Ptr
last_node zero p h = none
last_node (suc n) p h = do
  c ← get_next p h
  let rest = last_node n c h in if c == null then some p else rest

unfoldable pub write_to_buffers : ℕ → Ptr → Text → ℕ → ℕ → Heap → Option Heap
write_to_buffers n conf buffer num len h = do
  p ← last_node n conf h
  set_next p h.top (new_node (strlcpy buffer (len + 1)) num p null h)

-- snprintf(Buffer, 200, "%s\n", name)
unfoldable pub name_line : Text → Text
name_line name = take 199 (name ++ (b'\n' ∷ []))

-- WriteTocflist's loop: what it writes.
unfoldable pub write_tocflist : ℕ → Ptr → Heap → Option Text
write_tocflist zero p h = none
write_tocflist (suc n) p h = if p == null then some [] else do
  s ← at h p (h.name p)
  c ← get_next p h
  rest ← write_tocflist n c h
  some (name_line s ++ rest)

-- FreeList's loop
unfoldable pub free_list : ℕ → Ptr → Heap → Option Heap
free_list zero p h = none
free_list (suc n) p h =
    if p == null then some h else do c ← get_next p h; h₁ ← free_node p h; free_list n c h₁
