-- ===== src/Cflbuild/Editor.antt =====
-- soft/cmd/cflbuild: what the commands do once the numbers are known, on the list and on the file.
pub mod Save
pub mod Changes
pub mod Sorts
pub mod Names
use mnetsoft.Base.{
  length, ℕ, zero, suc, Bool, true, false, Option, none, some, ◌==◌, if◌then◌else◌, [],
}
use mnetsoft.Base.Text.{Text, strlcpy}
use mnetsoft.Cflbuild.Heap.{Ptr, null, Heap, get_next, set_name, ◌>>=◌}
use mnetsoft.Cflbuild.Walks.{find, shuffle, write_tocflist, write_to_buffers}
use mnetsoft.Cflbuild.Links.Unlink.{delete_node}
use mnetsoft.Cflbuild.Links.Insert.{insert}
use mnetsoft.Cflbuild.Links.Swap.{swap_nodes}
use mnetsoft.Cflbuild.Sort.{sort_nodes}

-- The list, from the node Conf on, and the text of the file .cflist.
pub record Editor : Type 0 where
  pub heap : Heap
  pub file : Text

-- `n` is the fuel of each loop.
module _ (n : ℕ) (conf : Ptr) where
  -- WriteTocflist
  unfoldable pub write_file : Heap → Option Editor
  write_file h = do
    c ← get_next conf h
    f ← write_tocflist n c h
    some (record { heap = h; file = f })

  -- Shuffle, WriteTocflist
  unfoldable pub save : Heap → Option Editor
  save h = do c ← get_next conf h; g ← shuffle n 0 c h; write_file g

  -- Find(num, "Dummy", 0)
  unfoldable pub find_num : ℕ → Heap → Option Ptr
  find_num num h = do c ← get_next conf h; find n false num [] c h

  -- Find(0, name, 1)
  unfoldable pub find_name : Text → Heap → Option Ptr
  find_name name h = do c ← get_next conf h; find n true 0 name c h

  -- Delete, lines 204-219
  unfoldable pub delete : ℕ → Editor → Option Editor
  delete num e = do
    p ← find_num num e.heap
    if p == null then some e else (delete_node p e.heap >>= save)

  -- Move, lines 378-400
  unfoldable pub move : ℕ → ℕ → Editor → Option Editor
  move node1 node2 e = if node1 == node2 then some e else do
    p ← find_num node1 e.heap
    if p == null then some e else do
      q ← find_num node2 e.heap
      if q == null then some e else (insert p q e.heap >>= save)

  -- Swap, lines 563-582
  unfoldable pub swap : ℕ → ℕ → Editor → Option Editor
  swap node1 node2 e = if node1 == node2 then some e else do
    p ← find_num node1 e.heap
    if p == null then some e else do
      q ← find_num node2 e.heap
      if q == null then some e else (swap_nodes p q e.heap >>= save)

  -- SortAll
  unfoldable pub sort_all : Editor → Option Editor
  sort_all e = do
    c ← get_next conf e.heap
    r ← sort_nodes n c false e.heap
    if r.0 then save r.1 else some (record e { heap = r.1 })

  -- Change, lines 404-413, with the node found and the name taken
  unfoldable pub rename : Ptr → Text → Heap → Option Editor
  rename p name h = do g ← set_name p (strlcpy name 200) h; write_file g

  -- Add's WriteToBuffers, Shuffle, WriteTocflist
  unfoldable pub add_name : Text → ℕ → Editor → Option Editor
  add_name name num e = write_to_buffers n conf name num (length name) e.heap >>= save
