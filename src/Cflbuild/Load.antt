-- ===== src/Cflbuild/Load.antt =====
-- soft/cmd/cflbuild/cflbuild.c: the start of main, which makes the list of the file's names.
pub mod Loads
use mnetsoft.Base.{ℕ, zero, suc, ◌+◌, ◌-◌, ◌≡◌, Option, none, some, List, [], ◌∷◌, length, map}
use mnetsoft.Base.Text.{Text, fgets}
use mnetsoft.Cflbuild.Heap.{Ptr, Heap, ◌>>=◌}
use mnetsoft.Cflbuild.Links.{IsList}
use mnetsoft.Cflbuild.Walks.{write_to_buffers}
use mnetsoft.Cflbuild.Walks.Shuffles.{counting}
use mnetsoft.Cflbuild.Tokens.{line_tokens}

module _ (n : ℕ) (conf : Ptr) where
  -- The loop of lines 55-59 on a line's tokens; Num and the heap at its end.
  unfoldable pub load_tokens : List Text → ℕ → ℕ → Heap → Option (ℕ × Heap)
  load_tokens [] len num h = some (num, h)
  load_tokens (t ∷ ts) len num h = do
    g ← write_to_buffers n conf t num len h
    load_tokens ts len (num + 1) g

  -- The loop of lines 50-62, on fuel.
  unfoldable pub load_lines : ℕ → Text → ℕ → Heap → Option (ℕ × Heap)
  unfolding load_tokens
  load_lines zero file num h = some (num, h)
  load_lines (suc m) file num h = elim (fgets 128 file) [
    | none ↦ some (num, h)
    | some (line, rest) ↦ (do
      r ← load_tokens (line_tokens line) (length line - 1) num h
      load_lines m rest r.0 r.1)
  ]

  -- The nodes `ps` have these names and the numbers from 0 on; `num` is the next.
  pub record Loaded (o : Option (ℕ × Heap)) (names : List Text) : Type 0 where
    pub next_num : ℕ
    pub heap : Heap
    pub nodes : List Ptr
    pub returns : o ≡ some (next_num, heap)
    pub list : IsList heap (conf ∷ nodes)
    pub named : map heap.name nodes ≡ names
    pub numbered : map heap.num nodes ≡ counting 0 nodes
    pub counted : next_num ≡ length nodes
