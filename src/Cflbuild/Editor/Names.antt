-- ===== src/Cflbuild/Editor/Names.antt =====
-- soft/cmd/cflbuild: a name added to a saved list, and the name of a node changed.
use mnetsoft.Base.{
  ℕ, ◌+◌, ◌-◌, ◌≤◌, ◌<◌, ◌≡◌, refl, ◌∙◌, ap, Option, some, List, [], ◌∷◌, ◌++◌, arith, length,
  length-append,
}
use mnetsoft.Base.Text.{Text, strlcpy}
use mnetsoft.Cflbuild.Heap.{Ptr, put}
use mnetsoft.Cflbuild.Links.{IsList, around}
use mnetsoft.Cflbuild.Walks.Appends.{write_to_buffers-Appends}
use mnetsoft.Cflbuild.Walks.Finds.{file_of}
use mnetsoft.Cflbuild.Tokens.File.{take-all}
use mnetsoft.Cflbuild.Editor.{Editor, add_name, rename}
use mnetsoft.Cflbuild.Editor.Save.{Saved, save-Saves, write_file-returns}

-- The command ends without a fault with a list `ps` that is saved, its nodes named by `name`.
pub record Names (n : ℕ) (conf : Ptr) (o : Option Editor) (ps : List Ptr) (name : Ptr → Text)
    : Type 0 where
  pub editor : Editor
  pub returns : o ≡ some editor
  pub saved : Saved n conf editor ps
  pub names : editor.heap.name ≡ name

strlcpy_all : (s : Text) → strlcpy s (length s + 1) ≡ s
strlcpy_all s =
    let e : length s + 1 - 1 ≡ length s = omega arith in rw e (take-all (length s) s (omega arith))

-- In a saved list, with fuel for one node more, Add's work on a name ends without a fault; the list
-- has a new node with that name at its end, is numbered from 0 on and in the file.
pub add_name-Names :
    (n : ℕ) (conf : Ptr) (e : Editor) (ps : List Ptr) (name : Text) (num : ℕ)
    → Saved n conf e ps
    → length ps + 1 < n
    → Names n conf
        (add_name n conf name num e)
        (ps ++ e.heap.top ∷ [])
        (put e.heap.name e.heap.top name)
unfolding add_name
add_name-Names n conf e ps name num s k =
    let a = write_to_buffers-Appends n e.heap conf ps name num (length name) s.room s.list in
    let t =
      save-Saves n conf a.heap (ps ++ e.heap.top ∷ [])
        (omega (arith, k, length-append ps (e.heap.top ∷ []))) a.list in
    record {
      editor = t.editor;
      returns = rw a.returns t.returns;
      saved = t.saved;
      names = t.names ∙ a.names ∙ ap (put e.heap.name e.heap.top) (strlcpy_all name);
    }

-- In a saved list Change of a node's name to one of at most 199 bytes ends without a fault; the list
-- has the same nodes and numbers, and is in the file with the new name.
pub rename-Names :
    (n : ℕ) (conf : Ptr) (e : Editor) (xs : List Ptr) (p : Ptr) (ys : List Ptr) (name : Text)
    → Saved n conf e (xs ++ p ∷ ys)
    → length name ≤ 199
    → Names n conf (rename n conf p name e.heap) (xs ++ p ∷ ys) (put e.heap.name p name)
unfolding rename
rename-Names n conf e xs p ys name s k =
    let a = around conf xs p ys s.list in
    let l = s.list in
    let h = record e.heap { name = put e.heap.name p name } in
    let i : IsList h (conf ∷ (xs ++ p ∷ ys)) = record {
      alive = l.alive;
      fwd = l.fwd;
      bwd = l.bwd;
      separate = l.separate;
      fresh = l.fresh;
    } in
    record {
      editor = record { heap = h; file = file_of h.name (xs ++ p ∷ ys) };
      returns = rw (a.live_here, take-all 199 name k) (write_file-returns i s.room);
      saved = record { list = i; numbers = s.numbers; filed = refl; room = s.room };
      names = refl;
    }
