-- ===== src/Cflbuild/Load/Loads.antt =====
-- soft/cmd/cflbuild/cflbuild.c: the list that main makes has the names of the file.
use mathlib.Core.Path.{subst}
use mathlib.Core.List.{append_assoc, append-nil}
use mnetsoft.Base.{
  ℕ, zero, suc, ◌+◌, ◌-◌, ◌≤◌, ◌<◌, ◌≡◌, refl, sym, ◌∙◌, ap, inl, inr, Bool, true, leb, leb→le,
  List, [], ◌∷◌, ◌++◌, arith, length, length-append, take, map, Bool-cases, Option-cases,
  length-take, length-map,
}
use mnetsoft.Base.Text.{Text, fgets, strlcpy}
use mnetsoft.Cflbuild.Heap.{Ptr, Heap, put}
use mnetsoft.Cflbuild.Chain.{absent, all, put_same, put_other}
use mnetsoft.Cflbuild.Links.{IsList}
use mnetsoft.Cflbuild.Walks.{init_list}
use mnetsoft.Cflbuild.Walks.Appends.{write_to_buffers-Appends, fresh_absent}
use mnetsoft.Cflbuild.Walks.Shuffles.{counting}
use mnetsoft.Cflbuild.Tokens.{
  isblank, skip_separators, token, after_token, extract_tokens, tokens, line_tokens, read_cflist,
}
use mnetsoft.Cflbuild.Tokens.File.{take-all, is_name, read_cflist-file_of}
use mnetsoft.Cflbuild.Editor.{Editor}
use mnetsoft.Cflbuild.Editor.Save.{Saved}
use mnetsoft.Cflbuild.Load.{load_tokens, load_lines, Loaded}

map-put_end {ℓ} :
    {A : Type ℓ} (f : Ptr → A) (t : Ptr) (v : A) (ps : List Ptr)
    → absent t ps ≡ true
    → map (put f t v) (ps ++ t ∷ []) ≡ map f ps ++ v ∷ []
map-put_end f t v [] h = rw (put_same f t v) refl
map-put_end f t v (p ∷ ps) h =
    rw (put_other f t v p (ground arith), map-put_end f t v ps (ground arith)) refl

counting-end :
    (k : ℕ) (t : Ptr) (ps : List Ptr)
    → counting k (ps ++ t ∷ []) ≡ counting k ps ++ (k + length ps) ∷ []
counting-end k t [] = let e : k + 0 ≡ k = omega arith in rw e refl
counting-end k t (p ∷ ps) =
    let e : k + suc (length ps) ≡ (k + 1) + length ps = omega arith in
    rw (e, counting-end (k + 1) t ps) refl

-- A token is no longer than the text.
length-token : (s : Text) → length (token s) ≤ length s
unfolding token
length-token [] = omega arith
length-token (c ∷ cs) = ground (arith, length-token cs)

length-after_token : (s : Text) → length (after_token s) ≤ length s
unfolding after_token
length-after_token [] = omega arith
length-after_token (c ∷ cs) = ground (arith, length-after_token cs)

length-skip_separators : (s : Text) → length (skip_separators s) ≤ length s
unfolding skip_separators
length-skip_separators [] = omega arith
length-skip_separators (c ∷ cs) = ground (arith, length-skip_separators cs)

abbrev short : ℕ → List Text → Bool
short len ts = all (λ t. leb (length t) len) ts

short-tokens : (n len : ℕ) (buf : Text) → length buf ≤ len → short len (tokens n buf) ≡ true
unfolding tokens extract_tokens
short-tokens zero len buf h = refl
short-tokens (suc n) len [] h = refl
short-tokens (suc n) len (c ∷ cs) h =
    let s = skip_separators (c ∷ cs) in
    let a = length-skip_separators (c ∷ cs) in
    let b = length-token s in
    let d = length-after_token s in
    let f = length-skip_separators (after_token s) in
    let g : leb (length (token s)) len ≡ true = ground arith in
    rw g (short-tokens n len (skip_separators (after_token s)) (omega (arith, a, d, f, h)))

short-line_tokens : (line : Text) → short (length line - 1) (line_tokens line) ≡ true
unfolding line_tokens
short-line_tokens line = elim (Bool-cases (isblank line)) [
  | inl e ↦ rw e refl
  | inr e ↦ rw e (
      short-tokens _ (length line - 1) (take (length line - 1) line)
        (omega (arith, length-take (length line - 1) line)))
]

module _ (n : ℕ) (conf : Ptr) where
  load_tokens-Loaded :
      (ts : List Text) (len num : ℕ) (h : Heap) (ps : List Ptr)
      → IsList h (conf ∷ ps)
      → map h.num ps ≡ counting 0 ps
      → num ≡ length ps
      → short len ts ≡ true
      → length ps + length ts < n
      → Loaded n conf (load_tokens n conf ts len num h) (map h.name ps ++ ts)
  unfolding load_tokens
  load_tokens-Loaded [] len num h ps l c e s k = record {
    next_num = num;
    heap = h;
    nodes = ps;
    returns = refl;
    list = l;
    named = sym (append-nil (map h.name ps));
    numbered = c;
    counted = e;
  }
  load_tokens-Loaded (t ∷ ts) len num h ps l c e s k =
      let a = write_to_buffers-Appends n h conf ps t num len (omega (arith, k)) l in
      let o : absent h.top ps ≡ true = fresh_absent h.top ps (ground (arith, l)) in
      let f : strlcpy t (len + 1) ≡ t =
        take-all (len + 1 - 1) t (omega (arith, leb→le (length t) len (ground arith))) in
      let z : 0 + length ps ≡ length ps = omega arith in
      let i : map a.heap.name (ps ++ h.top ∷ []) ≡ map h.name ps ++ t ∷ [] =
        rw (a.names, f) (map-put_end h.name h.top t ps o) in
      let j : map a.heap.num (ps ++ h.top ∷ []) ≡ counting 0 (ps ++ h.top ∷ []) =
        rw (a.nums, map-put_end h.num h.top num ps o, c, counting-end 0 h.top ps, e, z) refl in
      let r =
        load_tokens-Loaded ts len (num + 1) a.heap (ps ++ h.top ∷ []) a.list j
          (omega (arith, e, length-append ps (h.top ∷ []))) (ground arith)
          (omega (arith, k, length-append ps (h.top ∷ []))) in
      record {
        next_num = r.next_num;
        heap = r.heap;
        nodes = r.nodes;
        returns = rw a.returns r.returns;
        list = r.list;
        named = r.named ∙ ap (λ z. z ++ ts) i ∙ append_assoc (map h.name ps) (t ∷ []) ts;
        numbered = r.numbered;
        counted = r.counted;
      }

  load_lines-Loaded :
      (m : ℕ) (file : Text) (num : ℕ) (h : Heap) (ps : List Ptr)
      → IsList h (conf ∷ ps)
      → map h.num ps ≡ counting 0 ps
      → num ≡ length ps
      → length ps + length (read_cflist m file) < n
      → Loaded n conf (load_lines n conf m file num h) (map h.name ps ++ read_cflist m file)
  unfolding load_lines read_cflist
  load_lines-Loaded zero file num h ps l c e k = load_tokens-Loaded [] 0 num h ps l c e refl k
  load_lines-Loaded (suc m) file num h ps l c e k = elim (Option-cases (fgets 128 file)) [
    | inl f ↦
        rw (load_lines, read_cflist, f)
          (load_tokens-Loaded [] 0 num h ps l c e refl (omega (arith, k)))
    | inr ((line, rest), f) ↦
        let ts = line_tokens line in
        let us = read_cflist m rest in
        let k' : length ps + length (ts ++ us) < n = rw (read_cflist, f) at k in
        let b = length-append ts us in
        let r =
          load_tokens-Loaded ts (length line - 1) num h ps l c e (short-line_tokens line)
            (omega (arith, k', b)) in
        let w : length r.nodes ≡ length ps + length ts =
          sym (length-map r.nodes r.heap.name)
          ∙ ap length r.named
          ∙ length-append (map h.name ps) ts
          ∙ ap (λ z. z + length ts) (length-map ps h.name) in
        let u =
          load_lines-Loaded m rest r.next_num r.heap r.nodes r.list r.numbered r.counted
            (omega (arith, k', b, w)) in
        rw (load_lines, read_cflist, f)
          (record {
            next_num = u.next_num;
            heap = u.heap;
            nodes = u.nodes;
            returns = rw r.returns u.returns;
            list = u.list;
            named = u.named ∙ ap (λ z. z ++ us) r.named ∙ append_assoc (map h.name ps) ts us;
            numbered = u.numbered;
            counted = u.counted;
          })
  ]

init_list-IsList : (conf : Ptr) → 0 < conf → IsList (init_list conf) (conf ∷ [])
init_list-IsList conf h = record {
  alive = ground arith;
  fwd = refl;
  bwd = refl;
  separate = ground arith;
  fresh = ground arith;
}

-- main with a file of which it reads, on `m` rounds of fuel, fewer names than it has fuel: from the
-- node that InitList gives it makes, without a fault, a list of these names in their order, numbered
-- from 0 on.
pub load-Loaded :
    (n m : ℕ) (conf : Ptr) (file : Text)
    → 0 < conf
    → length (read_cflist m file) < n
    → Loaded n conf (load_lines n conf m file 0 (init_list conf)) (read_cflist m file)
load-Loaded n m conf file z k =
    load_lines-Loaded n conf m file 0 (init_list conf) [] (init_list-IsList conf z) refl refl
      (omega (arith, k))

-- The file of a saved list whose nodes' names have at least one byte and at most 126, no blank and no
-- comma: main makes of it, without a fault, a list with the same names in their order.
pub reload-Loaded :
    (n m : ℕ) (conf : Ptr) (e : Editor) (ps : List Ptr)
    → Saved n conf e ps
    → 0 < conf
    → all (λ p. is_name (e.heap.name p)) ps ≡ true
    → length ps < m
    → Loaded n conf (load_lines n conf m e.file 0 (init_list conf)) (map e.heap.name ps)
reload-Loaded n m conf e ps s z h k =
    let r : read_cflist m e.file ≡ map e.heap.name ps =
      ap (read_cflist m) s.filed ∙ read_cflist-file_of m e.heap.name ps k h in
    let l : length (read_cflist m e.file) ≡ length ps = ap length r ∙ length-map ps e.heap.name in
    subst (Loaded n conf (load_lines n conf m e.file 0 (init_list conf))) r
      (load-Loaded n m conf e.file z (omega (arith, l, s.room)))
