-- ===== src/Cflbuild/Commands/Safe.antt =====
-- soft/cmd/cflbuild: Delete, Move and SortAll keep a saved list saved, whatever the answers are.
use mathlib.Core.Path.{subst}
use mathlib.Core.List.{append_assoc}
use mnetsoft.Base.{
  ℕ, zero, suc, ◌+◌, ◌≤◌, ◌<◌, ◌≡◌, refl, ap, inl, inr, true, ◌||◌, Option, some, ◌==◌, List, [],
  ◌∷◌, ◌++◌, arith, length, length-append, Bool-cases, Option-cases, ltb, ltb→lt, ◌-◌,
}
use mnetsoft.Base.Text.{Text}
use mnetsoft.Cflbuild.Heap.{Ptr, null, Heap}
use mnetsoft.Cflbuild.Editor.{Editor, delete, move, sort_all}
use mnetsoft.Cflbuild.Editor.Save.{Saved, Saves, find_num-number, find_num-none}
use mnetsoft.Cflbuild.Editor.Changes.{delete-Saves, delete-none, move-Saves}
use mnetsoft.Cflbuild.Editor.Sorts.{sort_all-SortsAll}
use mnetsoft.Cflbuild.Tokens.{isblank, get_string, atoi}
use mnetsoft.Cflbuild.Commands.{
  Outcome, done, ended, fault, prompt, ask, starts_q, fallible, delete_command, move_command,
  sort_all_command,
}

-- The list of the editor is saved.
abbrev pub Good : ℕ → Ptr → Editor → Type 0
Good n conf e = (ps : List Ptr) × Saved n conf e ps

-- No fault, and the list is saved, also where the program ends.
abbrev pub Keeps : ℕ → Ptr → Outcome → Type 0
Keeps n conf (done e rest) = Good n conf e
Keeps n conf (ended e) = Good n conf e
Keeps n conf fault = ⊥

-- A place in the list, or none.
data Place (i : ℕ) (ps : List Ptr) : Type 0 where
  inside :
      (xs : List Ptr) (p : Ptr) (ys : List Ptr) → ps ≡ xs ++ p ∷ ys → i ≡ length xs → Place i ps
  behind : length ps ≤ i → Place i ps

place : (i : ℕ) (ps : List Ptr) → Place i ps
place i [] = behind (omega arith)
place zero (p ∷ ps) = inside [] p ps refl refl
place (suc i) (p ∷ ps) = next (place i ps)
  where
    next : Place i ps → Place (suc i) (p ∷ ps)
    next (inside xs q ys e f) = inside (p ∷ xs) q ys (ap (λ zs. p ∷ zs) e) (ap suc f)
    next (behind b) = behind (omega (arith, b))

-- The core of a command gives an editor whose list is saved.
abbrev Done : ℕ → Ptr → Option Editor → Type 0
Done n conf o = (e : Editor) × ((o ≡ some e) × Good n conf e)

Saves-Done :
    {n : ℕ} {conf : Ptr} {h : Heap} {o : Option Editor} {ps : List Ptr}
    → Saves n conf h o ps
    → Done n conf o
Saves-Done {ps} t = (t.editor, (t.returns, (ps, t.saved)))

delete-Done :
    (n : ℕ) (conf : Ptr) (num : ℕ) (e : Editor) → Good n conf e → Done n conf (delete n conf num e)
delete-Done n conf num e (ps, s) = at_place (place num ps)
  where
    at_place : Place num ps → Done n conf (delete n conf num e)
    at_place (behind b) = (e, (delete-none n conf e ps num s b, (ps, s)))
    at_place (inside xs p ys f k) =
        rw k (Saves-Done (delete-Saves n conf e xs p ys (subst (λ zs. Saved n conf e zs) f s)))

-- Move where a number is no node's, or both are the same.
move-unknown :
    (n : ℕ) (conf : Ptr) (i j : ℕ) (e : Editor) (ps : List Ptr)
    → Saved n conf e ps
    → length ps ≤ i
    → move n conf i j e ≡ some e
unfolding move
move-unknown n conf i j e ps s b = elim (Bool-cases (i == j)) [
  | inl k ↦ rw k refl
  | inr k ↦ rw (k, find_num-none ps i s b) refl
]

move-nowhere :
    (n : ℕ) (conf : Ptr) (j : ℕ) (e : Editor) (xs : List Ptr) (p : Ptr) (ys : List Ptr)
    → Saved n conf e (xs ++ p ∷ ys)
    → length (xs ++ p ∷ ys) ≤ j
    → move n conf (length xs) j e ≡ some e
unfolding move
move-nowhere n conf j e xs p ys s b = elim (Bool-cases (length xs == j)) [
  | inl k ↦ rw k refl
  | inr k ↦ elim (Bool-cases (p == null)) [
    | inl z ↦ rw (k, find_num-number xs p ys s, z) refl
    | inr z ↦ rw (k, find_num-number xs p ys s, z, find_num-none (xs ++ p ∷ ys) j s b) refl
  ]
]

move-same : (n : ℕ) (conf : Ptr) (i : ℕ) (e : Editor) → move n conf i i e ≡ some e
unfolding move
move-same n conf i e = let k : (i == i) ≡ true = ground arith in rw k refl

-- Two places in the list.
data Order (i j : ℕ) : Type 0 where
  before : (k : ℕ) → j ≡ i + suc k → Order i j
  same : i ≡ j → Order i j
  after : j < i → Order i j

order : (i j : ℕ) → Order i j
order i j = elim (Bool-cases (ltb i j)) [
  | inl a ↦ before (j - i - 1) (omega (arith, ltb→lt i j a))
  | inr a ↦ elim (Bool-cases (i == j)) [
    | inl b ↦ same (ground arith)
    | inr b ↦ after (ground arith)
  ]
]

move-forward :
    (n : ℕ) (conf : Ptr) (e : Editor) (xs : List Ptr) (p : Ptr) (ys : List Ptr) (m : ℕ)
    → Saved n conf e (xs ++ p ∷ ys)
    → Place m ys
    → Done n conf (move n conf (length xs) (length xs + suc m) e)
move-forward n conf e xs p ys m s (behind b) = (
  e,
  (
    move-nowhere n conf (length xs + suc m) e xs p ys s
        (omega (arith, b, length-append xs (p ∷ ys))),
    (xs ++ p ∷ ys, s),
  ),
)
move-forward n conf e xs p ys m s (inside ms q ws f h) =
    let l : length xs + suc m ≡ length (xs ++ p ∷ ms) =
      omega (arith, h, length-append xs (p ∷ ms)) in
    let t = subst (λ zs. Saved n conf e (xs ++ p ∷ zs)) f s in
    rw l (Saves-Done ((move-Saves n conf e xs p ms q ws t).0))

move-back :
    (n : ℕ) (conf : Ptr) (e : Editor) (xs : List Ptr) (p : Ptr) (ys : List Ptr) (j : ℕ)
    → Saved n conf e (xs ++ p ∷ ys)
    → j < length xs
    → Place j xs
    → Done n conf (move n conf (length xs) j e)
move-back n conf e xs p ys j s b (behind c) = absurd (omega (arith, b, c))
move-back n conf e xs p ys j s b (inside zs q ms f h) =
    let t = subst (λ us. Saved n conf e (us ++ p ∷ ys)) f s in
    let u = subst (λ us. Saved n conf e us) (append_assoc zs (q ∷ ms) (p ∷ ys)) t in
    rw (f, h) (Saves-Done ((move-Saves n conf e zs q ms p ys u).1))

move-Done :
    (n : ℕ) (conf : Ptr) (i j : ℕ) (e : Editor) → Good n conf e → Done n conf (move n conf i j e)
move-Done n conf i j e (ps, s) = from (place i ps)
  where
    stays : move n conf i j e ≡ some e → Done n conf (move n conf i j e)
    stays h = (e, (h, (ps, s)))

    from : Place i ps → Done n conf (move n conf i j e)
    from (behind b) = stays (move-unknown n conf i j e ps s b)
    from (inside xs p ys f k) = elim (order i j) [
      | same h ↦ rw h (e, (move-same n conf j e, (ps, s)))
      | before m h ↦
          let t =
            move-forward n conf e xs p ys m (subst (λ zs. Saved n conf e zs) f s) (place m ys) in
          rw (h, k) t
      | after h ↦
          let t =
            move-back n conf e xs p ys j (subst (λ zs. Saved n conf e zs) f s) (omega (arith, h, k))
              (place j xs) in
          rw k t
    ]

-- A prompt and what follows it.
ask-Keeps :
    (n : ℕ) (conf : Ptr) (room : ℕ) (e : Editor) (input : Text) (k : Text → Text → Outcome)
    → Good n conf e
    → ((s rest : Text) → Keeps n conf (k s rest))
    → Keeps n conf (ask room e input k)
unfolding ask prompt
ask-Keeps n conf room e input k g h = elim (Option-cases (get_string room input)) [
  | inl a ↦ rw (Keeps, ask, a) g
  | inr ((s, rest), a) ↦ elim (Bool-cases (starts_q s || isblank s)) [
    | inl b ↦ rw (Keeps, ask, a, b) g
    | inr b ↦ rw (Keeps, ask, a, b) (h s rest)
  ]
]

fallible-Keeps :
    (n : ℕ) (conf : Ptr) (o : Option Editor) (rest : Text)
    → Done n conf o
    → Keeps n conf (fallible o (λ e. done e rest))
unfolding fallible
fallible-Keeps n conf o rest (e, (h, g)) = rw h g

-- Where the list is saved, Delete, Move and SortAll do not fault whatever the input is, and the list
-- is saved when they are back and when the program ends in one of their prompts.
pub command-Keeps :
    (n : ℕ) (conf : Ptr) (e : Editor) (input : Text)
    → Good n conf e
    → Keeps n conf (delete_command n conf e input)
      × (Keeps n conf (move_command n conf e input)
          × Keeps n conf (sort_all_command n conf e input))
unfolding delete_command move_command sort_all_command
command-Keeps n conf e input (ps, s) =
    let g : Good n conf e = (ps, s) in
    (
      ask-Keeps n conf 5 e input (λ t rest. fallible (delete n conf (atoi t) e) λ e'. done e' rest)
          g
          (λ t rest.
            fallible-Keeps n conf (delete n conf (atoi t) e) rest
              (delete-Done n conf (atoi t) e g)),
      (
        ask-Keeps n conf 5 e input
            (λ t rest.
              ask 5 e rest
                λ u rest'. fallible (move n conf (atoi t) (atoi u) e) λ e'. done e' rest')
            g
            (λ t rest.
              ask-Keeps n conf 5 e rest
                (λ u rest'. fallible (move n conf (atoi t) (atoi u) e) λ e'. done e' rest') g
                (λ u rest'.
                  fallible-Keeps n conf (move n conf (atoi t) (atoi u) e) rest'
                    (move-Done n conf (atoi t) (atoi u) e g))),
        fallible-Keeps n conf (sort_all n conf e) input
            (Saves-Done (sort_all-SortsAll n conf e ps s).saves),
      ),
    )
