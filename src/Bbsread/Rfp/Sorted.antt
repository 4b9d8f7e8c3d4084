-- ===== src/Bbsread/Rfp/Sorted.antt =====
-- What the commands of soft/cmd/bbsread/rfp.c keep: they come to an end, with the participation list
-- in ascending order.
use mnetsoft.Base.{ℕ, ◌≡◌, refl, not, ◌&&◌, ◌||◌, inl, inr, Bool-cases, Option-cases}
use mnetsoft.Base.Int.{ℤ, pos, ltb_ℤ, ◌-ℤ◌}
use mnetsoft.Bbsread.Parse.{minus_one}
use mnetsoft.Bbsread.Part.{last_read, updates}
use mnetsoft.Bbsread.Part.Entries.{IsSorted, apply-IsSorted}
use mnetsoft.Bbsread.Item.{dispitem}
use mnetsoft.Bbsread.Args.{Options}
use mnetsoft.Bbsread.Rfp.{
  World, Reader, Step, passed, stopped, exits, starved, passes, say, page, whoops, update,
  mark_read, request, begun, display_it, Choice, skip, show, show_short, choose, made,
  maybe_display, head_for,
}

-- The step has an end, and leaves the list in ascending order, at the same place of the sum file.
abbrev pub Leaves : (Reader → Type 0) → Step → Type 0
Leaves P (passed r) = P r
Leaves P (stopped r) = P r
Leaves P exits = Unit {0}
Leaves P starved = ⊥

abbrev pub Stays : ℕ → Reader → Type 0
Stays s r = IsSorted r.pfs × (r.sum_item ≡ s)

pub update-Stays :
    (w : World) (resp : ℤ) (s : ℕ) (r : Reader) → Stays s r → Stays s (update w resp r)
update-Stays w resp s r h = elim (Bool-cases r.no_pf) [
  | inl e ↦ rw e h
  | inr e ↦ rw e (apply-IsSorted (updates r.curitem resp (w.clock r.turn)) r.pfs h.0, h.1)
]

mark_read-Stays :
    (w : World) (o : Options) (first last : ℤ) (s : ℕ) (r : Reader)
    → Stays s r
    → Stays s (mark_read w o first last r)
mark_read-Stays w o first last s r h =
    elim (Bool-cases
      (ltb_ℤ r.max_read last && (not o.extracting || not (ltb_ℤ r.max_read first)))) [
        | inl e ↦ rw e (update-Stays w last s r h)
        | inr e ↦ rw e h
      ]

display_it-Stays :
    (w : World) (o : Options) (first last : ℤ) (n s : ℕ) (r : Reader)
    → Stays s r
    → Leaves (Stays s) (passes (display_it w o first last n r))
unfolding display_it
display_it-Stays w o first last n s r h = elim (Bool-cases (w.interrupted r.turn)) [
  | inl e ↦ rw (Leaves, passes, e) h
  | inr e ↦ elim (Option-cases (dispitem (request r first last n) (w.item_file r.curitem))) [
    | inl d ↦ rw (Leaves, passes, e, d) tt
    | inr (x, d) ↦
        rw (Leaves, passes, e, d)
          (mark_read-Stays w o first x.0 s (say (page x.1) (begun first last n r)) h)
  ]
]

made-Stays :
    (w : World) (o : Options) (s : ℕ) (r : Reader) (c : Choice)
    → Stays s r
    → Leaves (Stays s) (made w o r c)
made-Stays w o s r skip h = h
made-Stays w o s r (show from) h = display_it-Stays w o from minus_one (head_for o) s r h
made-Stays w o s r show_short h =
    let r' : Reader = say (whoops r.curitem (r.max_read -ℤ r.max_resp)) r in
    display_it-Stays w o (pos 0) minus_one (head_for o) s
      (record (update w r.max_resp r') { max_read = r.max_resp }) (update-Stays w r.max_resp s r' h)

pub maybe_display-Stays :
    (w : World) (o : Options) (s : ℕ) (r : Reader)
    → Stays s r
    → Leaves (Stays s) (maybe_display w o r)
unfolding maybe_display
maybe_display-Stays w o s r h =
    made-Stays w o s (record r { max_read = (last_read r.curitem r.pfs).0 })
      (choose o (last_read r.curitem r.pfs).0 r.max_resp (last_read r.curitem r.pfs).1) h

abbrev pub Sorted : Step → Type 0
Sorted s = Leaves (λ r. IsSorted r.pfs) s

Stays-Sorted : (s : ℕ) (x : Step) → Leaves (Stays s) x → Sorted x
Stays-Sorted s (passed r) h = h.0
Stays-Sorted s (stopped r) h = h.0
Stays-Sorted s exits h = tt
Stays-Sorted s starved h = elim h [ ]

pub shows-Sorted :
    (w : World) (o : Options) (first last : ℤ) (n : ℕ) (r : Reader)
    → IsSorted r.pfs
    → Sorted (passes (display_it w o first last n r))
shows-Sorted w o first last n r h =
    Stays-Sorted r.sum_item (passes (display_it w o first last n r))
      (display_it-Stays w o first last n r.sum_item r (h, refl))
