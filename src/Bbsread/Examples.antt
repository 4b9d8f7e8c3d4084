-- ===== src/Bbsread/Examples.antt =====
-- The theorems on soft/cmd/bbsread at concrete inputs.
use mnetsoft.Base.{
  ℕ, ◌+◌, ◌≤◌, ◌<◌, ◌≡◌, refl, Bool, true, false, none, some, List, [], ◌∷◌, ◌++◌, map, arith,
  length, if◌then◌else◌, ◌==◌,
}
use mnetsoft.Base.Int.{pos, negsuc, ◌-ℤ◌}
use mnetsoft.Base.Numerals.{decimal, hexadecimal}
use mnetsoft.Base.Text.{Text, codes, fgets, same_text, atol, long_max}
use mnetsoft.Bbsread.Parse.{match, minus_one, firstin}
use mnetsoft.Bbsread.Part.{Pfe, last_read, update_item, run, updates, resets, loses}
use mnetsoft.Bbsread.Part.Entries.{IsSorted, entry, updated, entry-update_item, run-IsSorted}
use mnetsoft.Bbsread.Sum.{Sume, Found, next_item, prev_item}
use mnetsoft.Bbsread.Sum.Items.{NextOf, Lost, next_item-NextOf}
use mnetsoft.Bbsread.Sum.Backwards.{PrevOf, LostBack, prev_item-PrevOf}
use mnetsoft.Bbsread.PartFile.{pfread, pfwrite, pf_line, bfsz}
use mnetsoft.Bbsread.PartFile.RoundTrip.{reopened, IsWritable}
use mnetsoft.Bbsread.PartFile.Whole.{AreWritable, live, pfread-pfwrite}
use mnetsoft.Bbsread.Item.{dispitem, lines_within}
use mnetsoft.Bbsread.Item.Responses.{ends, Ends, IsItemFile, dispitem-Ends}
use mnetsoft.Bbsread.Rfp.{
  World, Reader, Step, passed, stopped, exits, starved, request, display_it, maybe_display,
}
use mnetsoft.Bbsread.Rfp.Sorted.{Sorted}
use mnetsoft.Bbsread.Rfp.Marks.{IsReady, Marked, display_it-Marked}
use mnetsoft.Bbsread.Rfp.Once.{maybe_display-once}
use mnetsoft.Bbsread.Main.{main_loop}
use mnetsoft.Bbsread.Main.Ends.{main_loop-Sorted}
use mnetsoft.Bbsread.Forget.{forget, forget_main}
use mnetsoft.Bbsread.Forget.Flips.{reread, flipped, written_by, forget-flipped}
use mnetsoft.Bbsread.Args.{start_options}

-- Three entries of a participation file; the last item is forgotten.
abbrev pfe : ℕ → ℕ → Bool → Pfe
pfe item resp forgotten = record {
  item_no = item;
  resp_no = pos resp;
  forgotten = forgotten;
  old_resp_no = pos resp;
  date = 700;
  deleted = false;
}

abbrev pfs : List Pfe
pfs = pfe 2 5 false ∷ pfe 4 1 false ∷ pfe 9 3 true ∷ []

pfs-IsSorted : IsSorted pfs
pfs-IsSorted = ((omega arith, (omega arith, tt)), ((omega arith, tt), (tt, tt)))

entry-update_item_example :
    entry 3 (update_item 3 (pos 7) 800 pfs) ≡ some (updated 3 (pos 7) 800 (entry 3 pfs))
entry-update_item_example = entry-update_item 3 (pos 7) 800 3 pfs pfs-IsSorted

run-IsSorted_example : IsSorted (run (updates 3 (pos 7) 800 ∷ loses 3 (pos 8) ∷ resets 4 ∷ []) pfs)
run-IsSorted_example =
    run-IsSorted (updates 3 (pos 7) 800 ∷ loses 3 (pos 8) ∷ resets 4 ∷ []) pfs pfs-IsSorted

-- Item 2 is missing in the sum file.
abbrev sums : List Sume
sums =
    record { resp_no = 4; resp_date = 600 }
    ∷ record { resp_no = 0; resp_date = 0 }
    ∷ record { resp_no = 2; resp_date = 650 }
    ∷ []

next_item-NextOf_example :
    NextOf sums 2 ((next_item sums 2 pfs).0, (next_item sums 2 pfs).1)
    × Lost pfs 2 (next_item sums 2 pfs).0 (next_item sums 2 pfs).2
next_item-NextOf_example = next_item-NextOf sums 2 pfs (omega arith) pfs-IsSorted

prev_item-PrevOf_example :
    (f : Found) × (sum_item : ℕ) × (pfs' : List Pfe) × (prev_item sums 2 pfs
      ≡ some (f, sum_item, pfs'))
    × PrevOf sums 2 (f, sum_item)
    × LostBack pfs 2 f pfs'
prev_item-PrevOf_example = prev_item-PrevOf sums 2 pfs (omega arith) pfs-IsSorted

-- A conference of one item with one response.
abbrev item_body : Text
item_body =
    codes
      ",HTitle\n,R0000\n,U12,ann\n,AAnn\n,D5f00\n,T\nhello\n,E\n,R0000\n,U13,bob\n,ABob\n,D5f10\n,T\nreply\n,E\n"

abbrev item_text : Text
item_text = codes "!<ps02>\n" ++ item_body

abbrev world : World
world = record {
  item_file = λ k. if k == 1 then some item_text else none;
  sums = record { resp_no = 2; resp_date = 600 } ∷ [];
  sum_size = 44;
  clock = λ k. 900 + k;
  interrupted = λ k. false;
}

abbrev reader : Reader
reader = record {
  curitem = 1;
  curresp = pos 2;
  max_resp = pos 1;
  max_read = negsuc 0;
  again_first = pos 0;
  again_last = pos 0;
  again_head = 0;
  sum_item = 2;
  no_pf = false;
  pfs = pfs;
  turn = 0;
  notices = [];
}

item_text-IsItemFile : IsItemFile item_text item_body
unfolding fgets lines_within firstin
item_text-IsItemFile = record { starts = refl; good = refl }

reader-IsReady : IsReady world start_options reader 2
unfolding fgets lines_within
reader-IsReady = record {
  sorted = pfs-IsSorted;
  member = refl;
  reading = refl;
  quiet = refl;
  file = item_text;
  rest = item_body;
  at_item = refl;
  good = item_text-IsItemFile;
  counted = refl;
}

dispitem-Ends_example :
    Ends
      (ends false (lines_within (length item_body) item_body))
      (dispitem (request reader (pos 1) (pos 1) 0) (some item_text))
dispitem-Ends_example =
    dispitem-Ends (request reader (pos 1) (pos 1) 0) item_text item_body refl item_text-IsItemFile

display_it-Marked_example :
    (r' : Reader) × (display_it world start_options (pos 0) (pos 0) 0 reader ≡ some r')
    × Marked world reader 2 r'
    × (r'.curresp ≡ pos 2)
    × (r'.curitem ≡ 1)
    × (r'.max_resp ≡ pos 1)
display_it-Marked_example =
    display_it-Marked world start_options (pos 0) (pos 0) 0 2 reader refl reader-IsReady

maybe_display-once_example :
    (r' : Reader) × (display_it world start_options (pos 0) minus_one 1 reader ≡ some r')
    × (maybe_display world start_options r' ≡ stopped (record r' { max_read = pos 1 }))
unfolding last_read
maybe_display-once_example =
    maybe_display-once world start_options (pos 0) minus_one 1 1 reader refl reader-IsReady refl
      refl refl (omega arith)

main_loop-Sorted_example :
    Sorted (main_loop world start_options (codes "forget\n" ∷ codes "\n" ∷ []) reader)
main_loop-Sorted_example =
    main_loop-Sorted world start_options (codes "forget\n" ∷ codes "\n" ∷ []) reader pfs-IsSorted

abbrev items_of : Step → List ℕ
items_of (passed r) = map (λ pf. pf.item_no) r.pfs
items_of (stopped r) = map (λ pf. pf.item_no) r.pfs
items_of exits = []
items_of starved = []

main_loop_test :
    items_of
      (main_loop world start_options (codes "only 0\n" ∷ codes "forget\n" ∷ codes "\n" ∷ []) reader)
    ≡ 1 ∷ 2 ∷ 4 ∷ 9 ∷ []
unfolding main_loop ◌-ℤ◌ fgets same_text match atol update_item
main_loop_test = refl

abbrev writable :
    (pf : Pfe) (k : ℕ)
    → pf.resp_no ≡ pos k
    → pf.item_no ≤ long_max
    → length (pf_line pf) + 1 < bfsz
    → IsWritable pf
writable pf k c s f = record { responses = k; counted = c; small = s; fits = f }

pfs-AreWritable : AreWritable pfs
unfolding pf_line decimal hexadecimal
pfs-AreWritable = (
  writable (pfe 2 5 false) 5 refl (omega arith) (omega arith),
  (
    writable (pfe 4 1 false) 1 refl (omega arith) (omega arith),
    (writable (pfe 9 3 true) 3 refl (omega arith) (omega arith), tt),
  ),
)

pfread-pfwrite_example :
    pfread (pfwrite (codes "Ann") pfs) ≡ some (codes "Ann", map reopened (live pfs))
pfread-pfwrite_example =
    pfread-pfwrite (codes "Ann") pfs (ground arith) (omega arith) pfs-AreWritable

flipped-AreWritable : AreWritable (update_item 4 minus_one 800 (reread pfs))
unfolding update_item pf_line decimal hexadecimal
flipped-AreWritable = (
  writable (pfe 2 5 false) 5 refl (omega arith) (omega arith),
  (
    writable (pfe 4 1 true) 1 refl (omega arith) (omega arith),
    (writable (pfe 9 3 true) 3 refl (omega arith) (omega arith), tt),
  ),
)

forget-flipped_example :
    (text : Text) × (new : List Pfe) × (written_by
        (forget false (some (pfwrite (codes "Ann") pfs)) (codes "Ann Lee") 4 800)
      ≡ some text)
    × (pfread text ≡ some (codes "Ann", new))
    × ((j : ℕ)
        → last_read j new
          ≡ (if 4 == j then flipped (last_read 4 (reread pfs)) else last_read j (reread pfs)))
forget-flipped_example =
    forget-flipped (codes "Ann") (codes "Ann Lee") pfs 4 800 false (ground arith) (omega arith)
      pfs-AreWritable pfs-IsSorted flipped-AreWritable

forget_main_test :
    written_by
      (forget_main (codes "-c" ∷ codes "test" ∷ codes "4" ∷ []) (λ k. true) none (codes "Ann") 800)
    ≡ some (codes "!<pr03>\nAnn\n4 -0 0\n")
unfolding forget_main atol decimal hexadecimal
forget_main_test = refl
