-- ===== src/Lib.antt =====
-- Models and proofs for programs of M-Net and Grex (the C sources below soft/).
--
-- The bank, soft/apps/bank/bank.c, is below Bank:
-- - Bank.Cells: the file of balances, one cell for each uid (`balance`, `writebalance`, and what
--   `addbalance` and `openaccount` write). Bank.Cells.Accounts reads the file as a map from uids to
--   accounts, Bank.Cells.Totals sums it.
-- - Bank.Trans: the file of transactions (`transaction`, `scantrans`).
-- - Bank.World: the state of a run: both files, the lock files with the times that this process
--   recorded, the clock, what other processes do while this one sleeps, the terminal's input, the
--   global buffers, and the notices printed. A call returns, ends the process, never ends, or
--   writes outside its buffer (`Result`).
-- - Bank.Locks: `setlock`, `unlock`, `done`. The loop of `setlock` takes fuel 12: it sleeps at most
--   five times, and before each of its six opens it removes at most one lock file.
-- - Bank.Ledger: `addbalance`, `openaccount`, `closeaccount`, `transaction`, `scantrans` and
--   `dotrans` on that state, with their locks.
-- - Bank.Teller: `checkme`, `parsetrans`. Bank.Desk: the questions at the terminal, from `getwho`
--   to `dobank`. Bank.Rich: `wealthy`, `listall`. Bank.Bankers: `am_banker`. Bank.Main: `main`.
-- The loops that read the terminal or a file of text take fuel from the length of what is left to
-- read, since each round reads at least one byte or meets the end.
-- A balance is an integer that is wrapped to 64 bits where the code computes with `long`. The
-- password file is two functions of the session. Writes to the files are whole, and the texts that
-- are printed are notices with the values that they show. Signals are not modelled.
--
-- The password hash of Grex, soft/libgrex/grexhash.c, is below Grexhash: Grexhash.antt has
-- `kg_string_to_key`, `kg_bin_to_str`, `kg_str_to_bin`, `kg_pwhash` and `grexhash_r`, and
-- Grexhash.Realm `kg_realmofhost` and `kg_localrealm`. Its loops run over the bytes that they
-- are given. SHA-1 (in the C library), the name of the host, and what the
-- memory of `kg_bin_to_str` holds before it is written are parameters.
--
-- The letter game, soft/games/letter/letter.c, is below Letter:
-- - Letter.Terminal: `readword` and `yes` on the bytes that are typed. Letter.Terminal.Words says
--   what `readword` reads, Letter.Terminal.Rest what both leave.
-- - Letter.Words: `hash_file`, `find_word`, `check_word`, `choose_word`, `show_hist`. The list of
--   guesses is a list. `find_word` without a result is `none`. Letter.Words.Guess and
--   Letter.Words.Targets have the theorems.
-- - Letter.Scores: `save_score` and `show_score`. Letter.Scores.Slots and Letter.Scores.Records are
--   about the first, Letter.Scores.Tally and Letter.Scores.Table about the second. `qsort` is an
--   insertion sort, since no two entries are equal. The average is computed in a `float` of 24 bits,
--   as a number of units of 2 ^ -55, and printed by its tenths, each rounded to the nearest and to
--   even; a total of scores has no bound.
-- - Letter.Main: `main`, with the files, the user and `random` as its surroundings. A loop that
--   reads the terminal has as fuel one more than the bytes that are left to read, since each round
--   reads at least one byte or ends (Letter.Main.Ends). Letter.Main.Runs has the steps of a run.
-- The data file is its bytes, without zero bytes, and an offset a number. The numbers in its header
-- have no sign. Messages are notices with their values; what is shown while a word is typed, the
-- terminal's modes and signals are not modelled.
--
-- The reader of conferences, soft/cmd/bbsread, is below Bbsread:
-- - Bbsread.Parse: `firstin`, `firstout`, `match`, `atolh`, `parse_range`.
--   Bbsread.Parse.Abbreviations says which names a pattern of `match` takes.
-- - Bbsread.Part: the list of what the user has read of each item (pf.c: `last_read`,
--   `update_item`, `reset_item`, `lost_items`); Bbsread.Part.Entries reads it as a map from items
--   to entries. Bbsread.PartFile: `pfread` and `pfwrite`, the text of the list in a file.
-- - Bbsread.Sum: `next_item`, `prev_item`, `items_in` (sum.c), the sum file being the list of its
--   entries.
-- - Bbsread.Item: `dispitem` (readitem.c), line by line, with what it prints; its buffer keeps the
--   bytes behind a short line. Bbsread.Item.Responses says what it returns.
-- - Bbsread.Rfp: the state of a reading, `display_it`, `maybe_display`, `do_pass` and `do_extract`
--   (rfp.c); Bbsread.Rfp.Commands: the other commands and `rfp_command`. The world of a reading is
--   the files of the items, the sum file, the clock, and which displays are interrupted. `do_pass`
--   takes as fuel two more than the items of the sum file: each round leaves one item less ahead
--   (Bbsread.Rfp.Passing). Bbsread.Rfp.Marks and Bbsread.Rfp.Once say what a display does to the
--   participation list.
-- - Bbsread.Main: `main_loop` and `main` (bbsread.c), behind the look at the conference's directory.
--   An entry of the sum file has 24 bytes.
-- - Bbsread.Forget: `main` of forget.c; Bbsread.Forget.Flips says what it does to the file.
-- - Bbsread.Args: the options (arg.c). Where a function ends the program the result is `none`.
-- Item numbers and times are natural numbers, the other numbers of type `int` are integers, which
-- do not overflow. A string has no zero byte. An `ifdef` for YAPP is not taken. The lookup of
-- directories, the pager and other system calls are not modelled.
--
-- The form data of soft/apps/ownu/cgi-decode.c is in Ownu: `load_query`, `getvar`, `firstvar` and
-- `nextvar`. A query is its bytes, the list of entries a list. Where the code reads behind the end of
-- a string the result is `none`. Ownu.RoundTrip encodes a query and decodes it again.
-- Ownu.Wrap has `wrap_text` and `clean_text` of soft/apps/ownu/wnu-getu.c, Ownu.Keys the
-- checks of control keys of soft/apps/ownu/wnu-keys.c (the texts of its explanations are left out).
--
-- The editor of a list of conferences, soft/cmd/cflbuild, is in Cflbuild.
-- - Cflbuild.Heap: the nodes (struct ConfList), a map from addresses for each field; an access to NULL
--   or to a freed node gives `none`. Cflbuild.Chain: what the links of consecutive nodes say.
-- - Cflbuild.Links: the list in the heap, with `Delete`'s links and `Insert` (Unlink, Insert) and
--   `SwapNodes` (Swap; Pair, Swapped and Reversed say what it does). Cflbuild.Sort: the loops of
--   `SortAll`; Rows is the sort on a list of nodes, Refines relates the two.
-- - Cflbuild.Walks: `Find`, `Shuffle`, `WriteToBuffers`, `WriteTocflist`, `FreeList`, `InitList`.
-- - Cflbuild.Tokens: `Isblank`, `ExtractTokens`, `GetString` and the numbers that are read;
--   Cflbuild.Public: `ExtractConfName` and the table of public.txt. Cflbuild.Load: the start of `main`.
-- - Cflbuild.Editor: the commands once their numbers are known, on the list and the text of .cflist;
--   Cflbuild.Commands: the commands with the answers they take, the menus and the loop of `main`.
-- The walks take fuel, which is enough where it is above the number of nodes (each theorem says so);
-- the menus take fuel, each round of them takes a byte of the input at least; public.txt is read for a
-- given number of lines. An allocation gives an address
-- that was not given before. `fflush(stdin)` leaves the input, the file .cflist can be written,
-- and its text is what the last write left. What is shown is not modelled.
--
-- The restricted shell's words are in Resh: `tokenizeq` with `quotedtoken`, `simpletoken` and `unquote`
-- (soft/apps/resh/token.c), and `resh_parse` (resh.c). A token is the string that it is when the loop
-- ends; a look past the end of the line is a fault. The loop's fuel is the length of the line, since each
-- round takes a byte at least (Resh.Fuel). Resh.RoundTrip makes a line of words and takes them again.
--
-- Base holds what the parts share: tests and lists over the native numbers, integers, `long`, and
-- C strings with the library calls that the programs make.
pub mod Base
pub mod Bank
pub mod Grexhash
pub mod Letter
pub mod Bbsread
pub mod Ownu
pub mod Cflbuild
pub mod Resh
