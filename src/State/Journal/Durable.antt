-- ===== src/State/Journal/Durable.antt =====
-- What a reader of the journal of internal/state/journal.go sees after an append.
use larri.Prelude.{ℕ, ◌≡◌, refl, ap, false, none, List, [], ◌∷◌, ◌++◌, arith}
use larri.Prelude.Text.{Text}
use larri.State.Journal.{
  Entry, Line, whole, torn, blank, JournalFile, AppendOutcome, synced, write_failed, sync_failed,
  some_bytes, stamp, append, add_line, read_lines, read_journal, entries_for,
}
use mathlib.Core.List.{append-nil}

pub read_lines-append : (ls ms : List Line) → read_lines (ls ++ ms) ≡ read_lines ls ++ read_lines ms
unfolding read_lines
read_lines-append [] ms = refl
read_lines-append (whole e ∷ ls) ms = ap (λ es. e ∷ es) (read_lines-append ls ms)
read_lines-append (torn ∷ ls) ms = read_lines-append ls ms
read_lines-append (blank ∷ ls) ms = read_lines-append ls ms

read_closed : (file : JournalFile) → file.tail ≡ none → read_journal file ≡ read_lines file.lines
unfolding read_journal
read_closed file t = simp t (simp append-nil)

add_line_closed :
    (file : JournalFile) (e : Entry)
    → file.tail ≡ none
    → read_journal (add_line file e) ≡ read_journal file ++ (e ∷ [])
unfolding add_line
add_line_closed file e t =
    rw (read_closed file t, read_closed (add_line file e) refl)
      (simp t (rw (read_lines-append file.lines (whole e ∷ [])) (unfold read_lines in refl)))

-- An append that returns no error to a file that ends in a newline adds its entry, stamped, to what
-- a reader sees, behind all that was there, and the file ends in a newline again.
pub read-append :
    (out : AppendOutcome) (now : ℕ) (file : JournalFile) (e : Entry)
    → file.tail ≡ none
    → (append out now file e).1 ≡ false
    → (read_journal (append out now file e).0 ≡ read_journal file ++ (stamp now e ∷ []))
      × ((append out now file e).0.tail ≡ none)
unfolding append
read-append synced now file e t h = (add_line_closed file (stamp now e) t, unfold add_line in refl)
read-append sync_failed now file e t h = cc
read-append (write_failed c) now file e t h = cc

-- After a write that broke off inside a line, the next append returns no error and its entry is not
-- there for a reader: the two make one line that does not parse.
pub append_after_torn :
    (now later : ℕ) (file : JournalFile) (e f : Entry)
    → file.tail ≡ none
    → let broken = (append (write_failed some_bytes) now file e).0 in
      ((append synced later broken f).1 ≡ false)
      × (read_journal (append synced later broken f).0 ≡ read_journal file)
unfolding append add_line
append_after_torn now later file e f t = (
  refl,
  rw
      (
        read_closed (record { lines = file.lines ++ (torn ∷ []); tail = none }) refl,
        read_closed file t,
      )
      (rw (read_lines-append file.lines (torn ∷ []))
        (unfold read_lines in append-nil (read_lines file.lines))),
)

pub entries_for-append :
    (es fs : List Entry) (id : Text)
    → entries_for (es ++ fs) id ≡ entries_for es id ++ entries_for fs id
unfolding entries_for
entries_for-append [] fs id = refl
entries_for-append (e ∷ es) fs id = ground (arith, entries_for-append es fs id)
