-- ===== src/State/Journal.antt =====
-- internal/state/journal.go: the append-only record of what was attempted.
-- A line of the file that is not whole JSON, such as the torn tail of a crash, is `torn`; the JSON
-- encoding itself is encoding/json's: a line written whole reads back as its entry, and a line that
-- holds more or less than one entry does not parse. `Close` is not modelled.
pub mod Durable
use larri.Prelude.{
  ℕ, ◌==◌, ◌≡◌, Bool, true, false, Option, none, some, List, [], ◌∷◌, ◌++◌, if◌then◌else◌,
}
use larri.Prelude.Text.{Text, text_eq}
use larri.Core.State.{LifecycleState}
use larri.Core.Termination.{Termination}

-- `billed` is the constant RatesBilled: is the entry written under the current rules?
pub record Entry : Type 0 where
  pub at : ℕ
  pub rig_id : Text
  pub from : LifecycleState
  pub to : LifecycleState
  pub note : Text
  pub provider : Text
  pub offer : Text
  pub instance_id : Text
  pub price_hr : ℕ
  pub storage_hr : ℕ
  pub billed : Bool
  pub termination : Option Termination

pub data Line : Type 0 where
  whole : Entry → Line
  torn : Line
  blank : Line

-- The file: its terminated lines, and what stands behind the last newline, if anything does.
pub record JournalFile : Type 0 where
  pub lines : List Line
  pub tail : Option Line

-- How much of a line a failed write left behind: none of its bytes, some, or all but the newline.
pub data Cut : Type 0 where
  nothing some_bytes all_but_newline : Cut

-- How the write and the sync of one line end.
pub data AppendOutcome : Type 0 where
  synced sync_failed : AppendOutcome
  write_failed : Cut → AppendOutcome

-- `if e.At.IsZero() { e.At = time.Now() }`
unfoldable pub stamp : ℕ → Entry → Entry
stamp now e = if e.at == 0 then record e { at = now } else e

-- A whole line behind an unterminated tail joins it into one line that is not JSON.
unfoldable pub add_line : JournalFile → Entry → JournalFile
add_line file e = record {
  lines = file.lines ++ (elim file.tail [ none ↦ whole e | some l ↦ torn ] ∷ []);
  tail = none;
}

unfoldable pub cut_line : Cut → JournalFile → Entry → JournalFile
cut_line nothing file e = file
cut_line some_bytes file e = record file { tail = some torn }
cut_line all_but_newline file e = record file {
  tail = some (elim file.tail [ none ↦ whole e | some l ↦ torn ]);
}

-- The new file, and whether the call returned an error.
unfoldable pub append : AppendOutcome → ℕ → JournalFile → Entry → JournalFile × Bool
unfolding stamp add_line cut_line
append synced now file e = (add_line file (stamp now e), false)
append sync_failed now file e = (add_line file (stamp now e), true)
append (write_failed cut) now file e = (cut_line cut file (stamp now e), true)

unfoldable pub read_lines : List Line → List Entry
read_lines [] = []
read_lines (whole e ∷ ls) = e ∷ read_lines ls
read_lines (torn ∷ ls) = read_lines ls
read_lines (blank ∷ ls) = read_lines ls

-- The scanner gives the unterminated tail as a last line.
unfoldable pub read_journal : JournalFile → List Entry
unfolding read_lines
read_journal file = read_lines (file.lines ++ elim file.tail [ none ↦ [] | some l ↦ l ∷ [] ])

unfoldable pub entries_for : List Entry → Text → List Entry
entries_for [] id = []
entries_for (e ∷ es) id =
    let rest = entries_for es id in if text_eq e.rig_id id then e ∷ rest else rest
