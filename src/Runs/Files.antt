-- ===== src/Runs/Files.antt =====
-- The operations of FileRunStore on the files of one run: command.json, events.jsonl and
-- result.json, `none` or empty where a file is not there. A crash may leave a part of a line at the
-- end of events.jsonl, so the text behind the last line end is kept apart. The JSON codec of an
-- event and Python's equality of commands and events are parameters; a line of events.jsonl is
-- what lies between two line ends of `splitlines`, of which an encoded event may have some.
use xbotics_hey_robot.Prelude.{
  ℕ, String, Bool, true, false, ◌||◌, Option, none, some, List, [], ◌∷◌, ◌++◌, if◌then◌else◌, leb,
  keep, last?,
}
use xbotics_hey_robot.Prelude.Result.{Result, ok, raise}
use xbotics_hey_robot.Prelude.Text.{strip, truthy_text, concat, splitlines}
use xbotics_hey_robot.Prelude.Value.{Fields}
use xbotics_hey_robot.Skills.Models.{SkillResult, SkillCommand, SkillEvent}
use xbotics_hey_robot.Runs.Artifacts.{ArtifactStore, externalize, matches_externalized}

pub record EventFile : Type 0 where
  pub lines : List String
  pub tail : String

pub record Run : Type 0 where
  pub command : Option SkillCommand
  pub file : EventFile
  pub result : Option SkillResult

abbrev pub new_run : Run
new_run = record { command = none; file = record { lines = []; tail = "" }; result = none }

pub data RunError : Type 0 where
  different_command corrupt not_increasing : RunError

pub record Host : Type 0 where
  pub encode : SkillEvent → String
  pub decode : String → Option SkillEvent
  pub same_event : SkillEvent → SkillEvent → Bool
  pub same_command : SkillCommand → SkillCommand → Bool
  pub artifacts : Option ArtifactStore
  pub encoded_size : Fields → ℕ
  pub inline_limit : ℕ

abbrev pub is_record : String → Bool
is_record line = truthy_text (strip line)

abbrev pub records : EventFile → List String
records f = keep is_record (f.lines ++ f.tail ∷ [])

-- What reading the records finds: the events, their lines, and whether the last one is corrupt.
pub record Scan : Type 0 where
  pub events : List SkillEvent
  pub valid : List String
  pub broken : Bool

abbrev add_record : SkillEvent → String → Result RunError Scan → Result RunError Scan
add_record e line (raise x) = raise x
add_record e line (ok s) = ok (record s { events = e ∷ s.events; valid = line ∷ s.valid })

abbrev corrupt_record : List String → Result RunError Scan
corrupt_record [] = ok (record { events = []; valid = []; broken = true })
corrupt_record (line ∷ rest) = raise corrupt

abbrev pub submission : Run → Option SkillCommand
submission run = run.command

module _ (h : Host) where
  unfoldable pub scan : List String → Result RunError Scan
  scan [] = ok (record { events = []; valid = []; broken = false })
  scan (line ∷ rest) =
      let later = scan rest in
      elim (h.decode line) [ some e ↦ add_record e line later | none ↦ corrupt_record rest ]

  abbrev pub repaired : Scan → EventFile → EventFile
  repaired s f = if s.broken then record { lines = s.valid; tail = "" } else f

  -- `events`
  unfoldable pub events : Run → Result RunError (List SkillEvent)
  events run = elim (scan (records run.file)) [ raise x ↦ raise x | ok s ↦ ok s.events ]

  unfoldable pub latest_event : Run → Result RunError (Option SkillEvent)
  latest_event run = elim (scan (records run.file)) [
    | raise x ↦ raise x
    | ok s ↦ ok (last? s.events)
  ]

  -- The lines that the file has more once a text and a line feed are written to it.
  unfoldable pub appended_line : String → EventFile → EventFile
  unfolding splitlines
  appended_line line f = record {
    lines = f.lines ++ splitlines (concat f.tail (concat line "\n"));
    tail = "";
  }

  abbrev pub externalized : SkillEvent → SkillEvent
  externalized e = externalize h.artifacts h.encoded_size h.inline_limit e

  -- `write_result`, where the event has a result.
  abbrev pub new_result : Option SkillResult → Option SkillResult → Option SkillResult
  new_result none old = old
  new_result (some r) old = some r

  abbrev pub write_event : SkillEvent → Run → Result RunError SkillEvent × Run
  write_event e run = (
    ok e,
    record run {
      file = appended_line (h.encode e) run.file;
      result = new_result e.result run.result;
    },
  )

  unfoldable pub append_after :
      Option SkillEvent → SkillEvent → Run → Result RunError SkillEvent × Run
  unfolding appended_line
  append_after none e run = write_event (externalized e) run
  append_after (some l) e run =
      if leb e.sequence l.sequence
      then if h.same_event e l || matches_externalized l e
        then (ok l, run)
        else (raise not_increasing, run)
      else write_event (externalized e) run

  unfoldable pub append_event : SkillEvent → Run → Result RunError SkillEvent × Run
  unfolding scan append_after
  append_event e run = elim (scan (records run.file)) [
    | raise x ↦ (raise x, run)
    | ok s ↦ append_after (last? s.events) e (record run { file = repaired s run.file })
  ]

  unfoldable pub record_submission : SkillCommand → Run → Result RunError (Unit {0}) × Run
  record_submission c run = elim run.command [
    | none ↦ (ok tt, record run { command = some c })
    | some old ↦ if h.same_command old c then (ok tt, run) else (raise different_command, run)
  ]
