-- ===== src/Logs/Export.antt =====
-- `handleExport` of ui/src/pages/internal/details_section/ServiceLogsSection.tsx: the text of the file
-- that is downloaded. The object URL and the anchor are left out.
use pb_launcher.Prelude.{
  ℕ, Text, codes, List, [], ◌∷◌, ◌++◌, false, Option, none, some, ◌==◌, ◌≡◌, ◌≢◌, refl, ap, ◌∙◌,
  All, map, split, join, All-append, split-append, starts_with, drop, arith, if◌then◌else◌,
}
use mathlib.Core.Path.{ap₂}
use pb_launcher.Logs.{Stream, stdout, stderr, ServiceLog}

abbrev pub line_break : ℕ
line_break = 10

abbrev pub upper_stream : Stream → Text
upper_stream stdout = codes "STDOUT"
upper_stream stderr = codes "STDERR"

abbrev pub export_line : ServiceLog → Text
export_line l = codes "[" ++ (upper_stream l.stream ++ (codes "] " ++ l.message))

-- All logs, not the filtered ones.
unfoldable pub export_text : List ServiceLog → Text
export_text logs = join (map export_line logs) line_break

pub record Download : Type 0 where
  pub name : Text
  pub text : Text

unfoldable pub handle_export : Text → List ServiceLog → Download
handle_export service_id logs = record {
  name = codes "logs-" ++ (service_id ++ codes ".txt");
  text = export_text logs;
}

-- A reader of one line, by its nine characters of heading.
abbrev pub read_line : Text → Option (Stream × Text)
read_line t =
    if starts_with t (codes "[STDOUT] ")
    then some (stdout, drop 9 t)
    else (if starts_with t (codes "[STDERR] ") then some (stderr, drop 9 t) else none)

abbrev pub IsLine : Text → Type 0
IsLine t = All (λ c. c ≢ line_break) t

one_line : (t : Text) → IsLine t → split t line_break ≡ t ∷ []
one_line [] h = refl
one_line (c ∷ t) h = rw (differs c h.0, one_line t h.1)
  where
    differs : (c : ℕ) → c ≢ line_break → (c == line_break) ≡ false
    differs c h = ground arith

abbrev heading : Stream → Text
heading s = codes "[" ++ (upper_stream s ++ codes "] ")

heading-IsLine : (s : Stream) → IsLine (heading s)
heading-IsLine stdout = omega arith
heading-IsLine stderr = omega arith

headed-IsLine :
    (s : Stream) (m : Text) → IsLine m → IsLine (codes "[" ++ (upper_stream s ++ (codes "] " ++ m)))
headed-IsLine stdout m h =
    All-append (λ (c : ℕ). c ≢ line_break) (heading stdout) m (heading-IsLine stdout) h
headed-IsLine stderr m h =
    All-append (λ (c : ℕ). c ≢ line_break) (heading stderr) m (heading-IsLine stderr) h

export_line-IsLine : (l : ServiceLog) → IsLine l.message → IsLine (export_line l)
export_line-IsLine l h = headed-IsLine l.stream l.message h

read_heading :
    (s : Stream) (m : Text)
    → read_line (codes "[" ++ (upper_stream s ++ (codes "] " ++ m))) ≡ some (s, m)
read_heading stdout m = refl
read_heading stderr m = refl

read_back : (l : ServiceLog) → read_line (export_line l) ≡ some (l.stream, l.message)
read_back l = read_heading l.stream l.message

split_lines :
    (l : ServiceLog) (ls : List ServiceLog)
    → All (λ (m : ServiceLog). IsLine m.message) (l ∷ ls)
    → split (join (map export_line (l ∷ ls)) line_break) line_break ≡ map export_line (l ∷ ls)
split_lines l [] h = one_line (export_line l) (export_line-IsLine l h.0)
split_lines l (m ∷ ls) h =
    split-append line_break (export_line l) (join (map export_line (m ∷ ls)) line_break)
    ∙ ap₂ ◌++◌ (one_line (export_line l) (export_line-IsLine l h.0)) (split_lines m ls h.1)

-- Where no message has a line break, the file that is exported has a line for each log, of every
-- stream, and the streams and the messages of all logs are read back from it.
pub export_text_read :
    (l : ServiceLog) (ls : List ServiceLog)
    → All (λ (m : ServiceLog). IsLine m.message) (l ∷ ls)
    → map read_line (split (export_text (l ∷ ls)) line_break)
      ≡ map (λ (m : ServiceLog). some (m.stream, m.message)) (l ∷ ls)
unfolding export_text
export_text_read l ls h = ap (map read_line) (split_lines l ls h) ∙ all_read (l ∷ ls)
  where
    all_read :
        (ms : List ServiceLog)
        → map read_line (map export_line ms)
          ≡ map (λ (m : ServiceLog). some (m.stream, m.message)) ms
    all_read [] = refl
    all_read (m ∷ ms) = ap₂ ◌∷◌ (read_back m) (all_read ms)
