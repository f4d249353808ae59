-- ===== src/Console.antt =====
-- ui/src/pages/internal/components/CLIConsoleModal.tsx: the console of the commands of a service. A
-- line has no time in the model; the message of an error is a parameter.
pub mod Words
pub mod Ready
use pb_launcher.Prelude.{
  ℕ, Text, codes, List, [], ◌∷◌, ◌++◌, Bool, true, false, Option, none, some, text_eq, push_head,
  is_blank, trim, if◌then◌else◌,
}
use pb_launcher.Http.{Outcome, done, thrown, Thrown}

pub data LineType : Type 0 where
  input output error info : LineType

pub record LogLine : Type 0 where
  pub kind : LineType
  pub text : Text

-- The answer, as the code types it.
pub record CliResult : Type 0 where
  pub success : Bool
  pub output : Text

-- `running` is the command that `executeCliCommand` was called with and that has no answer yet,
-- `calls` are all of them.
pub record Console : Type 0 where
  pub command : Text
  pub history : List LogLine
  pub loading : Bool
  pub running : Option (List Text)
  pub calls : List (List Text)

-- `s.split(/\s+/)`; the flag says that the blanks of a separator are being skipped.
unfoldable pub split_blanks : Bool → Text → List Text
split_blanks skipping [] = [] ∷ []
split_blanks skipping (c ∷ s) =
    let parts = split_blanks (is_blank c) s in
    if is_blank c then (if skipping then parts else [] ∷ parts) else push_head c parts

abbrev pub line : LineType → Text → LogLine
line k t = record { kind = k; text = t }

abbrev pub opened : Text → Console
opened service_name = record {
  command = [];
  history =
      line info
        (codes "Conectado a la CLI de la instancia '" ++ (service_name ++ codes "' (PocketBase)."))
      ∷ line info (
          codes
            "Escribe un comando de PocketBase (ej: 'superuser upsert email pass', 'migrate history', 'version') y presiona Enter.")
      ∷ [];
  loading = false;
  running = none;
  calls = [];
}

-- `text || "(Sin salida de texto)"`
abbrev pub or_silent : Text → Text
or_silent [] = codes "(Sin salida de texto)"
or_silent (c ∷ t) = c ∷ t

pub data Event : Type 0 where
  typed : Text → Event
  submit : Event
  answered : Outcome CliResult → Event
  clear : Event

-- `handleSendCommand` up to its `await`.
unfoldable pub handle_send_command : Console → Text → Console
handle_send_command c cmd_text =
    let parts = split_blanks false (trim cmd_text) in
    if text_eq (trim cmd_text) [] then c else record {
      command = [];
      history = c.history ++ line input (codes "./pocketbase " ++ trim cmd_text) ∷ [];
      loading = true;
      running = some parts;
      calls = c.calls ++ parts ∷ [];
    }

module _ (message_of : Thrown → Text) where
  unfoldable pub answer_line : Outcome CliResult → LogLine
  answer_line (done r) = line (if r.success then output else error) (or_silent r.output)
  answer_line (thrown e) = line error (codes "Error de ejecución: " ++ message_of e)

  -- The field is disabled while a command is running; an answer comes for that command only.
  unfoldable pub next : Console → Event → Console
  next c (typed t) = if c.loading then c else record c { command = t }
  next c submit = if c.loading then c else handle_send_command c c.command
  next c (answered r) = elim c.running [
    | none ↦ c
    | some parts ↦ record c {
      history = c.history ++ answer_line r ∷ [];
      loading = false;
      running = none;
    }
  ]
  next c clear = record c { history = line info (codes "Historial limpiado.") ∷ [] }

  unfoldable pub run : Console → List Event → Console
  run c [] = c
  run c (v ∷ vs) = run (next c v) vs
