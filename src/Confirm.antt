-- ===== src/Confirm.antt =====
-- Commands on a service and the question before them: `ConfirmModalProvider` of
-- ui/src/hooks/confirm-modal/provider.tsx, the handlers of ui/src/hooks/useServiceActions.tsx, and
-- `executeCommand` of ui/src/pages/internal/details_section/ServiceLogsSection.tsx. A promise that
-- another one replaced is settled by nobody, so the state holds the last one only.
pub mod Answered
use pb_launcher.Prelude.{◌-◌, Text, codes, List, [], ◌∷◌, ◌++◌, Bool, true, false}
use pb_launcher.Collections.Writes.{Action, stop, start, restart, action_text}

-- A call of a mutation: `executeServiceCommand` or `deleteServiceInstance`.
pub data Sent : Type 0 where
  command : Text → Action → Sent
  deletion : Text → Sent

-- The handlers that ask first: three of the actions, and that of the log section.
pub data Kind : Type 0 where
  handle_stop handle_restart handle_delete : Kind
  log_command : Action → Kind

pub record Asked : Type 0 where
  pub kind : Kind
  pub service_id : Text

-- `${action.charAt(0).toUpperCase()}${action.slice(1)} service`, for an action in lower case
abbrev pub capital : Text → Text
capital [] = []
capital (c ∷ s) = (c - 32) ∷ s

abbrev pub log_title : Action → Text
log_title action = capital (action_text action) ++ codes " service"

abbrev pub log_message : Action → Text
log_message action =
    codes "Are you sure you want to " ++ (action_text action ++ codes " this service?")

abbrev pub title_of : Kind → Text
title_of handle_stop = codes "Detener servicio"
title_of handle_restart = codes "Reiniciar servicio"
title_of handle_delete = codes "Eliminar servicio"
title_of (log_command action) = log_title action

abbrev pub message_of : Kind → Text
message_of handle_stop = codes "¿Seguro que quieres detener este servicio?"
message_of handle_restart = codes "¿Seguro que quieres reiniciar este servicio?"
message_of handle_delete =
    codes "¿Estás seguro? Esta acción es irreversible y eliminará permanentemente la carpeta de "
    ++ codes "datos y base de datos en el servidor."
message_of (log_command action) = log_message action

-- What a handler does behind its `if (ok)`.
abbrev pub sent_of : Asked → Sent
sent_of a = elim a.kind [
  | handle_stop ↦ command a.service_id stop
  | handle_restart ↦ command a.service_id restart
  | handle_delete ↦ deletion a.service_id
  | log_command action ↦ command a.service_id action
]

-- The stored `resolve`: the initial one, which is undefined and which no button can call, that of a promise a handler awaits, or of one that is
-- settled, where another call does nothing.
pub data Resolve : Type 0 where
  initial : Resolve
  waits : Asked → Resolve
  settled : Asked → Resolve

pub record Modal : Type 0 where
  pub is_open : Bool
  pub resolve : Resolve
  pub title : Text
  pub message : Text
  pub sent : List Sent

-- A handler is called, or one of the two buttons.
pub data Click : Type 0 where
  handle_start : Text → Click
  ask : Asked → Click
  handle_confirm : Click
  handle_cancel : Click

-- `executeCommand` of the log section.
abbrev pub execute_command : Text → Action → Click
execute_command service_id start = handle_start service_id
execute_command service_id action =
    ask (record { kind = log_command action; service_id = service_id })

abbrev pub closed_modal : Modal
closed_modal = record {
  is_open = false;
  resolve = initial;
  title = codes "Confirmation";
  message = codes "Are you sure you want to do this?";
  sent = [];
}

-- `resolve(value)`: what is sent, and what becomes of the promise.
abbrev pub sent_by : Resolve → Bool → List Sent
sent_by initial value = []
sent_by (settled a) value = []
sent_by (waits a) true = sent_of a ∷ []
sent_by (waits a) false = []

abbrev pub settle : Resolve → Resolve
settle initial = initial
settle (waits a) = settled a
settle (settled a) = settled a

abbrev pub answer : Modal → Bool → Modal
answer m value = record {
  is_open = false;
  resolve = settle m.resolve;
  title = m.title;
  message = m.message;
  sent = m.sent ++ sent_by m.resolve value;
}

unfoldable pub click : Modal → Click → Modal
click m (handle_start service_id) = record m { sent = m.sent ++ command service_id start ∷ [] }
click m (ask a) = record {
  is_open = true;
  resolve = waits a;
  title = title_of a.kind;
  message = message_of a.kind;
  sent = m.sent;
}
click m handle_confirm = answer m true
click m handle_cancel = answer m false

unfoldable pub clicks : Modal → List Click → Modal
clicks m [] = m
clicks m (c ∷ cs) = clicks (click m c) cs
