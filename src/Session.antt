-- ===== src/Session.antt =====
-- The user of the session, ui/src/hooks/useSession.ts: the store of the SDK and the copy of its
-- record in the state of the hook. `onChange` calls the hook after each change of the store, and a
-- timer copies the record later. Under the strict mode of React the effect is cleaned up and run
-- again at once. A record is modelled by its id.
pub mod Current
use pb_launcher.Prelude.{
  ℕ, zero, suc, ◌+◌, Text, List, [], ◌∷◌, Bool, true, false, Option, none, some, if◌then◌else◌,
}

-- `pb.authStore`: an expired token leaves the record there and is not valid.
pub record AuthStore : Type 0 where
  pub is_valid : Bool
  pub user_record : Option Text

-- `timers` are those that have not fired, `refreshes` the calls of `authService.refresh`.
pub record Session : Type 0 where
  pub auth_store : AuthStore
  pub user : Option Text
  pub ensure_once : Bool
  pub timers : ℕ
  pub refreshes : ℕ

-- The store changes, be it by a login, a refresh or a logout; a timer fires; the effect runs again.
pub data Event : Type 0 where
  changed : AuthStore → Event
  fired run_again : Event

abbrev pub first_session : AuthStore → Session
first_session store = record {
  auth_store = store;
  user = if store.is_valid then store.user_record else none;
  ensure_once = true;
  timers = 0;
  refreshes = 0;
}

abbrev pub refreshed : Session → Session
refreshed s =
    if s.ensure_once
    then record s {
      refreshes = if s.auth_store.is_valid then s.refreshes + 1 else s.refreshes;
      ensure_once = false;
    }
    else s

unfoldable pub run_effect : Session → Session
run_effect s =
    let t = refreshed s in
    if s.auth_store.is_valid then record t { user = s.auth_store.user_record } else t

-- `setTimeout(() => setUser(pb.authStore.record), 0)`: the record of then is read.
abbrev pub fire : ℕ → Session → Session
fire zero s = s
fire (suc n) s = record s { user = s.auth_store.user_record; timers = n }

unfoldable pub next : Session → Event → Session
next s (changed store) = record s { auth_store = store; timers = s.timers + 1 }
next s fired = fire s.timers s
next s run_again = run_effect s

unfoldable pub run : Session → List Event → Session
run s [] = s
run s (e ∷ es) = run (next s e) es

-- The session of a page that is opened with a store.
abbrev pub opened : AuthStore → Session
opened store = run_effect (first_session store)
