-- ===== src/Gateway.antt =====
-- backend/src/runs/runs.gateway.ts and run-socket.registry.ts: the sockets of the namespace
-- /realtime, their rooms and who is present in a run.
pub mod Live
pub mod Histories
pub mod Ghost
use text.Mathlib.Text.{◌==◌ as str_eq}
use runboard.Prelude.{
  ◌==◌, Bool, true, false, not, ◌&&◌, ◌||◌, String, Option, none, some, List, [], ◌∷◌, ◌++◌, any,
  find, keep, map, if◌then◌else◌,
}
use runboard.Schema.{Uuid, Db, User}
use runboard.Exec.{Code, not_found, validation_failed}
use runboard.Prisma.{Prisma}
use runboard.Events.{Room, run_room, org_room}
use runboard.Presence.{Participant, Rooms, join, leave, leave_all, list}
use runboard.Runs.Setup.{is_org_member, assert_readable}

-- `socket.data`
pub record SocketData : Type 0 where
  pub user_id : Uuid
  pub email : String
  pub name : String

-- The sockets that are connected, the rooms that socket.io has put them into, and the presence.
pub record Gateway : Type 0 where
  pub connected : List (String × SocketData)
  pub rooms : List (String × Room)
  pub presence : Rooms

pub data AckResponse : Type 0 where
  accepted : Option (List Participant) → AckResponse
  refused : Code → AckResponse

-- `run:presence.updated`, to the room of the run.
pub record PresenceUpdated : Type 0 where
  pub run_id : Uuid
  pub participants : List Participant

abbrev pub room_eq : Room → Room → Bool
room_eq (run_room a) (run_room b) = a == b
room_eq (org_room a) (org_room b) = a == b
room_eq (run_room a) (org_room b) = false
room_eq (org_room a) (run_room b) = false

abbrev pub is_in : String → Room → String × Room → Bool
is_in socket_id room entry = str_eq entry.0 socket_id && room_eq entry.1 room

-- `socket.join` and `socket.leave`
abbrev pub socket_join : String → Room → Gateway → Gateway
socket_join socket_id room g =
    if any (is_in socket_id room) g.rooms
    then g
    else record g { rooms = g.rooms ++ (socket_id, room) ∷ [] }

abbrev pub socket_leave : String → Room → Gateway → Gateway
socket_leave socket_id room g = record g {
  rooms = keep (λ entry. not (is_in socket_id room entry)) g.rooms;
}

abbrev pub broadcast_presence : Uuid → Gateway → List PresenceUpdated
broadcast_presence run_id g = record { run_id = run_id; participants = list run_id g.presence } ∷ []

abbrev pub broadcast_each : List Uuid → Gateway → List PresenceUpdated
broadcast_each [] g = []
broadcast_each (run_id ∷ run_ids) g = broadcast_presence run_id g ++ broadcast_each run_ids g

-- socket.io takes a socket that is lost out of its rooms; the rest is `handleDisconnect`.
unfoldable pub handle_disconnect : String → Gateway → Gateway × List PresenceUpdated
handle_disconnect socket_id g =
    let (affected, presence) = leave_all socket_id g.presence in
    let g' : Gateway = record {
      connected = keep (λ s. not (str_eq s.0 socket_id)) g.connected;
      rooms = keep (λ entry. not (str_eq entry.0 socket_id)) g.rooms;
      presence = presence;
    } in
    (g', broadcast_each affected g')

module _ (prisma : Prisma) where
  -- `authenticate`: `sub` is the subject of the verified token, `none` if there is no token or it
  -- is refused. Without a user the handshake fails.
  abbrev pub authenticate : Option Uuid → Db → Option SocketData
  authenticate none db = none
  authenticate (some sub) db = elim (prisma.find_one (λ (u : User). u.id == sub) db.users) [
    | none ↦ none
    | some u ↦ some (record { user_id = u.id; email = u.email; name = u.name })
  ]

  abbrev connect_as : String → Option SocketData → Gateway → Gateway
  connect_as socket_id none g = g
  connect_as socket_id (some socket_data) g = record g {
    connected = g.connected ++ (socket_id, socket_data) ∷ [];
  }

  unfoldable pub connect : String → Option Uuid → Db → Gateway → Gateway
  connect socket_id sub db g = connect_as socket_id (authenticate sub db) g

  unfoldable pub on_org_join :
      String → SocketData → Option Uuid → Db → Gateway → AckResponse × Gateway
  on_org_join socket_id socket_data none db g = (refused validation_failed, g)
  on_org_join socket_id socket_data (some org_id) db g =
      if is_org_member prisma org_id socket_data.user_id db
      then (accepted none, socket_join socket_id (org_room org_id) g)
      else (refused not_found, g)

  -- `run:join` waits for the database, and then for the room: `allowed_to_join` is what comes
  -- before the first wait ends, `enter_run` what comes after.
  unfoldable pub allowed_to_join : SocketData → Option Uuid → Option Uuid → Db → Option Code
  allowed_to_join socket_data (some org_id) (some run_id) db =
      if assert_readable prisma org_id run_id socket_data.user_id db then none else some not_found
  allowed_to_join socket_data _ _ db = some validation_failed

abbrev participant_of : SocketData → Participant
participant_of socket_data = record { user_id = socket_data.user_id; name = socket_data.name }

unfoldable pub enter_run :
    String → SocketData → Uuid → Gateway → AckResponse × Gateway × List PresenceUpdated
enter_run socket_id socket_data run_id g =
    let g' = socket_join socket_id (run_room run_id) g in
    let g'' = record g' {
      presence = join run_id socket_id (participant_of socket_data) g'.presence;
    } in
    (accepted (some (list run_id g''.presence)), g'', broadcast_presence run_id g'')

-- `run:join` when nothing happens while it waits.
module _ (prisma : Prisma) where
  abbrev join_if :
      Option Code
      → String
      → SocketData
      → Option Uuid
      → Gateway
      → AckResponse × Gateway × List PresenceUpdated
  join_if (some code) socket_id socket_data run_id g = (refused code, g, [])
  join_if none socket_id socket_data none g = (refused validation_failed, g, [])
  join_if none socket_id socket_data (some run_id) g = enter_run socket_id socket_data run_id g

  unfoldable pub on_run_join :
      String
      → SocketData
      → Option Uuid
      → Option Uuid
      → Db
      → Gateway
      → AckResponse × Gateway × List PresenceUpdated
  on_run_join socket_id socket_data org_id run_id db g =
      join_if (allowed_to_join prisma socket_data org_id run_id db) socket_id socket_data run_id g

unfoldable pub on_org_leave : String → Option Uuid → Gateway → AckResponse × Gateway
on_org_leave socket_id none g = (accepted none, g)
on_org_leave socket_id (some org_id) g = (accepted none, socket_leave socket_id (org_room org_id) g)

unfoldable pub on_run_leave :
    String → Option Uuid → Gateway → AckResponse × Gateway × List PresenceUpdated
on_run_leave socket_id none g = (refused validation_failed, g, [])
on_run_leave socket_id (some run_id) g =
    let g' = socket_leave socket_id (run_room run_id) g in
    let g'' = record g' { presence = leave run_id socket_id g'.presence } in
    (accepted none, g'', broadcast_presence run_id g'')

-- What reaches the gateway. The token of a handshake is given by its verified subject.
pub data Occurrence : Type 0 where
  connects : (socket_id : String) (sub : Option Uuid) → Occurrence
  joins_org leaves_org : (socket_id : String) (org_id : Option Uuid) → Occurrence
  -- A `run:join` for which nothing happens while it waits.
  joins_run : (socket_id : String) (org_id run_id : Option Uuid) → Occurrence
  -- What comes after the wait of a `run:join` that was allowed earlier.
  enters_run : (socket_id : String) → SocketData → (run_id : Uuid) → Occurrence
  leaves_run : (socket_id : String) (run_id : Option Uuid) → Occurrence
  disconnects : (socket_id : String) → Occurrence

abbrev pub socket_of : String → Gateway → Option (String × SocketData)
socket_of socket_id g = find (λ s. str_eq s.0 socket_id) g.connected

-- socket.io hands over the messages and the loss of the sockets that are connected, and only those.
abbrev pub if_connected : Option (String × SocketData) → (SocketData → Gateway) → Gateway → Gateway
if_connected none f g = g
if_connected (some s) f g = f s.1

module _ (prisma : Prisma) where
  -- One occurrence, with nothing else in between, on the database of that moment.
  unfoldable pub handle : Occurrence × Db → Gateway → Gateway
  handle (connects s sub, db) g = connect prisma s sub db g
  handle (joins_org s org_id, db) g =
      if_connected (socket_of s g) (λ d. (on_org_join prisma s d org_id db g).1) g
  handle (leaves_org s org_id, db) g =
      if_connected (socket_of s g) (λ d. (on_org_leave s org_id g).1) g
  handle (joins_run s org_id run_id, db) g =
      if_connected (socket_of s g) (λ d. (on_run_join prisma s d org_id run_id db g).1) g
  handle (enters_run s d run_id, db) g = (enter_run s d run_id g).1
  handle (leaves_run s run_id, db) g =
      if_connected (socket_of s g) (λ d. (on_run_leave s run_id g).1) g
  handle (disconnects s, db) g = if_connected (socket_of s g) (λ d. (handle_disconnect s g).0) g

  unfoldable pub handle_all : List (Occurrence × Db) → Gateway → Gateway
  handle_all [] g = g
  handle_all (o ∷ rest) g = handle_all rest (handle o g)
