-- ===== src/Presence.antt =====
-- backend/src/runs/run-presence.service.ts: who is looking at a run. A Map is a list of entries in
-- the order of their first insertion; a room maps socket ids to participants.
pub mod Listing
pub mod Present
use text.Mathlib.Text.{◌==◌ as str_eq}
use runboard.Prelude.{
  ◌==◌, Bool, true, false, not, String, Option, none, some, List, [], ◌∷◌, any, keep, map,
  if◌then◌else◌,
}
use runboard.Schema.{Uuid}

pub record Participant : Type 0 where
  pub user_id : Uuid
  pub name : String

-- A JavaScript Map whose keys are tested by `same`.
module _ {K V : Type 0} (same : K → K → Bool) where
  abbrev pub map_set : K → V → List (K × V) → List (K × V)
  map_set k v [] = (k, v) ∷ []
  map_set k v ((k', v') ∷ entries) =
      let rest = map_set k v entries in if same k' k then (k', v) ∷ entries else (k', v') ∷ rest

  abbrev pub map_get : K → List (K × V) → Option V
  map_get k [] = none
  map_get k ((k', v') ∷ entries) = if same k' k then some v' else map_get k entries

  abbrev pub map_delete : K → List (K × V) → List (K × V)
  map_delete k entries = keep (λ e. not (same e.0 k)) entries

  abbrev pub map_has : K → List (K × V) → Bool
  map_has k entries = any (λ e. same e.0 k) entries

abbrev pub SocketRoom : Type 0
SocketRoom = List (String × Participant)

abbrev pub Rooms : Type 0
Rooms = List (Uuid × SocketRoom)

abbrev room_or_new : Option SocketRoom → SocketRoom
room_or_new none = []
room_or_new (some room) = room

abbrev pub id_eq : Uuid → Uuid → Bool
id_eq a b = a == b

unfoldable pub join : Uuid → String → Participant → Rooms → Rooms
join run_id socket_id participant rooms =
    map_set id_eq run_id
      (map_set str_eq socket_id participant (room_or_new (map_get id_eq run_id rooms))) rooms

abbrev is_empty : SocketRoom → Bool
is_empty [] = true
is_empty (_ ∷ _) = false

-- What `leave` leaves of a room: an empty one is deleted.
abbrev store_or_delete : Uuid → SocketRoom → Rooms → Rooms
store_or_delete run_id room rooms =
    if is_empty room then map_delete id_eq run_id rooms else map_set id_eq run_id room rooms

leave_room : Uuid → String → Option SocketRoom → Rooms → Rooms
leave_room run_id socket_id none rooms = rooms
leave_room run_id socket_id (some room) rooms =
    store_or_delete run_id (map_delete str_eq socket_id room) rooms

unfoldable pub leave : Uuid → String → Rooms → Rooms
unfolding leave_room
leave run_id socket_id rooms = leave_room run_id socket_id (map_get id_eq run_id rooms) rooms

-- The loop of `leaveAll`, with the list `affected`.
unfoldable pub leave_all : String → Rooms → List Uuid × Rooms
leave_all socket_id [] = ([], [])
leave_all socket_id ((run_id, room) ∷ rooms) =
    let (affected, kept) = leave_all socket_id rooms in
    let room' = map_delete str_eq socket_id room in
    (
      (if map_has str_eq socket_id room then run_id ∷ affected else affected),
      (if is_empty room' then kept else (run_id, room') ∷ kept),
    )

unfoldable pub by_user : List (Uuid × Participant) → SocketRoom → List (Uuid × Participant)
by_user seen [] = seen
by_user seen ((socket_id, participant) ∷ room) =
    by_user (map_set id_eq participant.user_id participant seen) room

unfoldable pub list : Uuid → Rooms → List Participant
unfolding by_user
list run_id rooms = map (λ e. e.1) (by_user [] (room_or_new (map_get id_eq run_id rooms)))
