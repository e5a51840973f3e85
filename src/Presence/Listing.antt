-- ===== src/Presence/Listing.antt =====
-- Who `list` names, and what a lost socket leaves.
use text.Mathlib.Text.{◌==◌ as str_eq}
use runboard.Prelude.{
  ◌≡◌, ◌≢◌, refl, ◌∙◌, ◌==◌, Bool, ◌||◌, String, Option, none, some, List, [], ◌∷◌, any, map, All,
  Bool-cases, if◌then◌else◌, eq_of_==, arith, inl, inr, subst,
}
use runboard.Prelude.Keys.{Distinct, Absent}
use runboard.Schema.{Uuid}
use runboard.Presence.{
  Participant, SocketRoom, Rooms, id_eq, map_set, map_get, map_delete, by_user, room_or_new, list,
  leave_all, is_empty,
}

abbrev Entries : Type 0
Entries = List (Uuid × Participant)

abbrev IsKeyed : Entries → Type 0
IsKeyed = All (λ e. e.0 ≡ e.1.user_id)

abbrev pub has_user : Uuid → Participant → Bool
has_user u p = p.user_id == u

map_set-Absent :
    {V : Type 0} (a k : Uuid) (p : V) (es : List (Uuid × V))
    → k ≢ a
    → Absent (λ e. e.0) a es
    → Absent (λ e. e.0) a (map_set id_eq k p es)
map_set-Absent a k p [] ne _ = (ne, tt)
map_set-Absent a k p ((k', p') ∷ es) ne (other, absent) = elim (Bool-cases (k' == k)) [
  | inl same ↦ rw same (other, absent)
  | inr differs ↦ rw differs (other, map_set-Absent a k p es ne absent)
]

pub map_set-Distinct :
    {V : Type 0} (k : Uuid) (p : V) (es : List (Uuid × V))
    → Distinct (λ e. e.0) es
    → Distinct (λ e. e.0) (map_set id_eq k p es)
map_set-Distinct k p [] _ = (tt, tt)
map_set-Distinct k p ((k', p') ∷ es) (absent, distinct) = elim (Bool-cases (k' == k)) [
  | inl same ↦ rw same (absent, distinct)
  | inr differs ↦
      rw differs (map_set-Absent k' k p es (ground arith) absent, map_set-Distinct k p es distinct)
]

map_set-IsKeyed :
    (p : Participant) (es : Entries) → IsKeyed es → IsKeyed (map_set id_eq p.user_id p es)
map_set-IsKeyed p [] _ = (refl, tt)
map_set-IsKeyed p ((k', p') ∷ es) (keyed, rest) = elim (Bool-cases (k' == p.user_id)) [
  | inl same ↦ rw same (eq_of_== k' p.user_id same, rest)
  | inr differs ↦ rw differs (keyed, map_set-IsKeyed p es rest)
]

any-map_set :
    (u k : Uuid) (p : Participant) (es : Entries)
    → any (λ e. e.0 == u) (map_set id_eq k p es) ≡ ((k == u) || any (λ e. e.0 == u) es)
any-map_set u k p [] = ground arith
any-map_set u k p ((k', p') ∷ es) = elim (Bool-cases (k' == k)) [
  | inl same ↦ rw same (ground (arith, eq_of_== k' k same))
  | inr differs ↦ rw differs (ground (arith, any-map_set u k p es))
]

by_user-Distinct :
    (seen : Entries) (room : SocketRoom)
    → Distinct (λ e. e.0) seen
    → Distinct (λ e. e.0) (by_user seen room)
unfolding by_user
by_user-Distinct seen [] h = h
by_user-Distinct seen ((socket_id, p) ∷ room) h =
    by_user-Distinct (map_set id_eq p.user_id p seen) room (map_set-Distinct p.user_id p seen h)

by_user-IsKeyed : (seen : Entries) (room : SocketRoom) → IsKeyed seen → IsKeyed (by_user seen room)
unfolding by_user
by_user-IsKeyed seen [] h = h
by_user-IsKeyed seen ((socket_id, p) ∷ room) h =
    by_user-IsKeyed (map_set id_eq p.user_id p seen) room (map_set-IsKeyed p seen h)

any-by_user :
    (u : Uuid) (seen : Entries) (room : SocketRoom)
    → any (λ e. e.0 == u) (by_user seen room)
      ≡ (any (λ e. e.0 == u) seen || any (λ e. has_user u e.1) room)
unfolding by_user
any-by_user u seen [] = ground arith
any-by_user u seen ((socket_id, p) ∷ room) =
    any-by_user u (map_set id_eq p.user_id p seen) room
    ∙ rw (any-map_set u p.user_id p seen) (ground arith)

-- The values of entries that are keyed by their users.
Absent-values :
    (a : Uuid) (es : Entries)
    → IsKeyed es
    → Absent (λ e. e.0) a es
    → Absent (λ (p : Participant). p.user_id) a (map (λ e. e.1) es)
Absent-values a [] _ _ = tt
Absent-values a ((k, p) ∷ es) (keyed, rest) (ne, absent) =
    ((λ e. ne (keyed ∙ e)), Absent-values a es rest absent)

Distinct-values :
    (es : Entries)
    → IsKeyed es
    → Distinct (λ e. e.0) es
    → Distinct (λ (p : Participant). p.user_id) (map (λ e. e.1) es)
Distinct-values [] _ _ = tt
Distinct-values ((k, p) ∷ es) (keyed, rest) (absent, distinct) = (
  subst (λ a. Absent (λ (q : Participant). q.user_id) a (map (λ e. e.1) es)) keyed
      (Absent-values k es rest absent),
  Distinct-values es rest distinct,
)

any-values :
    (u : Uuid) (es : Entries)
    → IsKeyed es
    → any (has_user u) (map (λ e. e.1) es) ≡ any (λ e. e.0 == u) es
any-values u [] _ = refl
any-values u ((k, p) ∷ es) (keyed, rest) = ground (arith, any-values u es rest, keyed)

abbrev pub room_at : Uuid → Rooms → SocketRoom
room_at run_id rooms = room_or_new (map_get id_eq run_id rooms)

-- `list` names no user twice, however many sockets the user has open, and it names exactly the
-- users that have a socket in the room.
pub list_lem :
    (run_id : Uuid) (rooms : Rooms)
    → Distinct (λ (p : Participant). p.user_id) (list run_id rooms)
      × ((u : Uuid)
          → any (has_user u) (list run_id rooms) ≡ any (λ e. has_user u e.1) (room_at run_id rooms))
unfolding list
list_lem run_id rooms =
    let keyed = by_user-IsKeyed [] (room_at run_id rooms) tt in
    (
      Distinct-values (by_user [] (room_at run_id rooms)) keyed
          (by_user-Distinct [] (room_at run_id rooms) tt),
      λ u.
          any-values u (by_user [] (room_at run_id rooms)) keyed
          ∙ any-by_user u [] (room_at run_id rooms),
    )

-- What a lost socket leaves of a room.
abbrev pub without : String → Option SocketRoom → Option SocketRoom
without socket_id none = none
without socket_id (some room) =
    let room' = map_delete str_eq socket_id room in if is_empty room' then none else some room'

map_get-leave_all-Absent :
    (socket_id : String) (run_id : Uuid) (rooms : Rooms)
    → Absent (λ e. e.0) run_id rooms
    → map_get id_eq run_id (leave_all socket_id rooms).1 ≡ none
unfolding leave_all
map_get-leave_all-Absent socket_id run_id [] _ = refl
map_get-leave_all-Absent socket_id run_id ((r, room) ∷ rooms) (ne, absent) =
    elim (Bool-cases (is_empty (map_delete str_eq socket_id room))) [
      | inl gone ↦ rw gone (map_get-leave_all-Absent socket_id run_id rooms absent)
      | inr stays ↦
          rw stays (ground (arith, map_get-leave_all-Absent socket_id run_id rooms absent, ne))
    ]

-- `leaveAll` takes the socket out of every room and deletes the rooms that this empties, and no
-- other room changes.
pub map_get-leave_all :
    (socket_id : String) (run_id : Uuid) (rooms : Rooms)
    → Distinct (λ e. e.0) rooms
    → map_get id_eq run_id (leave_all socket_id rooms).1
      ≡ without socket_id (map_get id_eq run_id rooms)
unfolding leave_all
map_get-leave_all socket_id run_id [] _ = refl
map_get-leave_all socket_id run_id ((r, room) ∷ rooms) (absent, distinct) =
    elim (Bool-cases (r == run_id)) [
      | inl same ↦ elim (Bool-cases (is_empty (map_delete str_eq socket_id room))) [
        | inl gone ↦
            rw (same, gone)
              (map_get-leave_all-Absent socket_id run_id rooms
                (subst (λ a. Absent (λ e. e.0) a rooms) (eq_of_== r run_id same) absent))
        | inr stays ↦ rw (same, stays) (rw same refl)
      ]
      | inr other ↦ elim (Bool-cases (is_empty (map_delete str_eq socket_id room))) [
        | inl gone ↦ rw (other, gone) (map_get-leave_all socket_id run_id rooms distinct)
        | inr stays ↦
            rw (other, stays) (rw other (map_get-leave_all socket_id run_id rooms distinct))
      ]
    ]
