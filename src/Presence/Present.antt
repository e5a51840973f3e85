-- ===== src/Presence/Present.antt =====
-- Who is present in a run.
use text.Mathlib.Text.{◌==◌ as str_eq}
use text.Mathlib.TextEquality.{eq_iff}
use runboard.Prelude.{
  ◌==◌, ◌≡◌, refl, sym, ap, ◌∙◌, Bool, not, ◌&&◌, ◌||◌, String, Option, none, some, List, [], ◌∷◌,
  if◌then◌else◌, Bool-cases, Option-cases, inl, inr, arith, eq_of_==,
}
use runboard.Prelude.Keys.{Absent, Distinct, Distinct-keep}
use runboard.Schema.{Uuid}
use runboard.Presence.{
  Participant, SocketRoom, Rooms, id_eq, map_set, map_get, map_delete, map_has, join, leave,
  leave_all, leave_room, room_or_new, is_empty, store_or_delete,
}
use runboard.Presence.Listing.{room_at, map_set-Distinct, map_get-leave_all, without}

module _ {V : Type 0} where
  map_get-map_set :
      (r k : Uuid) (v : V) (es : List (Uuid × V))
      → map_get id_eq r (map_set id_eq k v es) ≡ (if k == r then some v else map_get id_eq r es)
  map_get-map_set r k v [] = refl
  map_get-map_set r k v ((k', v') ∷ es) = elim (Bool-cases (k' == k)) [
    | inl same ↦ rw same (ground (arith, eq_of_== k' k same))
    | inr differs ↦ rw differs (ground (arith, map_get-map_set r k v es))
  ]

  map_get-map_delete :
      (r k : Uuid) (es : List (Uuid × V))
      → map_get id_eq r (map_delete id_eq k es) ≡ (if k == r then none else map_get id_eq r es)
  map_get-map_delete r k [] = ground arith
  map_get-map_delete r k ((k', v') ∷ es) = elim (Bool-cases (k' == k)) [
    | inl same ↦ rw same (ground (arith, map_get-map_delete r k es, eq_of_== k' k same))
    | inr differs ↦ rw differs (ground (arith, map_get-map_delete r k es))
  ]

  map_has-map_set :
      (s k : String) (v : V) (es : List (String × V))
      → map_has str_eq s (map_set str_eq k v es) ≡ (str_eq k s || map_has str_eq s es)
  map_has-map_set s k v [] = ground arith
  map_has-map_set s k v ((k', v') ∷ es) =
      ground (arith, map_has-map_set s k v es, eq_iff k s, eq_iff k' k, eq_iff k' s)

  map_has-map_delete :
      (s k : String) (es : List (String × V))
      → map_has str_eq s (map_delete str_eq k es) ≡ (map_has str_eq s es && not (str_eq k s))
  map_has-map_delete s k [] = refl
  map_has-map_delete s k ((k', v') ∷ es) =
      ground (arith, map_has-map_delete s k es, eq_iff k s, eq_iff k' k, eq_iff k' s)

-- The socket is present in the run.
abbrev pub present : Uuid → String → Rooms → Bool
present run_id socket_id rooms = map_has str_eq socket_id (room_at run_id rooms)

pub present-join :
    (r run_id : Uuid) (s socket_id : String) (p : Participant) (rooms : Rooms)
    → present r s (join run_id socket_id p rooms)
      ≡ ((run_id == r && str_eq socket_id s) || present r s rooms)
unfolding join
present-join r run_id s socket_id p rooms =
    let room = map_set str_eq socket_id p (room_at run_id rooms) in
    ap (λ o. map_has str_eq s (room_or_new o)) (map_get-map_set r run_id room rooms)
    ∙ elim (Bool-cases (run_id == r)) [
      | inl same ↦ rw same (
          map_has-map_set s socket_id p (room_at run_id rooms)
          ∙ ap (λ k. str_eq socket_id s || present k s rooms) (eq_of_== run_id r same))
      | inr other ↦ rw other refl
    ]

-- What `leave` leaves of the run's own room.
stored :
    (r run_id : Uuid) (s : String) (room : SocketRoom) (rooms : Rooms)
    → map_has str_eq s (room_or_new (map_get id_eq r (store_or_delete run_id room rooms)))
      ≡ (if run_id == r then map_has str_eq s room else present r s rooms)
stored r run_id s [] rooms =
    ap (λ o. map_has str_eq s (room_or_new o)) (map_get-map_delete r run_id rooms) ∙ ground arith
stored r run_id s (e ∷ room) rooms =
    ap (λ o. map_has str_eq s (room_or_new o)) (map_get-map_set r run_id (e ∷ room) rooms)
    ∙ ground arith

pub present-leave :
    (r run_id : Uuid) (s socket_id : String) (rooms : Rooms)
    → present r s (leave run_id socket_id rooms)
      ≡ (present r s rooms && not (run_id == r && str_eq socket_id s))
unfolding leave leave_room
present-leave r run_id s socket_id rooms = elim (Option-cases (map_get id_eq run_id rooms)) [
  | inl missing ↦ elim (Bool-cases (run_id == r)) [
    | inl same ↦
        let e : map_get id_eq r rooms ≡ none =
          ap (λ k. map_get id_eq k rooms) (sym (eq_of_== run_id r same)) ∙ missing in
        rw (missing, e) refl
    | inr other ↦ rw missing (rw other (ground arith))
  ]
  | inr (room, found) ↦ elim (Bool-cases (run_id == r)) [
    | inl same ↦
        let e : map_get id_eq r rooms ≡ some room =
          ap (λ k. map_get id_eq k rooms) (sym (eq_of_== run_id r same)) ∙ found in
        rw found (
          stored r run_id s (map_delete str_eq socket_id room) rooms
          ∙ rw (same, e) (map_has-map_delete s socket_id room))
    | inr other ↦
        rw found
          (stored r run_id s (map_delete str_eq socket_id room) rooms ∙ rw other (ground arith))
  ]
]

emptied :
    (s : String) (room : SocketRoom)
    → map_has str_eq s (room_or_new (if is_empty room then none else some room))
      ≡ map_has str_eq s room
emptied s [] = refl
emptied s (e ∷ room) = refl

pub present-leave_all :
    (r : Uuid) (s socket_id : String) (rooms : Rooms)
    → Distinct (λ e. e.0) rooms
    → present r s (leave_all socket_id rooms).1 ≡ (present r s rooms && not (str_eq socket_id s))
present-leave_all r s socket_id rooms distinct =
    ap (λ o. map_has str_eq s (room_or_new o)) (map_get-leave_all socket_id r rooms distinct)
    ∙ go (map_get id_eq r rooms)
  where
    go :
        (o : Option SocketRoom)
        → map_has str_eq s (room_or_new (without socket_id o))
          ≡ (map_has str_eq s (room_or_new o) && not (str_eq socket_id s))
    go none = refl
    go (some room) =
        emptied s (map_delete str_eq socket_id room) ∙ map_has-map_delete s socket_id room

pub Distinct-join :
    (run_id : Uuid) (socket_id : String) (p : Participant) (rooms : Rooms)
    → Distinct (λ e. e.0) rooms
    → Distinct (λ e. e.0) (join run_id socket_id p rooms)
unfolding join
Distinct-join run_id socket_id p rooms h = map_set-Distinct run_id _ rooms h

Distinct-stored :
    (run_id : Uuid) (room : SocketRoom) (rooms : Rooms)
    → Distinct (λ e. e.0) rooms
    → Distinct (λ e. e.0) (store_or_delete run_id room rooms)
Distinct-stored run_id [] rooms h = Distinct-keep (λ e. e.0) (λ e. not (e.0 == run_id)) rooms h
Distinct-stored run_id (e ∷ room) rooms h = map_set-Distinct run_id (e ∷ room) rooms h

pub Distinct-leave :
    (run_id : Uuid) (socket_id : String) (rooms : Rooms)
    → Distinct (λ e. e.0) rooms
    → Distinct (λ e. e.0) (leave run_id socket_id rooms)
unfolding leave leave_room
Distinct-leave run_id socket_id rooms h = elim (Option-cases (map_get id_eq run_id rooms)) [
  | inl missing ↦ rw missing h
  | inr (room, found) ↦ rw found (Distinct-stored run_id (map_delete str_eq socket_id room) rooms h)
]

Absent-leave_all :
    (k : Uuid) (socket_id : String) (rooms : Rooms)
    → Absent (λ e. e.0) k rooms
    → Absent (λ e. e.0) k (leave_all socket_id rooms).1
unfolding leave_all
Absent-leave_all k socket_id [] _ = tt
Absent-leave_all k socket_id ((r, room) ∷ rooms) (ne, absent) =
    elim (Bool-cases (is_empty (map_delete str_eq socket_id room))) [
      | inl gone ↦ rw gone (Absent-leave_all k socket_id rooms absent)
      | inr stays ↦ rw stays (ne, Absent-leave_all k socket_id rooms absent)
    ]

pub Distinct-leave_all :
    (socket_id : String) (rooms : Rooms)
    → Distinct (λ e. e.0) rooms
    → Distinct (λ e. e.0) (leave_all socket_id rooms).1
unfolding leave_all
Distinct-leave_all socket_id [] _ = tt
Distinct-leave_all socket_id ((r, room) ∷ rooms) (absent, distinct) =
    elim (Bool-cases (is_empty (map_delete str_eq socket_id room))) [
      | inl gone ↦ rw gone (Distinct-leave_all socket_id rooms distinct)
      | inr stays ↦
          rw stays
            (Absent-leave_all r socket_id rooms absent, Distinct-leave_all socket_id rooms distinct)
    ]
