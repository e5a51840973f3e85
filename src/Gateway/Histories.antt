-- ===== src/Gateway/Histories.antt =====
-- What holds after whatever reaches the gateway, in whatever order.
use text.Mathlib.Text.{◌==◌ as str_eq}
use text.Mathlib.TextEquality.{eq_iff}
use runboard.Prelude.{
  ◌==◌, ◌≡◌, refl, sym, ap, ◌∙◌, Bool, true, ◌&&◌, String, Option, none, some, List, [], ◌∷◌, any,
  find, Bool-cases, Option-cases, inl, inr, arith,
}
use runboard.Schema.{Uuid, Db}
use runboard.Exec.{Code}
use runboard.Prisma.{Prisma}
use runboard.Events.{Room, run_room}
use runboard.Presence.Present.{present-join, present-leave, Distinct-join, Distinct-leave}
use runboard.Gateway.{
  Gateway, SocketData, socket_join, on_org_join, on_org_leave, allowed_to_join, enter_run,
  on_run_join, join_if, on_run_leave, participant_of, Occurrence, connects, joins_org, leaves_org,
  joins_run, enters_run, leaves_run, disconnects, socket_of, if_connected, handle, handle_all,
}
use runboard.Runs.Setup.{is_org_member}
use runboard.Gateway.Live.{
  IsLive, is_connected, in_room, in_room-socket_join, in_room-socket_join_self, run-apart,
  and-split, any-keep, connect-IsLive, org_join-IsLive, org_leave-IsLive, disconnect-IsLive,
}

pub socket_join-connected :
    (s : String) (room : Room) (g : Gateway) → (socket_join s room g).connected ≡ g.connected
socket_join-connected s room g = ground arith

pub socket_join-presence :
    (s : String) (room : Room) (g : Gateway) → (socket_join s room g).presence ≡ g.presence
socket_join-presence s room g = ground arith

any_of_find {ℓ} :
    {A : Type ℓ} (p : A → Bool) (xs : List A) (x : A) → find p xs ≡ some x → any p xs ≡ true
any_of_find p [] x h = cc
any_of_find p (y ∷ ys) x h = elim (Bool-cases (p y)) [
  | inl hit ↦ rw hit refl
  | inr miss ↦ rw miss (any_of_find p ys x (rw miss at h))
]

-- A `run:join` goes on while its socket is still connected.
abbrev pub InTime : Gateway → Occurrence → Type 0
InTime g (enters_run s d run_id) = is_connected s g ≡ true
InTime g _ = Unit

module _ (prisma : Prisma) (g : Gateway) (h : IsLive g) where
  enter_run-IsLive :
      (s : String) (d : SocketData) (run_id : Uuid)
      → is_connected s g ≡ true
      → IsLive (enter_run s d run_id g).1
  unfolding enter_run
  enter_run-IsLive s d run_id connected =
      let same = socket_join-presence s (run_room run_id) g in
      let same_sockets = socket_join-connected s (run_room run_id) g in
      record {
        one_room = rw same (Distinct-join run_id s (participant_of d) g.presence h.one_room);
        live = λ r t here.
            let either =
              sym (present-join r run_id t s (participant_of d) g.presence) ∙ rw same at here in
            elim (Bool-cases (run_id == r && str_eq s t)) [
              | inl new ↦
                  let e = both-same r run_id t s new in
                  (
                    rw same_sockets (ap (λ k. is_connected k g) (sym e.1) ∙ connected),
                    ap (λ k. in_room k (run_room r) (socket_join s (run_room run_id) g)) (sym e.1)
                        ∙ ap (λ k. in_room s (run_room k) (socket_join s (run_room run_id) g))
                            (sym e.0)
                        ∙ in_room-socket_join_self s (run_room run_id) g,
                  )
              | inr old ↦
                  let l = h.live r t (rw old at either) in
                  (
                    rw same_sockets l.0,
                    in_room-socket_join t s (run_room r) (run_room run_id) g l.1,
                  )
            ];
      }
    where
      both-same :
          (r run_id : Uuid) (t s : String)
          → (run_id == r && str_eq s t) ≡ true
          → (run_id ≡ r) × (s ≡ t)
      both-same r run_id t s new = ground (arith, new, eq_iff s t)

  run_leave-IsLive : (s : String) (run_id : Option Uuid) → IsLive (on_run_leave s run_id g).1
  unfolding on_run_leave
  run_leave-IsLive s none = h
  run_leave-IsLive s (some run_id) = record {
    one_room = Distinct-leave run_id s g.presence h.one_room;
    live = λ r t here.
        let both = and-split _ _ (sym (present-leave r run_id t s g.presence) ∙ here) in
        let l = h.live r t both.0 in
        (l.0, any-keep _ _ g.rooms (λ e. run-apart t s r run_id e both.1) l.1);
  }

  run_join-IsLive :
      (s : String) (d : SocketData) (org_id run_id : Option Uuid) (db : Db)
      → is_connected s g ≡ true
      → IsLive (on_run_join prisma s d org_id run_id db g).1
  unfolding on_run_join
  run_join-IsLive s d org_id run_id db connected =
      go (allowed_to_join prisma d org_id run_id db) run_id
    where
      go : (c : Option Code) (r : Option Uuid) → IsLive (join_if prisma c s d r g).1
      go (some code) r = h
      go none none = h
      go none (some r) = enter_run-IsLive s d r connected

  on_org_join-IsLive :
      (s : String) (d : SocketData) (org_id : Option Uuid) (db : Db)
      → IsLive (on_org_join prisma s d org_id db g).1
  unfolding on_org_join
  on_org_join-IsLive s d none db = h
  on_org_join-IsLive s d (some org_id) db =
      elim (Bool-cases (is_org_member prisma org_id d.user_id db)) [
        | inl member ↦ rw member (org_join-IsLive prisma g h s org_id)
        | inr stranger ↦ rw stranger h
      ]

  on_org_leave-IsLive : (s : String) (org_id : Option Uuid) → IsLive (on_org_leave s org_id g).1
  unfolding on_org_leave
  on_org_leave-IsLive s none = h
  on_org_leave-IsLive s (some org_id) = org_leave-IsLive prisma g h s org_id

  if_connected-IsLive :
      (s : String) (f : SocketData → Gateway)
      → ((d : SocketData) → is_connected s g ≡ true → IsLive (f d))
      → IsLive (if_connected (socket_of s g) f g)
  if_connected-IsLive s f step = elim (Option-cases (socket_of s g)) [
    | inl missing ↦ rw missing h
    | inr (e, found) ↦ rw found (step e.1 (any_of_find (λ x. str_eq x.0 s) g.connected e found))
  ]

  handle-IsLive : (o : Occurrence) (db : Db) → InTime g o → IsLive (handle prisma (o, db) g)
  unfolding handle
  handle-IsLive (connects s sub) db _ = connect-IsLive prisma g h s sub db
  handle-IsLive (joins_org s org_id) db _ =
      if_connected-IsLive s _ λ d _. on_org_join-IsLive s d org_id db
  handle-IsLive (leaves_org s org_id) db _ =
      if_connected-IsLive s _ λ d _. on_org_leave-IsLive s org_id
  handle-IsLive (joins_run s org_id run_id) db _ =
      if_connected-IsLive s _ λ d connected. run_join-IsLive s d org_id run_id db connected
  handle-IsLive (enters_run s d run_id) db connected = enter_run-IsLive s d run_id connected
  handle-IsLive (leaves_run s run_id) db _ =
      if_connected-IsLive s _ λ d _. run_leave-IsLive s run_id
  handle-IsLive (disconnects s) db _ = if_connected-IsLive s _ λ d _. disconnect-IsLive prisma g h s

-- The history in which no `run:join` goes on after its socket was lost.
abbrev pub AllInTime : Prisma → List (Occurrence × Db) → Gateway → Type 0
AllInTime prisma [] g = Unit
AllInTime prisma (e ∷ rest) g = InTime g e.0 × AllInTime prisma rest (handle prisma e g)

-- Messages, connections and losses of sockets reach the gateway in any order, whatever the
-- database is then, and other occurrences may come between the check of a `run:join` and its
-- entry. If no `run:join` goes on after its own socket was lost, everyone who is present in a run
-- stays connected and in the room of the run.
pub handle_all-IsLive :
    (prisma : Prisma) (events : List (Occurrence × Db)) (g : Gateway)
    → AllInTime prisma events g
    → IsLive g
    → IsLive (handle_all prisma events g)
unfolding handle_all
handle_all-IsLive prisma [] g _ h = h
handle_all-IsLive prisma ((o, db) ∷ rest) g (in_time, later) h =
    handle_all-IsLive prisma rest (handle prisma (o, db) g) later
      (handle-IsLive prisma g h o db in_time)
