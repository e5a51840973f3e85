-- ===== src/Gateway/Ghost.antt =====
-- A socket that is lost while its `run:join` waits.
use text.Mathlib.Text.{◌==◌ as str_eq}
use text.Mathlib.TextEquality.{eq_iff}
use runboard.Prelude.{
  ◌==◌, ◌≡◌, refl, sym, ap, ◌∙◌, Bool, true, false, not, ◌&&◌, ◌||◌, String, Option, none, some,
  List, [], ◌∷◌, ◌++◌, any, find, keep, Bool-cases, Option-cases, inl, inr, arith, All, ==_self,
}
use runboard.Prelude.Keys.{Distinct}
use runboard.Schema.{Uuid, Db}
use runboard.Exec.{Code}
use runboard.Prisma.{Prisma}
use runboard.Events.{Room, run_room, org_room}
use runboard.Presence.Present.{
  present, present-join, present-leave, present-leave_all, Distinct-join, Distinct-leave,
  Distinct-leave_all,
}
use runboard.Runs.Setup.{is_org_member}
use runboard.Gateway.{
  Gateway, SocketData, socket_join, handle_disconnect, connect, connect_as, authenticate,
  on_org_join, on_org_leave, allowed_to_join, enter_run, on_run_join, join_if, on_run_leave,
  participant_of, Occurrence, connects, joins_org, leaves_org, joins_run, enters_run, leaves_run,
  disconnects, socket_of, if_connected, handle, handle_all,
}
use runboard.Gateway.Live.{is_connected}
use runboard.Gateway.Histories.{socket_join-connected, socket_join-presence}

-- The socket is shown in the run though it is not connected.
record IsGhost (run_id : Uuid) (s : String) (g : Gateway) : Type 0 where
  one_room : Distinct (λ e. e.0) g.presence
  shown : present run_id s g.presence ≡ true
  lost : is_connected s g ≡ false

-- The id of a socket is not given to another one.
abbrev pub is_new : String → Occurrence → Bool
is_new s (connects t sub) = not (str_eq t s)
is_new s _ = true

any-keep_none :
    (s : String) (xs : List (String × SocketData))
    → any (λ e. str_eq e.0 s) (keep (λ e. not (str_eq e.0 s)) xs) ≡ false
any-keep_none s [] = refl
any-keep_none s (x ∷ xs) = elim (Bool-cases (str_eq x.0 s)) [
  | inl same ↦ rw same (any-keep_none s xs)
  | inr other ↦ rw other (rw other (any-keep_none s xs))
]

any-append_none :
    (s t : String) (d : SocketData) (xs : List (String × SocketData))
    → str_eq t s ≡ false
    → any (λ e. str_eq e.0 s) xs ≡ false
    → any (λ e. str_eq e.0 s) (xs ++ (t, d) ∷ []) ≡ false
any-append_none s t d [] ne _ = rw ne refl
any-append_none s t d (x ∷ xs) ne h = elim (Bool-cases (str_eq x.0 s)) [
  | inl same ↦ ground (arith, same, h)
  | inr other ↦ rw other (any-append_none s t d xs ne (rw other at h))
]

any-keep_other :
    (s t : String) (xs : List (String × SocketData))
    → any (λ e. str_eq e.0 s) xs ≡ false
    → any (λ e. str_eq e.0 s) (keep (λ e. not (str_eq e.0 t)) xs) ≡ false
any-keep_other s t [] h = refl
any-keep_other s t (x ∷ xs) h = ground (arith, any-keep_other s t xs, h)

absurd_find :
    {A : Type 0} (s : String) (xs : List (String × SocketData)) (e : String × SocketData)
    → any (λ x. str_eq x.0 s) xs ≡ false
    → find (λ x. str_eq x.0 s) xs ≡ some e
    → A
absurd_find s [] e h found = cc
absurd_find s (x ∷ xs) e h found = elim (Bool-cases (str_eq x.0 s)) [
  | inl same ↦ absurd (ground (arith, same, h))
  | inr differs ↦ absurd_find s xs e (rw differs at h) (rw differs at found)
]

or_true : (b : Bool) → (b || true) ≡ true
or_true b = ground arith

and_false : (b : Bool) → (true && not (b && false)) ≡ true
and_false b = ground arith

module _ (prisma : Prisma) (run_id : Uuid) (s : String) (g : Gateway) (h : IsGhost run_id s g) where
  -- What a connected socket does is done by another one.
  other : (t : String) (e : String × SocketData) → socket_of t g ≡ some e → str_eq t s ≡ false
  other t e found = elim (Bool-cases (str_eq t s)) [
    | inr differs ↦ differs
    | inl same ↦
        let e_t : t ≡ s = (eq_iff t s).0 same in
        absurd_find s g.connected e h.lost (ap (λ k. socket_of k g) (sym e_t) ∙ found)
  ]

  of_connected :
      (t : String) (f : SocketData → Gateway)
      → ((d : SocketData) → str_eq t s ≡ false → IsGhost run_id s (f d))
      → IsGhost run_id s (if_connected (socket_of t g) f g)
  of_connected t f step = elim (Option-cases (socket_of t g)) [
    | inl missing ↦ rw missing h
    | inr (e, found) ↦ rw found (step e.1 (other t e found))
  ]

  joined-IsGhost : (t : String) (room : Room) → IsGhost run_id s (socket_join t room g)
  joined-IsGhost t room =
      let same = socket_join-presence t room g in
      record {
        one_room = rw same h.one_room;
        shown = rw same h.shown;
        lost = rw (socket_join-connected t room g) h.lost;
      }

  enter-IsGhost : (t : String) (d : SocketData) (r : Uuid) → IsGhost run_id s (enter_run t d r g).1
  unfolding enter_run
  enter-IsGhost t d r =
      let same = socket_join-presence t (run_room r) g in
      record {
        one_room = rw same (Distinct-join r t (participant_of d) g.presence h.one_room);
        shown = rw same (
            present-join run_id r s t (participant_of d) g.presence
            ∙ rw (h.shown) (or_true (r == run_id && str_eq t s)));
        lost = rw (socket_join-connected t (run_room r) g) h.lost;
      }

  leave-IsGhost :
      (t : String) (r : Option Uuid) → str_eq t s ≡ false → IsGhost run_id s (on_run_leave t r g).1
  unfolding on_run_leave
  leave-IsGhost t none _ = h
  leave-IsGhost t (some r) differs = record {
    one_room = Distinct-leave r t g.presence h.one_room;
    shown = present-leave run_id r s t g.presence ∙ rw (h.shown, differs) (and_false (r == run_id));
    lost = h.lost;
  }

  disconnect-IsGhost :
      (t : String) → str_eq t s ≡ false → IsGhost run_id s (handle_disconnect t g).0
  unfolding handle_disconnect
  disconnect-IsGhost t differs = record {
    one_room = Distinct-leave_all t g.presence h.one_room;
    shown = present-leave_all run_id s t g.presence h.one_room ∙ rw (h.shown, differs) refl;
    lost = any-keep_other s t g.connected h.lost;
  }

  connect-IsGhost :
      (t : String) (sub : Option Uuid) (db : Db)
      → not (str_eq t s) ≡ true
      → IsGhost run_id s (connect prisma t sub db g)
  unfolding connect
  connect-IsGhost t sub db new = go (authenticate prisma sub db)
    where
      go : (d : Option SocketData) → IsGhost run_id s (connect_as prisma t d g)
      go none = h
      go (some d) = record {
        one_room = h.one_room;
        shown = h.shown;
        lost = any-append_none s t d g.connected (ground (arith, new)) h.lost;
      }

  handle-IsGhost :
      (o : Occurrence) (db : Db) → is_new s o ≡ true → IsGhost run_id s (handle prisma (o, db) g)
  unfolding handle on_org_join on_org_leave on_run_join
  handle-IsGhost (connects t sub) db new = connect-IsGhost t sub db new
  handle-IsGhost (joins_org t none) db _ = of_connected t _ λ d _. h
  handle-IsGhost (joins_org t (some org_id)) db _ = of_connected t _ λ d _.
      elim (Bool-cases (is_org_member prisma org_id d.user_id db)) [
        | inl member ↦ rw member (joined-IsGhost t (org_room org_id))
        | inr stranger ↦ rw stranger h
      ]
  handle-IsGhost (leaves_org t none) db _ = of_connected t _ λ d _. h
  handle-IsGhost (leaves_org t (some org_id)) db _ =
      of_connected t _ λ d _. record { one_room = h.one_room; shown = h.shown; lost = h.lost }
  handle-IsGhost (joins_run t org_id r) db _ =
      of_connected t _ λ d _. go d (allowed_to_join prisma d org_id r db) r
    where
      go :
          (d : SocketData) (c : Option Code) (r : Option Uuid)
          → IsGhost run_id s (join_if prisma c t d r g).1
      go d (some code) r = h
      go d none none = h
      go d none (some r) = enter-IsGhost t d r
  handle-IsGhost (enters_run t d r) db _ = enter-IsGhost t d r
  handle-IsGhost (leaves_run t r) db _ = of_connected t _ λ d differs. leave-IsGhost t r differs
  handle-IsGhost (disconnects t) db _ = of_connected t _ λ d differs. disconnect-IsGhost t differs

handle_all-IsGhost :
    (prisma : Prisma) (run_id : Uuid) (s : String) (events : List (Occurrence × Db)) (g : Gateway)
    → IsGhost run_id s g
    → All (λ e. is_new s e.0 ≡ true) events
    → IsGhost run_id s (handle_all prisma events g)
unfolding handle_all
handle_all-IsGhost prisma run_id s [] g h _ = h
handle_all-IsGhost prisma run_id s ((o, db) ∷ rest) g h (new, later) =
    handle_all-IsGhost prisma run_id s rest (handle prisma (o, db) g)
      (handle-IsGhost prisma run_id s g h o db new) later

-- A socket that is lost while its `run:join` waits for the database: whatever reaches the gateway
-- later, as long as no new socket has the old one's id, the user is shown as present in the run
-- for ever, though the socket is not connected.
pub enter_run-Ghost :
    (prisma : Prisma) (s : String) (d : SocketData) (run_id : Uuid) (g : Gateway)
    (events : List (Occurrence × Db))
    → Distinct (λ e. e.0) g.presence
    → All (λ e. is_new s e.0 ≡ true) events
    → let later = handle_all prisma events (enter_run s d run_id (handle_disconnect s g).0).1 in
      (present run_id s later.presence ≡ true) × (is_connected s later ≡ false)
unfolding enter_run handle_disconnect
enter_run-Ghost prisma s d run_id g events distinct new =
    let lost = (handle_disconnect s g).0 in
    let same = socket_join-presence s (run_room run_id) lost in
    let start : IsGhost run_id s (enter_run s d run_id lost).1 = record {
      one_room =
          rw same (
            Distinct-join run_id s (participant_of d) _ (Distinct-leave_all s g.presence distinct));
      shown = rw same (
          present-join run_id run_id s s (participant_of d) _
          ∙ rw (==_self run_id, (eq_iff s s).1 refl) refl);
      lost = rw (socket_join-connected s (run_room run_id) lost) (any-keep_none s g.connected);
    } in
    let after = handle_all-IsGhost prisma run_id s events _ start new in (after.shown, after.lost)
