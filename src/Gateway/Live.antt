-- ===== src/Gateway/Live.antt =====
-- Who is present in a run of those that are connected.
use text.Mathlib.Text.{◌==◌ as str_eq}
use text.Mathlib.TextEquality.{eq_iff}
use runboard.Prelude.{
  ◌==◌, ◌≡◌, refl, sym, ◌∙◌, Bool, true, false, not, ◌&&◌, ◌||◌, String, Option, none, some, List,
  [], ◌∷◌, ◌++◌, any, keep, Bool-cases, inl, inr, arith,
}
use runboard.Prelude.Keys.{Distinct}
use runboard.Schema.{Uuid, Db}
use runboard.Prisma.{Prisma}
use runboard.Events.{Room, run_room, org_room}
use runboard.Presence.Present.{present, present-leave_all, Distinct-leave_all}
use runboard.Gateway.{
  Gateway, SocketData, socket_join, socket_leave, is_in, room_eq, handle_disconnect, connect,
  authenticate, connect_as,
}

abbrev pub is_connected : String → Gateway → Bool
is_connected s g = any (λ e. str_eq e.0 s) g.connected

abbrev pub in_room : String → Room → Gateway → Bool
in_room s room g = any (is_in s room) g.rooms

-- Everyone who is present in a run is connected and receives the events of its room.
pub record IsLive (g : Gateway) : Type 0 where
  pub one_room : Distinct (λ e. e.0) g.presence
  pub live :
      (r : Uuid) (s : String)
      → present r s g.presence ≡ true
      → (is_connected s g ≡ true) × (in_room s (run_room r) g ≡ true)

any-append {ℓ} :
    {A : Type ℓ} (p : A → Bool) (xs ys : List A) → any p (xs ++ ys) ≡ (any p xs || any p ys)
any-append p [] ys = refl
any-append p (x ∷ xs) ys = ground (arith, any-append p xs ys)

-- A row that passes stays, if it is kept.
pub any-keep {ℓ} :
    {A : Type ℓ} (p q : A → Bool) (xs : List A)
    → ((x : A) → p x ≡ true → q x ≡ true)
    → any p xs ≡ true
    → any p (keep q xs) ≡ true
any-keep p q [] keeps h = h
any-keep p q (x ∷ xs) keeps h = elim (Bool-cases (p x)) [
  | inl hit ↦ rw (keeps x hit) (rw hit refl)
  | inr miss ↦
      let later = any-keep p q xs keeps (rw miss at h) in
      elim (Bool-cases (q x)) [ inl stays ↦ rw stays (rw miss later) | inr goes ↦ rw goes later ]
]

room_eq_self : (room : Room) → room_eq room room ≡ true
room_eq_self (run_room a) = ground arith
room_eq_self (org_room a) = ground arith

pub in_room-socket_join :
    (s socket_id : String) (room target : Room) (g : Gateway)
    → in_room s room g ≡ true
    → in_room s room (socket_join socket_id target g) ≡ true
in_room-socket_join s socket_id room target g h =
    elim (Bool-cases (any (is_in socket_id target) g.rooms)) [
      | inl there ↦ rw there h
      | inr new ↦ rw new (any-append (is_in s room) g.rooms ((socket_id, target) ∷ []) ∙ rw h refl)
    ]

pub in_room-socket_join_self :
    (s : String) (room : Room) (g : Gateway) → in_room s room (socket_join s room g) ≡ true
in_room-socket_join_self s room g = elim (Bool-cases (any (is_in s room) g.rooms)) [
  | inl there ↦ rw there there
  | inr new ↦ rw new (
      any-append (is_in s room) g.rooms ((s, room) ∷ [])
      ∙ rw (new, room_eq_self room, (eq_iff s s).1 refl) refl)
]

org-apart :
    (s socket_id : String) (r : Uuid) (org_id : Uuid) (e : String × Room)
    → is_in s (run_room r) e ≡ true
    → not (is_in socket_id (org_room org_id) e) ≡ true
org-apart s socket_id r org_id (t, run_room k) h = ground arith
org-apart s socket_id r org_id (t, org_room k) h = ground (arith, h)

pub run-apart :
    (s socket_id : String) (r run_id : Uuid) (e : String × Room)
    → (run_id == r && str_eq socket_id s) ≡ false
    → is_in s (run_room r) e ≡ true
    → not (is_in socket_id (run_room run_id) e) ≡ true
run-apart s socket_id r run_id (t, org_room k) ne h = ground (arith, h)
run-apart s socket_id r run_id (t, run_room k) ne h =
    ground (arith, ne, h, eq_iff t s, eq_iff t socket_id, eq_iff socket_id s)

socket-apart :
    (s socket_id t : String)
    → str_eq socket_id s ≡ false
    → str_eq t s ≡ true
    → not (str_eq t socket_id) ≡ true
socket-apart s socket_id t ne h =
    ground (arith, ne, h, eq_iff t s, eq_iff t socket_id, eq_iff socket_id s)

pub and-split : (a b : Bool) → (a && not b) ≡ true → (a ≡ true) × (b ≡ false)
and-split true false h = (refl, refl)
and-split true true h = cc
and-split false b h = cc

and-left : (a b : Bool) → (a && b) ≡ true → a ≡ true
and-left true b h = refl
and-left false b h = cc

module _ (prisma : Prisma) (g : Gateway) (h : IsLive g) where
  pub connect-IsLive :
      (s : String) (sub : Option Uuid) (db : Db) → IsLive (connect prisma s sub db g)
  unfolding connect
  connect-IsLive s sub db = go (authenticate prisma sub db)
    where
      go : (d : Option SocketData) → IsLive (connect_as prisma s d g)
      go none = h
      go (some d) = record {
        one_room = h.one_room;
        live = λ r t there.
            let l = h.live r t there in
            (any-append (λ e. str_eq e.0 t) g.connected ((s, d) ∷ []) ∙ rw (l.0) refl, l.1);
      }

  pub org_join-IsLive : (s : String) (org_id : Uuid) → IsLive (socket_join s (org_room org_id) g)
  org_join-IsLive s org_id = elim (Bool-cases (any (is_in s (org_room org_id)) g.rooms)) [
    | inl there ↦ rw there h
    | inr new ↦ rw new (record {
      one_room = h.one_room;
      live = λ r t here.
          let l = h.live r t here in
          (
            l.0,
            any-append (is_in t (run_room r)) g.rooms ((s, org_room org_id) ∷ []) ∙ rw (l.1) refl,
          );
    })
  ]

  pub org_leave-IsLive : (s : String) (org_id : Uuid) → IsLive (socket_leave s (org_room org_id) g)
  org_leave-IsLive s org_id = record {
    one_room = h.one_room;
    live = λ r t here.
        let l = h.live r t here in (l.0, any-keep _ _ g.rooms (org-apart t s r org_id) l.1);
  }

  pub disconnect-IsLive : (s : String) → IsLive (handle_disconnect s g).0
  unfolding handle_disconnect
  disconnect-IsLive s = record {
    one_room = Distinct-leave_all s g.presence h.one_room;
    live = λ r t here.
        let both = and-split _ _ (sym (present-leave_all r t s g.presence h.one_room) ∙ here) in
        let l = h.live r t both.0 in
        (
          any-keep _ _ g.connected (λ e. socket-apart t s e.0 both.1) l.0,
          any-keep _ _ g.rooms (λ e in_it. socket-apart t s e.0 both.1 (and-left _ _ in_it)) l.1,
        );
  }
