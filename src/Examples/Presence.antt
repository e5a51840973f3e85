-- ===== src/Examples/Presence.antt =====
-- Presence: user 7 has two sockets in the room of run 20, and user 8 has one.
use runboard.Prelude.{ℕ, ◌≡◌, refl, [], ◌∷◌, any}
use runboard.Prelude.Keys.{Distinct}
use runboard.Presence.{Participant, Rooms, join, leave_all, list, by_user}
use runboard.Presence.Listing.{room_at, has_user, list_lem}

abbrev person : ℕ → Participant
person id = record { user_id = id; name = "P" }

abbrev rooms : Rooms
rooms =
    (20, ("a", person 7) ∷ ("b", person 8) ∷ ("c", person 7) ∷ []) ∷ (21, ("b", person 8) ∷ []) ∷ []

joined :
    join 20 "c" (person 7) (join 20 "b" (person 8) (join 20 "a" (person 7) []))
    ≡ (20, ("a", person 7) ∷ ("b", person 8) ∷ ("c", person 7) ∷ []) ∷ []
unfolding join
joined = refl

listed : list 20 rooms ≡ person 7 ∷ person 8 ∷ []
unfolding list by_user
listed = refl

left : leave_all "b" rooms ≡ (20 ∷ 21 ∷ [], (20, ("a", person 7) ∷ ("c", person 7) ∷ []) ∷ [])
unfolding leave_all
left = refl

list_lem_example :
    Distinct (λ (p : Participant). p.user_id) (list 20 rooms)
    × ((u : ℕ) → any (has_user u) (list 20 rooms) ≡ any (λ e. has_user u e.1) (room_at 20 rooms))
list_lem_example = list_lem 20 rooms
