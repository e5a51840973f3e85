-- ===== src/Examples/Gateway.antt =====
-- The user 7 opens run 20 over a socket and loses it.
use runboard.Prelude.{◌≡◌, refl, true, false, some, List, [], ◌∷◌}
use runboard.Schema.{Db}
use runboard.Prisma.{lists}
use runboard.Presence.{join, leave_all}
use runboard.Presence.Present.{present}
use runboard.Runs.Setup.{is_org_member, assert_readable}
use runboard.Gateway.{
  Gateway, SocketData, Occurrence, connects, joins_run, enters_run, disconnects, handle, handle_all,
  connect, on_run_join, allowed_to_join, enter_run, handle_disconnect,
}
use runboard.Gateway.Live.{IsLive, is_connected}
use runboard.Gateway.Histories.{AllInTime, handle_all-IsLive}
use runboard.Gateway.Ghost.{enter_run-Ghost}
use runboard.Examples.Data.{one_run}

abbrev nobody : Gateway
nobody = record { connected = []; rooms = []; presence = [] }

abbrev opens : List (Occurrence × Db)
opens = (connects "a" (some 7), one_run) ∷ (joins_run "a" (some 1) (some 20), one_run) ∷ []

abbrev tess : SocketData
tess = record { user_id = 7; email = "t@example.com"; name = "Tess" }

nobody-IsLive : IsLive nobody
nobody-IsLive = record { one_room = tt; live = λ r s h. cc }

-- While the socket "a" waits for its entry, another one connects.
abbrev waits : List (Occurrence × Db)
waits =
    (connects "a" (some 7), one_run)
    ∷ (connects "b" (some 7), one_run)
    ∷ (enters_run "a" tess 20, one_run)
    ∷ (disconnects "b", one_run)
    ∷ []

waits-AllInTime : AllInTime lists waits nobody
unfolding handle connect
waits-AllInTime = (tt, (tt, (refl, (tt, tt))))

handle_all-IsLive_example : IsLive (handle_all lists waits nobody)
handle_all-IsLive_example = handle_all-IsLive lists waits nobody waits-AllInTime nobody-IsLive

-- The socket is shown in the run, and no longer after it is lost.
shown : present 20 "a" (handle_all lists opens nobody).presence ≡ true
unfolding handle_all handle connect on_run_join allowed_to_join enter_run join is_org_member
    assert_readable
shown = refl

gone :
    present 20 "a"
      (handle_all lists ((disconnects "a", one_run) ∷ []) (handle_all lists opens nobody)).presence
    ≡ false
unfolding handle_all handle connect on_run_join allowed_to_join enter_run join is_org_member
    assert_readable handle_disconnect leave_all
gone = refl

abbrev one_socket : Gateway
one_socket = record { connected = ("a", tess) ∷ []; rooms = []; presence = [] }

abbrev another : List (Occurrence × Db)
another = (connects "b" (some 7), one_run) ∷ (disconnects "b", one_run) ∷ []

enter_run-Ghost_example :
    (present 20 "a"
        (handle_all lists another
          (enter_run "a" tess 20 (handle_disconnect "a" one_socket).0).1).presence
      ≡ true)
    × (is_connected "a"
          (handle_all lists another (enter_run "a" tess 20 (handle_disconnect "a" one_socket).0).1)
        ≡ false)
enter_run-Ghost_example = enter_run-Ghost lists "a" tess 20 one_socket another tt (refl, (refl, tt))
