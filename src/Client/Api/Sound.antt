-- ===== src/Client/Api/Sound.antt =====
-- What holds of the client whatever happens, in whatever order.
use runboard.Prelude.{
  ℕ, ◌==◌, ◌≡◌, refl, true, not, ◌&&◌, Option, none, some, List, [], ◌∷◌, ◌++◌, Bool-cases, inl,
  inr,
}
use runboard.Prelude.Keys.{Absent, Distinct}
use runboard.Client.Api.{
  Token, Config, Flight, without_token, posting, Client, set_tokens, clear_auth, share_refresh,
  on_error, settle_flight, Reply, tokens, failure, ClientEvent, sends, fails, settles, logs_in,
  logs_out, step, run,
}

abbrev pub Unused : Token → List Token → Type 0
Unused = Absent (λ (x : Token). x)

-- The current refresh token has not been posted.
abbrev Usable : Option Token → List Token → Type 0
Usable none used = Unit
Usable (some t) used = Unused t used

-- Unless a refresh is under way, which replaces the token, it is usable, and nobody waits.
abbrev Settled : Option Flight → Option Token → List Token → List Config → Type 0
Settled none token used waiting = Usable token used × (waiting ≡ [])
Settled (some without_token) token used waiting = Usable token used
Settled (some (posting t)) token used waiting = Unit

pub record IsSound (c : Client) : Type 0 where
  pub once : Distinct (λ (x : Token). x) c.posted
  pub settled : Settled c.in_flight_refresh c.refresh_token c.posted c.waiting

-- The server hands out tokens that have not been posted before.
abbrev pub HandsOut : ClientEvent → Client → Type 0
HandsOut (settles (tokens access refresh)) c = Unused refresh c.posted
HandsOut (logs_in access refresh) c = Unused refresh c.posted
HandsOut _ c = Unit

abbrev pub AllHandOut : List ClientEvent → Client → Type 0
AllHandOut [] c = Unit
AllHandOut (e ∷ events) c = HandsOut e c × AllHandOut events (step e c)

-- A request that joins those who wait.
queued-IsSound :
    (config : Config) (flight : Option Flight) (token : Option Token) (c : Client)
    → c.in_flight_refresh ≡ flight
    → c.refresh_token ≡ token
    → IsSound c
    → IsSound (share_refresh c.in_flight_refresh (record c { waiting = c.waiting ++ config ∷ [] }))
queued-IsSound config (some without_token) token c e k h =
    rw e (record { once = h.once; settled = rw e at h.settled })
queued-IsSound config (some (posting t)) token c e k h =
    rw e (record { once = h.once; settled = tt })
queued-IsSound config none none c e k h = rw (e, k) (record { once = h.once; settled = tt })
queued-IsSound config none (some t) c e k h =
    let usable = rw k at (rw e at h.settled).0 in
    rw (e, k) (record { once = (usable, h.once); settled = tt })

fails-IsSound :
    (config : Config) (status : ℕ) (c : Client) → IsSound c → IsSound (on_error config status c)
unfolding on_error
fails-IsSound config status c h =
    elim (Bool-cases (status == 401 && not config.retried && not config.is_auth)) [
      | inl expired ↦
          rw expired (queued-IsSound (record config { retried = true }) _ _ c refl refl h)
      | inr other ↦ rw other (record { once = h.once; settled = h.settled })
    ]

settles-IsSound :
    (flight : Option Flight) (reply : Reply) (c : Client)
    → c.in_flight_refresh ≡ flight
    → HandsOut (settles reply) c
    → IsSound c
    → IsSound (settle_flight c.in_flight_refresh reply c)
settles-IsSound none reply c e new h = rw e (record { once = h.once; settled = rw e at h.settled })
settles-IsSound (some without_token) reply c e new h =
    rw e (record { once = h.once; settled = (rw e at h.settled, refl) })
settles-IsSound (some (posting t)) (tokens access refresh) c e new h =
    rw e (record { once = h.once; settled = (new, refl) })
settles-IsSound (some (posting t)) failure c e new h =
    rw e (record { once = h.once; settled = (tt, refl) })

logs_in-IsSound :
    (flight : Option Flight) (access refresh : Token) (c : Client)
    → c.in_flight_refresh ≡ flight
    → Unused refresh c.posted
    → IsSound c
    → IsSound (set_tokens access refresh c)
logs_in-IsSound none access refresh c e new h = record {
  once = h.once;
  settled = rw e (new, (rw e at h.settled).1);
}
logs_in-IsSound (some without_token) access refresh c e new h = record {
  once = h.once;
  settled = rw e new;
}
logs_in-IsSound (some (posting t)) access refresh c e new h = record {
  once = h.once;
  settled = rw e tt;
}

logs_out-IsSound :
    (flight : Option Flight) (c : Client)
    → c.in_flight_refresh ≡ flight
    → IsSound c
    → IsSound (clear_auth c)
logs_out-IsSound none c e h = record { once = h.once; settled = rw e (tt, (rw e at h.settled).1) }
logs_out-IsSound (some without_token) c e h = record { once = h.once; settled = rw e tt }
logs_out-IsSound (some (posting t)) c e h = record { once = h.once; settled = rw e tt }

step-IsSound : (e : ClientEvent) (c : Client) → HandsOut e c → IsSound c → IsSound (step e c)
unfolding step
step-IsSound (sends config) c _ h = record { once = h.once; settled = h.settled }
step-IsSound (fails config status) c _ h = fails-IsSound config status c h
step-IsSound (settles reply) c new h = settles-IsSound _ reply c refl new h
step-IsSound (logs_in access refresh) c new h = logs_in-IsSound _ access refresh c refl new h
step-IsSound logs_out c _ h = logs_out-IsSound _ c refl h

-- Where the server hands out refresh tokens that have not been posted before: whatever requests
-- fail at once and whenever replies, logins and logouts come in between, no refresh token is
-- posted twice, and no request waits unless a refresh is under way.
pub run-IsSound :
    (events : List ClientEvent) (c : Client)
    → AllHandOut events c
    → IsSound c
    → IsSound (run events c)
unfolding run
run-IsSound [] c _ h = h
run-IsSound (e ∷ events) c (new, later) h =
    run-IsSound events (step e c) later (step-IsSound e c new h)
