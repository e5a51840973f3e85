-- ===== src/Client/Api.antt =====
-- frontend/src/lib/api-client.ts with the tokens of stores/auth-store.ts: requests that meet an
-- expired access token share one refresh. A token is a number, which the code only passes on.
pub mod Sound
use runboard.Prelude.{
  ℕ, ◌==◌, Bool, true, false, not, ◌&&◌, Option, none, some, List, [], ◌∷◌, ◌++◌, map,
  if◌then◌else◌,
}

abbrev pub Token : Type 0
Token = ℕ

-- `RetryableConfig`; `is_auth` says that the url is one of `AUTH_ENDPOINTS`.
pub record Config : Type 0 where
  pub id : ℕ
  pub is_auth : Bool
  pub retried : Bool

-- The promise `inFlightRefresh`: without a refresh token it only waits to be settled.
pub data Flight : Type 0 where
  without_token : Flight
  posting : Token → Flight

pub record Client : Type 0 where
  pub access_token : Option Token
  pub refresh_token : Option Token
  pub in_flight_refresh : Option Flight
  -- the requests that await the promise
  pub waiting : List Config
  -- the refresh tokens that `refreshClient` has posted, the last one first
  pub posted : List Token
  -- the requests with their bearer tokens, and those whose promise is rejected
  pub sent : List (ℕ × Option Token)
  pub rejected : List ℕ

abbrev pub set_tokens : Token → Token → Client → Client
set_tokens access refresh c = record c { access_token = some access; refresh_token = some refresh }

abbrev pub clear_auth : Client → Client
clear_auth c = record c { access_token = none; refresh_token = none }

-- The request interceptor.
abbrev pub send : Config → Client → Client
send config c = record c { sent = c.sent ++ (config.id, c.access_token) ∷ [] }

-- `refreshAccessToken`, up to its wait.
abbrev pub refresh_access_token : Option Token → Client → Client
refresh_access_token none c = record c { in_flight_refresh = some without_token }
refresh_access_token (some t) c = record c {
  in_flight_refresh = some (posting t);
  posted = t ∷ c.posted;
}

-- `inFlightRefresh ??= …`
abbrev pub share_refresh : Option Flight → Client → Client
share_refresh none c = refresh_access_token c.refresh_token c
share_refresh (some flight) c = c

-- The response interceptor on an error, up to its wait.
unfoldable pub on_error : Config → (status : ℕ) → Client → Client
on_error config status c =
    if status == 401 && not config.retried && not config.is_auth
    then share_refresh c.in_flight_refresh
        (record c { waiting = c.waiting ++ record config { retried = true } ∷ [] })
    else record c { rejected = c.rejected ++ config.id ∷ [] }

abbrev ids : List Config → List ℕ
ids configs = map (λ config. config.id) configs

-- `if (newToken) … return apiClient(config)`, for everyone who waits.
abbrev pub resend : Token → Client → Client
resend token c = record c {
  in_flight_refresh = none;
  waiting = [];
  sent = c.sent ++ map (λ config. (config.id, some token)) c.waiting;
}

abbrev pub reject_waiting : Client → Client
reject_waiting c = record c {
  in_flight_refresh = none;
  waiting = [];
  rejected = c.rejected ++ ids c.waiting;
}

-- What the refresh endpoint answers to the token that is posted.
pub data Reply : Type 0 where
  tokens : (access refresh : Token) → Reply
  failure : Reply

abbrev settle_posting : Reply → Client → Client
settle_posting (tokens access refresh) c = resend access (set_tokens access refresh c)
settle_posting failure c = reject_waiting (clear_auth c)

-- The promise is settled: by the reply, or at once where there was no token to post.
abbrev pub settle_flight : Option Flight → Reply → Client → Client
settle_flight none reply c = c
settle_flight (some without_token) reply c = reject_waiting c
settle_flight (some (posting t)) reply c = settle_posting reply c

pub data ClientEvent : Type 0 where
  sends : Config → ClientEvent
  fails : Config → (status : ℕ) → ClientEvent
  settles : Reply → ClientEvent
  logs_in : (access refresh : Token) → ClientEvent
  logs_out : ClientEvent

unfoldable pub step : ClientEvent → Client → Client
unfolding on_error
step (sends config) c = send config c
step (fails config status) c = on_error config status c
step (settles reply) c = settle_flight c.in_flight_refresh reply c
step (logs_in access refresh) c = set_tokens access refresh c
step logs_out c = clear_auth c

unfoldable pub run : List ClientEvent → Client → Client
run [] c = c
run (e ∷ events) c = run events (step e c)
