-- ===== src/Listing/Endpoint.antt =====
-- The endpoint `GET /list` of astacus/coordinator/api.py with its cached response, which is in the
-- state of astacus/coordinator/state.py, and `CacheClearingJsonStorage` of
-- astacus/coordinator/coordinator.py. A request runs in two parts, between which the event loop
-- serves others: up to the listing in a thread, and from its result on. A configuration is a number.
use astacus.Prelude.{
  ℕ, ◌-◌, ◌∷◌, Bool, true, false, ◌&&◌, Option, none, some, String, List, [], ltb, ◌==◌, nat_eq,
  if◌then◌else◌,
}
use astacus.Exceptions.{http_error, Outcome, returned, raised, Method}
use astacus.Listing.{CachedEntries, ListForStorage, get_cache_entries_from_list_response}

-- `ListRequest` of astacus/common/ipc.py
pub record ListRequest : Type 0 where
  pub storage : String

-- A request as a condition: a struct defines neither a truth value nor a length, so it is true.
abbrev pub is_truthy : ListRequest → Bool
is_truthy req = true

pub record CachedListResponse : Type 0 where
  pub timestamp : ℕ
  pub coordinator_config : ℕ
  pub list_request : ListRequest
  pub list_response : List ListForStorage

pub record ListState : Type 0 where
  pub cached_list_response : Option CachedListResponse
  pub cached_list_running : Bool

-- the first part of a request: an answer, or the request and the cache to list with
pub data Start : Type 0 where
  answer : List ListForStorage → Start
  listing : ListRequest → List (String × CachedEntries) → Start

-- The last condition is the cached request itself; it is not compared with the request.
unfoldable pub is_current : ℕ → ℕ → ℕ → CachedListResponse → Bool
is_current list_ttl config now cached =
    ltb (now - cached.timestamp) list_ttl
    && (cached.coordinator_config == config && is_truthy cached.list_request)

unfoldable pub begin_listing : ListRequest → Option CachedListResponse → Method ListState Start
begin_listing req cached s = if s.cached_list_running then (raised (http_error 429), s) else (
  returned (
      listing req (elim cached [
        | none ↦ []
        | some c ↦ get_cache_entries_from_list_response c.list_response
      ])),
  record s { cached_list_running = true },
)

unfoldable pub start_list : (list_ttl config : ℕ) → ℕ → ListRequest → Method ListState Start
unfolding is_current begin_listing
start_list list_ttl config now req s = elim s.cached_list_response [
  | none ↦ begin_listing req none s
  | some c ↦
      if is_current list_ttl config now c
      then (returned (answer c.list_response), s)
      else begin_listing req (some c) s
]

-- `finally` clears the flag also where the listing raised.
unfoldable pub finish_list :
    (config : ℕ)
    → ℕ
    → ListRequest
    → Outcome (List ListForStorage)
    → Method ListState (List ListForStorage)
finish_list config now req (raised e) s = (raised e, record s { cached_list_running = false })
finish_list config now req (returned response) s = (
  returned response,
  record {
    cached_list_response = some (record {
      timestamp = now;
      coordinator_config = config;
      list_request = req;
      list_response = response;
    });
    cached_list_running = false;
  },
)

-- `CacheClearingJsonStorage`: a deletion and an upload drop the cached response, also where the
-- storage's own method raises.
unfoldable pub clearing : {S A : Type 0} → Method S A → Method (S × ListState) A
clearing m (s, state) = let (r, s') = m s in (r, (s', record state { cached_list_response = none }))

-- What the event loop runs: the first part of a request, the second part of one that lists, with
-- the result or the exception of its listing, and a deletion or an upload of a document.
pub data Event : Type 0 where
  request : (now : ℕ) (req : ListRequest) → Event
  finish : (now : ℕ) (response : Outcome (List ListForStorage)) → Event
  clear : Event

-- the state, with the requests that list
pub record Server : Type 0 where
  pub state : ListState
  pub running : List ListRequest

abbrev pub idle_server : Server
idle_server = record {
  state = record { cached_list_response = none; cached_list_running = false };
  running = [];
}

module _ (list_ttl config : ℕ) where
  unfoldable pub step : Event → Server → Server
  unfolding start_list finish_list clearing
  step (request now req) s =
      let (r, state) = start_list list_ttl config now req s.state in
      elim r [
        | raised e ↦ record s { state = state }
        | returned (answer response) ↦ record s { state = state }
        | returned (listing asked cache) ↦ record { state = state; running = asked ∷ s.running }
      ]
  step (finish now response) s = elim s.running [
    | [] ↦ s
    | req ∷ rest ↦ record {
      state = (finish_list config now req response s.state).1;
      running = rest;
    }
  ]
  step clear s = record s { state = (clearing (λ u. (returned u, u)) (tt {0}, s.state)).1.1 }

  unfoldable pub serve_all : List Event → Server → Server
  unfolding step
  serve_all [] s = s
  serve_all (e ∷ events) s = serve_all events (step e s)
