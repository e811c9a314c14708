-- ===== src/Listing/Exclusive.antt =====
-- One listing at a time, over the requests, results and changes of the storage that a coordinator
-- serves (astacus/coordinator/api.py).
use astacus.Prelude.{
  ℕ, ◌≡◌, refl, sym, ap, subst, ◌∷◌, ◌⊎◌, inl, inr, Bool-cases, Option-cases, arith, true, false,
  String, List, [], nat_eq,
}
use astacus.Exceptions.{http_error, Outcome, returned, raised}
use astacus.Listing.{CachedEntries, ListForStorage, get_cache_entries_from_list_response}
use astacus.Listing.Endpoint.{
  ListRequest, ListState, answer, listing, is_current, begin_listing, start_list, finish_list,
  clearing, Event, request, finish, clear, Server, idle_server, step, serve_all,
}

-- No request lists and the flag is clear, or one does and the flag is set.
abbrev pub IsExclusive : Server → Type 0
IsExclusive s =
    ((s.running ≡ []) × (s.state.cached_list_running ≡ false))
    ⊎ ((req : ListRequest) × (s.running ≡ req ∷ []) × (s.state.cached_list_running ≡ true))

module _ (list_ttl config : ℕ) where
  -- the first part of a request while no listing runs, and while one does
  start_idle :
      (now : ℕ) (req : ListRequest) (s : ListState)
      → s.cached_list_running ≡ false
      → ((response : List ListForStorage) × (start_list list_ttl config now req s
            ≡ (returned (answer response), s)))
        ⊎ ((cache : List (String × CachedEntries)) × (start_list list_ttl config now req s
              ≡ (returned (listing req cache), record s { cached_list_running = true })))
  unfolding start_list begin_listing
  start_idle now req s h = elim (Option-cases s.cached_list_response) [
    | inl e ↦ inr ([], ground (arith, e, h))
    | inr (c, e) ↦ elim (Bool-cases (is_current list_ttl config now c)) [
      | inl current ↦ inl (c.list_response, ground (arith, e, current))
      | inr old ↦
          inr (get_cache_entries_from_list_response c.list_response, ground (arith, e, old, h))
    ]
  ]

  start_busy :
      (now : ℕ) (req : ListRequest) (s : ListState)
      → s.cached_list_running ≡ true
      → ((response : List ListForStorage) × (start_list list_ttl config now req s
            ≡ (returned (answer response), s)))
        ⊎ (start_list list_ttl config now req s ≡ (raised (http_error 429), s))
  unfolding start_list begin_listing
  start_busy now req s h = elim (Option-cases s.cached_list_response) [
    | inl e ↦ inr (ground (arith, e, h))
    | inr (c, e) ↦ elim (Bool-cases (is_current list_ttl config now c)) [
      | inl current ↦ inl (c.list_response, ground (arith, e, current))
      | inr old ↦ inr (ground (arith, e, old, h))
    ]
  ]

  step_answered :
      (now : ℕ) (req : ListRequest) (s : Server) (response : List ListForStorage)
      → start_list list_ttl config now req s.state ≡ (returned (answer response), s.state)
      → step list_ttl config (request now req) s ≡ s
  unfolding step
  step_answered now req s response e = ground (arith, e)

  step_refused :
      (now : ℕ) (req : ListRequest) (s : Server)
      → start_list list_ttl config now req s.state ≡ (raised (http_error 429), s.state)
      → step list_ttl config (request now req) s ≡ s
  unfolding step
  step_refused now req s e = ground (arith, e)

  step_begun :
      (now : ℕ) (req : ListRequest) (s : Server) (cache : List (String × CachedEntries))
      (state : ListState)
      → start_list list_ttl config now req s.state ≡ (returned (listing req cache), state)
      → step list_ttl config (request now req) s
        ≡ record { state = state; running = req ∷ s.running }
  unfolding step
  step_begun now req s cache state e = ground (arith, e)

  begin-IsExclusive :
      (now : ℕ) (req : ListRequest) (s : Server)
      → IsExclusive s
      → IsExclusive (step list_ttl config (request now req) s)
  begin-IsExclusive now req s (inl (none_runs, clear_flag)) =
      elim (start_idle now req s.state clear_flag) [
        | inl (response, e) ↦
            subst IsExclusive (sym (step_answered now req s response e))
              (inl (none_runs, clear_flag))
        | inr (cache, e) ↦
            subst IsExclusive (sym (step_begun now req s cache _ e))
              (inr (req, ap (λ rs. req ∷ rs) none_runs, refl))
      ]
  begin-IsExclusive now req s (inr h) = elim (start_busy now req s.state h.2) [
    | inl (response, e) ↦ subst IsExclusive (sym (step_answered now req s response e)) (inr h)
    | inr e ↦ subst IsExclusive (sym (step_refused now req s e)) (inr h)
  ]

  step_finished :
      (now : ℕ) (response : Outcome (List ListForStorage)) (s : Server) (req : ListRequest)
      → s.running ≡ req ∷ []
      → step list_ttl config (finish now response) s
        ≡ record { state = (finish_list config now req response s.state).1; running = [] }
  unfolding step
  step_finished now response s req e = ground (arith, e)

  step_idle :
      (now : ℕ) (response : Outcome (List ListForStorage)) (s : Server)
      → s.running ≡ []
      → step list_ttl config (finish now response) s ≡ s
  unfolding step
  step_idle now response s e = ground (arith, e)

  finish_clears :
      (now : ℕ) (req : ListRequest) (response : Outcome (List ListForStorage)) (s : ListState)
      → (finish_list config now req response s).1.cached_list_running ≡ false
  unfolding finish_list
  finish_clears now req (returned response) s = refl
  finish_clears now req (raised e) s = refl

  finish-IsExclusive :
      (now : ℕ) (response : Outcome (List ListForStorage)) (s : Server)
      → IsExclusive s
      → IsExclusive (step list_ttl config (finish now response) s)
  finish-IsExclusive now response s (inl h) =
      subst IsExclusive (sym (step_idle now response s h.0)) (inl h)
  finish-IsExclusive now response s (inr (req, one_runs, set_flag)) =
      subst IsExclusive (sym (step_finished now response s req one_runs))
        (inl (refl, finish_clears now req response s.state))

  step-IsExclusive :
      (e : Event) (s : Server) → IsExclusive s → IsExclusive (step list_ttl config e s)
  unfolding step clearing
  step-IsExclusive (request now req) s h = begin-IsExclusive now req s h
  step-IsExclusive (finish now response) s h = finish-IsExclusive now response s h
  step-IsExclusive clear s h = h

  serve_all_from :
      (events : List Event) (s : Server)
      → IsExclusive s
      → IsExclusive (serve_all list_ttl config events s)
  unfolding serve_all
  serve_all_from [] s h = h
  serve_all_from (e ∷ events) s h =
      serve_all_from events (step list_ttl config e s) (step-IsExclusive e s h)

  -- From a server that has listed nothing, in whatever order requests, ends of listings and changes of
  -- the storage come and whatever the listings return or raise, at most one request lists at a time,
  -- and the flag by which further ones are refused is set exactly while one does.
  pub serve_all-IsExclusive :
      (events : List Event) → IsExclusive (serve_all list_ttl config events idle_server)
  serve_all-IsExclusive events = serve_all_from events idle_server (inl (refl, refl))
