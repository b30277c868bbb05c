-- ===== src/Domain/ServerStatus/History.antt =====
-- Which statuses of the server a ServerStatusStore keeps.
use mathlib.Core.List.{append-nil}
use with_boost.Common.{
  ℕ, ℤ, ◌≡◌, ◌≤◌, ◌-◌, refl, sym, ap, ◌∙◌, subst, Bool, true, false, Bool-cases, inl, inr, none,
  some, Option-cases, List, [], ◌∷◌, ◌++◌, Text, length, length-append, drop, ltb, arith,
  if◌then◌else◌,
}
use with_boost.Domain.Json.{Json}
use with_boost.Domain.Device.{trim}
use with_boost.Domain.Device.History.{length-trim, trim-drop, trim-append, trim-short}
use with_boost.Domain.ServerStatus.Store.{
  ServerStatusData, push_recent, max_statuses, clear, no_status, Store, read_status, kept,
  update_from_json,
}

pub push_recent-trim {ℓ} :
    {A : Type ℓ} (limit : ℕ) (xs : List A) (x : A)
    → length xs ≤ limit
    → push_recent limit xs x ≡ trim limit (xs ++ x ∷ [])
unfolding push_recent
push_recent-trim limit xs x h = elim (Bool-cases (ltb limit (length (xs ++ x ∷ [])))) [
  | inl e ↦ rw (e, trim-drop limit (xs ++ x ∷ []), over e) refl
  | inr e ↦ rw e (sym (trim-short limit (xs ++ x ∷ []) (ground (arith, e))))
]
  where
    over : ltb limit (length (xs ++ x ∷ [])) ≡ true → length (xs ++ x ∷ []) - limit ≡ 1
    over e = ground (arith, length-append xs (x ∷ []), e, h)

-- What happens to a store: a packet, with the time, or a clear.
pub data Command : Type 0 where
  packet : ℤ → Text → Command
  clears : Command

module _ (j : Json) where
  open j use {Value, Real, real_zero, parse, is_object}

  pub step : Store j → Command → Store j
  step s (packet now json) = (update_from_json j now s json).0
  step s clears = clear real_zero s

  pub run : Store j → List Command → Store j
  run s [] = s
  run s (c ∷ cs) = run (step s c) cs

  -- The status of the server that a packet gives: none where it is not an object, where a read throws, and where it
  -- has no object of the server.
  pub server_of : ℤ → Text → List (ServerStatusData Real)
  server_of now json =
      let read : List (ServerStatusData Real) = elim (read_status j now (parse json)) [
        | none ↦ []
        | some s ↦ if s.available then s ∷ [] else []
      ] in
      if is_object (parse json) then read else []

  -- The statuses of the server since the last clear, behind those before.
  pub since_clear : List (ServerStatusData Real) → List Command → List (ServerStatusData Real)
  since_clear before [] = before
  since_clear before (packet now json ∷ cs) = since_clear (before ++ server_of now json) cs
  since_clear before (clears ∷ cs) = since_clear [] cs

  update-history :
      (now : ℤ) (s : Store j) (json : Text) (before : List (ServerStatusData Real))
      → s.history ≡ trim max_statuses before
      → (update_from_json j now s json).0.history ≡ trim max_statuses (before ++ server_of now json)
  unfolding update_from_json server_of kept
  update-history now s json before h = elim (Bool-cases (is_object (parse json))) [
    | inr o ↦ rw (update_from_json, server_of, o) same
    | inl o ↦ elim (Option-cases (read_status j now (parse json))) [
      | inl r ↦ rw (update_from_json, server_of, o, r) same
      | inr (status, r) ↦ rw (update_from_json, server_of, o, r) (pushed status.available status)
    ]
  ]
    where
      same : s.history ≡ trim max_statuses (before ++ [])
      same = h ∙ ap (trim max_statuses) (sym (append-nil before))

      short : length s.history ≤ max_statuses
      short = subst (λ l. length l ≤ max_statuses) (sym h) (length-trim max_statuses before)

      pushed :
          (b : Bool) (status : ServerStatusData Real)
          → (if b then push_recent max_statuses s.history status else s.history)
            ≡ trim max_statuses (before ++ (if b then status ∷ [] else []))
      pushed true status =
          push_recent-trim max_statuses s.history status short
          ∙ ap (λ l. trim max_statuses (l ++ status ∷ [])) h
          ∙ trim-append max_statuses before (status ∷ [])
      pushed false status = same

  run-trim :
      (cs : List Command) (s : Store j) (before : List (ServerStatusData Real))
      → s.history ≡ trim max_statuses before
      → (run s cs).history ≡ trim max_statuses (since_clear before cs)
  unfolding run step since_clear clear trim
  run-trim [] s before h = h
  run-trim (packet now json ∷ cs) s before h =
      run-trim cs (update_from_json j now s json).0 (before ++ server_of now json)
        (update-history now s json before h)
  run-trim (clears ∷ cs) s before h = run-trim cs (clear real_zero s) [] refl

  abbrev pub empty_store : Store j
  empty_store = record { status = no_status real_zero; history = [] }

  -- After any sequence of packets, exceptions included, and clears from an empty store: the history has the last 10
  -- of the statuses of the server that the packets have given since the last clear, in their order, and never
  -- more than 10.
  pub run-last :
      (cs : List Command)
      → let all = since_clear [] cs in
        ((run empty_store cs).history ≡ drop (length all - max_statuses) all)
        × (length (run empty_store cs).history ≤ max_statuses)
  unfolding trim
  run-last cs =
      let trimmed = run-trim cs empty_store [] refl in
      (
        trimmed ∙ trim-drop max_statuses (since_clear [] cs),
        subst (λ l. length l ≤ max_statuses) (sym trimmed)
            (length-trim max_statuses (since_clear [] cs)),
      )
