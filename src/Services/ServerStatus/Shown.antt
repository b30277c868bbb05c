-- ===== src/Services/ServerStatus/Shown.antt =====
-- The history that the model shows.
use mathlib.Core.List.{append-nil, append_assoc}
use with_boost.Common.{
  ◌≡◌, ◌≤◌, sym, ap, ◌∙◌, subst, Bool, true, false, List, [], ◌∷◌, ◌++◌, Text, length,
  if◌then◌else◌,
}
use with_boost.Domain.Device.{trim}
use with_boost.Domain.Device.History.{length-trim, trim-append, trim-short}
use with_boost.Domain.ServerStatus.{ServerStatusData, push_recent}
use with_boost.Domain.ServerStatus.History.{push_recent-trim}
use with_boost.Services.ServerStatus.{
  ServerStatusModel, HistoryEntry, max_shown, history_entry, on_store_updated, get_server_history,
}

module _ {R : Type 0} (from_std : Text → Text) where
  pub on_statuses : ServerStatusModel R → List (ServerStatusData R) → ServerStatusModel R
  on_statuses m [] = m
  on_statuses m (s ∷ ss) = on_statuses (on_store_updated from_std s m).0 ss

  -- The entries of the statuses that have the data of the server.
  pub entries : List (ServerStatusData R) → List (HistoryEntry R)
  entries [] = []
  entries (s ∷ ss) = (if s.available then history_entry s ∷ [] else []) ++ entries ss

  one-trim :
      (b : Bool) (new : HistoryEntry R) (old : List (HistoryEntry R))
      → length old ≤ max_shown
      → (if b then push_recent max_shown old new else old)
        ≡ trim max_shown (old ++ (if b then new ∷ [] else []))
  one-trim true new old h = push_recent-trim max_shown old new h
  one-trim false new old h = sym (ap (trim max_shown) (append-nil old) ∙ trim-short max_shown old h)

  -- A model that shows at most 60 entries gets statuses one after the other: it then shows the last 60 of those that
  -- it had and of one for each status with the data of the server, in their order.
  pub on_statuses-last :
      (ss : List (ServerStatusData R)) (m : ServerStatusModel R)
      → length m.server_history ≤ max_shown
      → get_server_history (on_statuses m ss) ≡ trim max_shown (m.server_history ++ entries ss)
  unfolding on_statuses entries get_server_history on_store_updated
  on_statuses-last [] m h =
      sym (
        ap (trim max_shown) (append-nil m.server_history) ∙ trim-short max_shown m.server_history h)
  on_statuses-last (s ∷ ss) m h =
      let new = if s.available then history_entry s ∷ [] else [] in
      let first = one-trim s.available (history_entry s) m.server_history h in
      on_statuses-last ss (on_store_updated from_std s m).0 (
        subst (λ l. length l ≤ max_shown) (sym first)
          (length-trim max_shown (m.server_history ++ new)))
      ∙ ap (λ l. trim max_shown (l ++ entries ss)) first
      ∙ trim-append max_shown (m.server_history ++ new) (entries ss)
      ∙ ap (trim max_shown) (append_assoc m.server_history new (entries ss))
