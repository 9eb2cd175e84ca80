-- ===== src/Storage/Lookup.antt =====
-- How the queries of class `Storage` see its updates.
use data_nexus.Prelude.{
  ℕ, ◌+◌, ◌≤◌, String, Bool, true, some, List, [], ◌∷◌, ◌++◌, ◌≡◌, refl, ◌==◌, string_eq, nat_eq,
  find, filter, length, leb, eq_iff, if◌then◌else◌, arith,
}
use mathlib.Core.Option
use data_nexus.Models.Enums.{status_eq}
use data_nexus.Storage.Rows.{ExtractRow, RateLimitEvent, Storage}
use data_nexus.Storage.Apps.{count_rl_events, in_window, prune_rl_events, record_rl_event}
use data_nexus.Storage.Extracts.{Changes, apply_changes, get_extract, update_extract, update_rows}

find-update_rows :
    (id j : String) (f : ExtractRow → ExtractRow) (rows : List ExtractRow)
    → ((r : ExtractRow) → (f r).extract_id ≡ r.extract_id)
    → find (λ r. r.extract_id == j) (update_rows id f rows) ≡ (
        if id == j
        then Option.map f (find (λ r. r.extract_id == j) rows)
        else find (λ r. r.extract_id == j) rows)
unfolding update_rows
find-update_rows id j f [] keep = ground arith
find-update_rows id j f (r ∷ rows) keep = ground (
  arith,
  find-update_rows id j f rows keep,
  keep r,
  eq_iff r.extract_id id,
  eq_iff r.extract_id j,
  eq_iff id j,
)

-- An update is seen at its own key, and at no other.
pub get_extract-update :
    (now : ℕ) (id j : String) (c : Changes) (s : Storage)
    → get_extract j (update_extract now id c s)
      ≡ (if id == j then Option.map (apply_changes now c) (get_extract j s) else get_extract j s)
unfolding get_extract update_extract
get_extract-update now id j c s = find-update_rows id j (apply_changes now c) s.extracts (λ r. refl)

-- What is found has the key that was looked for.
find-key :
    (id : String) (rows : List ExtractRow) {r : ExtractRow}
    → find (λ x. x.extract_id == id) rows ≡ some r
    → r.extract_id ≡ id
find-key id [] h = cc
find-key id (x ∷ rows) {r} h = ground (arith, find-key id rows {r = r}, eq_iff x.extract_id id)

pub get_extract-key :
    (id : String) (s : Storage) {r : ExtractRow} → get_extract id s ≡ some r → r.extract_id ≡ id
unfolding get_extract
get_extract-key id s h = find-key id s.extracts h

filter-filter :
    (p q : RateLimitEvent → Bool) (l : List RateLimitEvent)
    → ((e : RateLimitEvent) → p e ≡ true → q e ≡ true)
    → length (filter p (filter q l)) ≡ length (filter p l)
filter-filter p q [] h = refl
filter-filter p q (e ∷ l) h = ground (arith, filter-filter p q l h, h e)

in_window-leb :
    (app kind : String) (since before : ℕ) (e : RateLimitEvent)
    → before ≤ since
    → in_window app kind since e ≡ true
    → leb before e.ts ≡ true
in_window-leb app kind since before e h p = ground arith

-- Pruning what is older than a window does not change its count.
pub count-prune :
    (app kind : String) (since before : ℕ) (s : Storage)
    → before ≤ since
    → count_rl_events app kind since (prune_rl_events before s) ≡ count_rl_events app kind since s
unfolding count_rl_events prune_rl_events
count-prune app kind since before s h =
    filter-filter (in_window app kind since) (λ e. leb before e.ts) s.rate_limit_events
      (λ e. in_window-leb app kind since before e h)

length-filter-append :
    (p : RateLimitEvent → Bool) (l : List RateLimitEvent) (e : RateLimitEvent)
    → length (filter p (l ++ e ∷ [])) ≡ length (filter p l) + (if p e then 1 else 0)
length-filter-append p [] e = ground arith
length-filter-append p (x ∷ l) e = ground (arith, length-filter-append p l e)

pub count-record :
    (app kind app' kind' : String) (since t : ℕ) (s : Storage)
    → count_rl_events app kind since (record_rl_event app' kind' t s)
      ≡ count_rl_events app kind since s
        + (if in_window app kind since (record { app_id = app'; kind = kind'; ts = t })
            then 1
            else 0)
unfolding count_rl_events record_rl_event
count-record app kind app' kind' since t s =
    length-filter-append (in_window app kind since) s.rate_limit_events
      (record { app_id = app'; kind = kind'; ts = t })

filter-later :
    (app kind : String) (a b : ℕ) (l : List RateLimitEvent)
    → a ≤ b
    → length (filter (in_window app kind b) l) ≤ length (filter (in_window app kind a) l)
filter-later app kind a b [] h = omega arith
filter-later app kind a b (e ∷ l) h = ground (arith, filter-later app kind a b l h)

-- A window that starts later holds no more.
pub count-later :
    (app kind : String) (a b : ℕ) (s : Storage)
    → a ≤ b
    → count_rl_events app kind b s ≤ count_rl_events app kind a s
unfolding count_rl_events
count-later app kind a b s h = filter-later app kind a b s.rate_limit_events h
