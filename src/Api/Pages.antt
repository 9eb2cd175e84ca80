-- ===== src/Api/Pages.antt =====
-- The pages of `list_extracts`, one after the other.

use mathlib.Core.Path.{subst}
use data_nexus.Prelude.{
  ℕ, zero, suc, ◌+◌, ◌-◌, ◌≤◌, ◌<◌, String, Bool, true, ◌≡◌, ap, Option, some, List, [], ◌∷◌,
  filter, take, length, length-take, get_elem?, leb, ltb, ltb→lt, ◌==◌, string_eq, arith,
  Bool-cases, Option-cases, inl, inr, if_rule,
}
use data_nexus.Prelude.Lists.{All, All-filter}
use data_nexus.Storage.Rows.{ExtractRow, Storage}
use data_nexus.Storage.Listing.{
  ListQuery, fund_passes, given_time, insert_newest, list_extracts, newest_first, selected,
}
use data_nexus.Api.Listing.{cut, page}

-- No row of a list was created after one that stands before it.
abbrev pub Newest : List ExtractRow → Type 0
Newest [] = Unit
Newest (r ∷ l) = All (λ x. x.created_at ≤ r.created_at) l × Newest l

module _ (P : ExtractRow → Type 0) where
  All-insert_newest :
      (r : ExtractRow) (l : List ExtractRow) → P r → All P l → All P (insert_newest r l)
  unfolding insert_newest
  All-insert_newest r [] h v = (h, tt)
  All-insert_newest r (x ∷ l) h v =
      if_rule (All P) (leb x.created_at r.created_at) (λ _. (h, v))
        (λ _. (v.0, All-insert_newest r l h v.1))

  All-newest_first : (l : List ExtractRow) → All P l → All P (newest_first l)
  unfolding newest_first
  All-newest_first [] h = tt
  All-newest_first (r ∷ l) h = All-insert_newest r (newest_first l) h.0 (All-newest_first l h.1)

  All-take : (n : ℕ) (l : List ExtractRow) → All P l → All P (take n l)
  All-take zero l h = tt
  All-take (suc n) [] h = tt
  All-take (suc n) (x ∷ l) h = (h.0, All-take n l h.1)

All-older :
    (a b : ℕ) (l : List ExtractRow)
    → a ≤ b
    → All (λ x. x.created_at ≤ a) l
    → All (λ x. x.created_at ≤ b) l
All-older a b [] h v = tt
All-older a b (x ∷ l) h v = (omega (arith, v.0), All-older a b l h v.1)

Newest-insert : (r : ExtractRow) (l : List ExtractRow) → Newest l → Newest (insert_newest r l)
unfolding insert_newest
Newest-insert r [] h = (tt, tt)
Newest-insert r (x ∷ l) h =
    if_rule Newest (leb x.created_at r.created_at)
      (λ e.
        let le : x.created_at ≤ r.created_at = ground arith in
        ((le, All-older x.created_at r.created_at l le h.0), h))
      (λ e.
        let le : r.created_at ≤ x.created_at = ground arith in
        (All-insert_newest (λ y. y.created_at ≤ x.created_at) r l le h.0, Newest-insert r l h.1))

Newest-newest_first : (l : List ExtractRow) → Newest (newest_first l)
unfolding newest_first
Newest-newest_first [] = tt
Newest-newest_first (r ∷ l) = Newest-insert r (newest_first l) (Newest-newest_first l)

Newest-filter : (p : ExtractRow → Bool) (l : List ExtractRow) → Newest l → Newest (filter p l)
Newest-filter p [] h = tt
Newest-filter p (x ∷ l) h =
    if_rule Newest (p x)
      (λ _. (All-filter (λ y. y.created_at ≤ x.created_at) p l h.0, Newest-filter p l h.1))
      (λ _. Newest-filter p l h.1)

Newest-take : (n : ℕ) (l : List ExtractRow) → Newest l → Newest (take n l)
Newest-take zero l h = tt
Newest-take (suc n) [] h = tt
Newest-take (suc n) (x ∷ l) h =
    (All-take (λ y. y.created_at ≤ x.created_at) n l h.0, Newest-take n l h.1)

All-get :
    (t n : ℕ) (l : List ExtractRow) {x : ExtractRow}
    → All (λ r. r.created_at ≤ t) l
    → get_elem? l n ≡ some x
    → x.created_at ≤ t
All-get t n [] h e = absurd (cc)
All-get t zero (y ∷ l) {x} h e =
    let same : y ≡ x = cc in subst (λ (r : ExtractRow). r.created_at ≤ t) same h.0
All-get t (suc n) (y ∷ l) h e = All-get t n l h.1 e

-- No row up to a place is older than the row at that place.
get_elem?-take :
    (n : ℕ) (l : List ExtractRow) {x : ExtractRow}
    → Newest l
    → get_elem? l n ≡ some x
    → All (λ r. x.created_at ≤ r.created_at) (take (suc n) l)
get_elem?-take n [] h e = tt
get_elem?-take zero (y ∷ l) {x} h e =
    let same : y ≡ x = cc in
    let t : y.created_at ≡ x.created_at = ap (λ (r : ExtractRow). r.created_at) same in
    (omega (arith, t), tt)
get_elem?-take (suc n) (y ∷ l) {x} h e = (All-get y.created_at n l h.0 e, get_elem?-take n l h.1 e)

All-ltb :
    (c : ℕ) (l : List ExtractRow)
    → All (λ r. ltb r.created_at c ≡ true) l
    → All (λ r. r.created_at < c) l
All-ltb c [] h = tt
All-ltb c (x ∷ l) h = (ltb→lt x.created_at c h.0, All-ltb c l h.1)

-- What a page shows: rows of the application, no more of them than the limit, the newest first,
-- and all of them older than the cursor of the request.
pub record Shown (app : String) (q : ListQuery) (rows : List ExtractRow) : Type 0 where
  pub own : All (λ r. (r.app_id == app) ≡ true) rows
  pub few : length rows ≤ q.limit
  pub newest : Newest rows
  pub older : All (λ r. given_time q.cursor (λ t. ltb r.created_at t) ≡ true) rows

module _ (P : ExtractRow → Type 0) where
  All-cut : (limit : ℕ) (rows : List ExtractRow) → All P rows → All P (cut limit rows).0
  unfolding cut
  All-cut limit rows h =
      if_rule (λ (x : List ExtractRow × Option ℕ). All P x.0) (ltb limit (length rows))
        (λ _. All-take P limit rows h) (λ _. h)

  All-selected :
      (app : String) (q : ListQuery) (l : List ExtractRow)
      → ((r : ExtractRow) → selected app q r ≡ true → P r)
      → All P (filter (selected app q) l)
  All-selected app q [] h = tt
  All-selected app q (r ∷ l) h =
      if_rule (All P) (selected app q r) (λ e. (h r e, All-selected app q l h))
        (λ _. All-selected app q l h)

  All-list_extracts :
      (app : String) (q : ListQuery) (s : Storage)
      → ((r : ExtractRow) → selected app q r ≡ true → P r)
      → All P (list_extracts app q s)
  unfolding list_extracts
  All-list_extracts app q s h =
      All-filter P (fund_passes q.fund_id) _
        (All-take P (q.limit + 1) _ (All-newest_first P _ (All-selected app q s.extracts h)))

Newest-list_extracts : (app : String) (q : ListQuery) (s : Storage) → Newest (list_extracts app q s)
unfolding list_extracts
Newest-list_extracts app q s =
    Newest-filter (fund_passes q.fund_id) _
      (Newest-take (q.limit + 1) _ (Newest-newest_first (filter (selected app q) s.extracts)))

length-cut : (limit : ℕ) (rows : List ExtractRow) → length (cut limit rows).0 ≤ limit
unfolding cut
length-cut limit rows =
    if_rule (λ (x : List ExtractRow × Option ℕ). length x.0 ≤ limit) (ltb limit (length rows))
      (λ _. omega (arith, length-take limit rows)) (λ e. ground arith)

Newest-cut : (limit : ℕ) (rows : List ExtractRow) → Newest rows → Newest (cut limit rows).0
unfolding cut
Newest-cut limit rows h =
    if_rule (λ (x : List ExtractRow × Option ℕ). Newest x.0) (ltb limit (length rows))
      (λ _. Newest-take limit rows h) (λ _. h)

-- The cursor of a page is no later than its rows.
cut-cursor :
    (limit : ℕ) (rows : List ExtractRow) {c : ℕ}
    → Newest rows
    → (cut limit rows).1 ≡ some c
    → All (λ r. c ≤ r.created_at) (cut limit rows).0
unfolding cut
cut-cursor limit rows {c} h e = elim (Bool-cases (ltb limit (length rows))) [
  | inr last ↦ let no_cursor = rw last at e in cc
  | inl more ↦ elim (Option-cases (get_elem? rows (limit - 1))) [
    | inl out ↦ let no_cursor = rw (more, out) at e in cc
    | inr (x, found) ↦
        let at : x.created_at ≡ c = let got = rw (more, found) at e in cc in
        rw (more, ← at) (upto limit x found)
  ]
]
  where
    upto :
        (n : ℕ) (x : ExtractRow)
        → get_elem? rows (n - 1) ≡ some x
        → All (λ r. x.created_at ≤ r.created_at) (take n rows)
    upto zero x found = tt
    upto (suc n) x found =
        get_elem?-take n rows h (let same : suc n - 1 ≡ n = omega arith in rw same at found)

-- A page of the list of an application shows rows of that application only, at most as many as the
-- limit, the newest first, and all of them older than the cursor of the request.
pub page-Shown : (app : String) (q : ListQuery) (s : Storage) → Shown app q (page app q s).0
unfolding page selected
page-Shown app q s = record {
  own =
      All-cut (λ r. (r.app_id == app) ≡ true) q.limit (list_extracts app q s)
        (All-list_extracts (λ r. (r.app_id == app) ≡ true) app q s (λ r e. ground arith));
  few = length-cut q.limit (list_extracts app q s);
  newest = Newest-cut q.limit (list_extracts app q s) (Newest-list_extracts app q s);
  older =
      All-cut (λ r. given_time q.cursor (λ t. ltb r.created_at t) ≡ true) q.limit
        (list_extracts app q s)
        (All-list_extracts (λ r. given_time q.cursor (λ t. ltb r.created_at t) ≡ true) app q s
          (λ r e. ground arith));
}

-- When a page has a cursor for the next one, every row of the next page, whatever has happened in
-- between, is older than the cursor, and so than every row of the page: no row is shown twice.
pub next_page_older :
    (app : String) (q : ListQuery) (s later : Storage) {c : ℕ}
    → (page app q s).1 ≡ some c
    → All (λ r. c ≤ r.created_at) (page app q s).0
      × All (λ r. r.created_at < c) (page app (record q { cursor = some c }) later).0
unfolding page
next_page_older app q s later {c} e = (
  cut-cursor q.limit (list_extracts app q s) (Newest-list_extracts app q s) e,
  All-ltb c (page app (record q { cursor = some c }) later).0
      (page-Shown app (record q { cursor = some c }) later).older,
)
