-- ===== src/Webhooks/Rounds.antt =====
-- The loops of `RetentionSweeper.run_once` over the rows of a query.

use mathlib.Core.Path.{subst}
use data_nexus.Prelude.{
  find, ℕ, ◌+◌, String, Bool, true, false, ◌&&◌, ◌||◌, ◌≡◌, refl, sym, ap, ◌∙◌, some, List, [], ◌∷◌,
  filter, map, any, ◌==◌, string_eq, eq_iff, if◌then◌else◌, arith, Bool-cases, if_rule, inl, inr,
}
use data_nexus.Prelude.Lists.{All}
use data_nexus.Models.Enums.{ExtractStatus, status_eq}
use data_nexus.Storage.Rows.{ExtractRow}
use data_nexus.Storage.Extracts.{
  Changes, apply_changes, due, get_extract, update_extract, update_rows,
}
use data_nexus.Storage.Lookup.{get_extract-update}
use data_nexus.Service.{Service, now}
use data_nexus.Webhooks.Sweeper.{for_each, warn_window}

-- The tests of the two queries.
abbrev pub expiring_soon : ℕ → ExtractRow → Bool
expiring_soon t r =
    r.status == ExtractStatus.completed
    && (if r.expiring_event_sent then false else true)
    && due (t + warn_window) r.expires_at

abbrev pub expired_by : ℕ → ExtractRow → Bool
expired_by t r =
    (r.status == ExtractStatus.completed || r.status == ExtractStatus.partial) && due t r.expires_at

abbrev pub named : String → ExtractRow → Bool
named id r = r.extract_id == id

-- Every row that passes has the key of one in the list.
abbrev pub Covers : (ExtractRow → Bool) → List ExtractRow → List ExtractRow → Type 0
Covers q todo rows = All (λ r. q r ≡ true → any (named r.extract_id) todo ≡ true) rows

pub Covers-more :
    (q : ExtractRow → Bool) (x : ExtractRow) (todo rows : List ExtractRow)
    → Covers q todo rows
    → Covers q (x ∷ todo) rows
Covers-more q x todo [] h = tt
Covers-more q x todo (r ∷ rows) h =
    (λ e. let rest = h.0 e in ground arith, Covers-more q x todo rows h.1)

pub Covers-filter : (q : ExtractRow → Bool) (rows : List ExtractRow) → Covers q (filter q rows) rows
Covers-filter q [] = tt
Covers-filter q (r ∷ rows) =
    if_rule (λ (l : List ExtractRow). Covers q l (r ∷ rows)) (q r)
      (λ e. (
        λ _. ground (arith, eq_iff r.extract_id r.extract_id),
        Covers-more q r _ rows (Covers-filter q rows),
      ))
      (λ e. (λ d. cc, Covers-filter q rows))

pub filter-Covers :
    (q : ExtractRow → Bool) (rows : List ExtractRow) → Covers q [] rows → filter q rows ≡ []
filter-Covers q [] h = refl
filter-Covers q (r ∷ rows) h = elim (Bool-cases (q r)) [
  | inl e ↦ let impossible = h.0 e in cc
  | inr e ↦ rw e (filter-Covers q rows h.1)
]

module _ (q : ExtractRow → Bool) (id : String) (f : ExtractRow → ExtractRow)
    (marks : (r : ExtractRow) → q (f r) ≡ false) where
  pub Covers-update :
      (x : ExtractRow) (todo rows : List ExtractRow)
      → x.extract_id ≡ id
      → Covers q (x ∷ todo) rows
      → Covers q todo (update_rows id f rows)
  unfolding update_rows
  Covers-update x todo [] same h = tt
  Covers-update x todo (r ∷ rows) same h = elim (Bool-cases (r.extract_id == id)) [
    | inl e ↦ rw e (λ d. let m = marks r in cc, Covers-update x todo rows same h.1)
    | inr e ↦ rw e (
      λ d.
          let listed = h.0 d in
          ground (arith, eq_iff r.extract_id id, eq_iff x.extract_id r.extract_id),
      Covers-update x todo rows same h.1,
    )
  ]

  pub Covers-keep :
      (todo rows : List ExtractRow) → Covers q todo rows → Covers q todo (update_rows id f rows)
  unfolding update_rows
  Covers-keep todo [] h = tt
  Covers-keep todo (r ∷ rows) h = elim (Bool-cases (r.extract_id == id)) [
    | inl e ↦ rw e (λ d. let m = marks r in cc, Covers-keep todo rows h.1)
    | inr e ↦ rw e (h.0, Covers-keep todo rows h.1)
  ]

-- A loop whose body updates the row of its argument, in time that stands still.
pub record Updates (g : ExtractRow → Service → Service) (c : Changes) : Type 0 where
  pub extracts :
      (x : ExtractRow) (s : Service)
      → (g x s).storage.extracts
        ≡ update_rows x.extract_id (apply_changes (now s) c) s.storage.extracts
  pub time : (x : ExtractRow) (s : Service) → (g x s).time ≡ s.time

module _ (g : ExtractRow → Service → Service) (c : Changes) (v : Updates g c) where
  pub time-for_each : (todo : List ExtractRow) (s : Service) → (for_each g todo s).time ≡ s.time
  unfolding for_each
  time-for_each [] s = refl
  time-for_each (x ∷ todo) s = time-for_each todo (g x s) ∙ v.time x s

  module _ (q : ExtractRow → Bool)
      (marks : (t : ℕ) (r : ExtractRow) → q (apply_changes t c r) ≡ false) where
    pub Covers-for_each :
        (todo : List ExtractRow) (s : Service)
        → Covers q todo s.storage.extracts
        → Covers q [] (for_each g todo s).storage.extracts
    unfolding for_each
    Covers-for_each [] s h = h
    Covers-for_each (x ∷ todo) s h = Covers-for_each todo (g x s) (
        subst (Covers q todo) (sym (v.extracts x s)) (
          Covers-update q x.extract_id (apply_changes (now s) c) (marks (now s)) x todo
            s.storage.extracts refl h))

    pub none-for_each :
        (todo : List ExtractRow) (s : Service)
        → Covers q [] s.storage.extracts
        → Covers q [] (for_each g todo s).storage.extracts
    unfolding for_each
    none-for_each [] s h = h
    none-for_each (x ∷ todo) s h = none-for_each todo (g x s) (
        subst (Covers q []) (sym (v.extracts x s)) (
          Covers-keep q x.extract_id (apply_changes (now s) c) (marks (now s)) [] s.storage.extracts
            h))

pub get_extract-for_each :
    (g : ExtractRow → Service → Service) (c : Changes)
    → Updates g c
    → (id : String) (todo : List ExtractRow) (s : Service) → any (named id) todo ≡ false
    → get_extract id (for_each g todo s).storage ≡ get_extract id s.storage
unfolding for_each get_extract update_extract
get_extract-for_each g c v id [] s h = refl
get_extract-for_each g c v id (x ∷ todo) s h =
    let kept = get_extract-update (now s) x.extract_id id c s.storage in
    let other : (x.extract_id == id) ≡ false = ground arith in
    get_extract-for_each g c v id todo (g x s) (ground arith)
    ∙ ap (find (named id)) (v.extracts x s)
    ∙ (rw other at kept)

-- A test that an update does not change passes the same names before and after it.
pub any-filter-update :
    (q : ExtractRow → Bool) (id j : String) (t : ℕ) (c : Changes) (rows : List ExtractRow)
    → ((r : ExtractRow) → q (apply_changes t c r) ≡ q r)
    → any (named j) (filter q (update_rows id (apply_changes t c) rows))
      ≡ any (named j) (filter q rows)
unfolding update_rows apply_changes
any-filter-update q id j t c [] same = refl
any-filter-update q id j t c (r ∷ rows) same =
    ground (arith, any-filter-update q id j t c rows same, same r)

pub any-filter-for_each :
    (g : ExtractRow → Service → Service) (c : Changes)
    → Updates g c
    → (q : ExtractRow → Bool) → ((t : ℕ) (r : ExtractRow) → q (apply_changes t c r) ≡ q r)
    → (j : String) (todo : List ExtractRow) (s : Service)
    → any (named j) (filter q (for_each g todo s).storage.extracts)
      ≡ any (named j) (filter q s.storage.extracts)
unfolding for_each
any-filter-for_each g c v q same j [] s = refl
any-filter-for_each g c v q same j (x ∷ todo) s =
    any-filter-for_each g c v q same j todo (g x s)
    ∙ ap (λ l. any (named j) (filter q l)) (v.extracts x s)
    ∙ any-filter-update q x.extract_id j (now s) c s.storage.extracts (same (now s))

-- What is to be deleted of a row.
abbrev pub place : ExtractRow → String × String
place r = (r.extract_id, r.domain)

map-filter-update :
    (q : ExtractRow → Bool) (id : String) (t : ℕ) (c : Changes) (rows : List ExtractRow)
    → ((r : ExtractRow) → q (apply_changes t c r) ≡ q r)
    → map place (filter q (update_rows id (apply_changes t c) rows)) ≡ map place (filter q rows)
unfolding update_rows apply_changes
map-filter-update q id t c [] same = refl
map-filter-update q id t c (r ∷ rows) same =
    ground (arith, map-filter-update q id t c rows same, same r)

pub map-filter-for_each :
    (g : ExtractRow → Service → Service) (c : Changes)
    → Updates g c
    → (q : ExtractRow → Bool) → ((t : ℕ) (r : ExtractRow) → q (apply_changes t c r) ≡ q r)
    → (todo : List ExtractRow) (s : Service)
    → map place (filter q (for_each g todo s).storage.extracts)
      ≡ map place (filter q s.storage.extracts)
unfolding for_each
map-filter-for_each g c v q same [] s = refl
map-filter-for_each g c v q same (x ∷ todo) s =
    map-filter-for_each g c v q same todo (g x s)
    ∙ ap (λ l. map place (filter q l)) (v.extracts x s)
    ∙ map-filter-update q x.extract_id (now s) c s.storage.extracts (same (now s))

pub present-for_each :
    (g : ExtractRow → Service → Service) (c : Changes)
    → Updates g c
    → (id : String) (todo : List ExtractRow) (s : Service) {row : ExtractRow}
    → get_extract id s.storage ≡ some row
    → (row' : ExtractRow) × (get_extract id (for_each g todo s).storage ≡ some row')
unfolding for_each get_extract update_extract
present-for_each g c v id [] s {row} found = (row, found)
present-for_each g c v id (x ∷ todo) s {row} found =
    let kept =
      ap (find (named id)) (v.extracts x s)
      ∙ get_extract-update (now s) x.extract_id id c s.storage in
    elim (Bool-cases (x.extract_id == id)) [
      | inl same ↦
          present-for_each g c v id todo (g x s) {row = apply_changes (now s) c row}
            (rw (same, found) at kept)
      | inr other ↦ present-for_each g c v id todo (g x s) (rw (other, found) at kept)
    ]
