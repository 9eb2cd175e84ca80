-- ===== src/ObjectStore/Publishing.antt =====
-- What staging, promotion and removal do to the files that a reader finds.
use text.Mathlib.TextPositions.{eq_refl}
use data_nexus.Prelude.{
  ℕ, String, Bool, true, false, not, ◌≡◌, refl, none, some, List, [], ◌∷◌, ◌++◌, filter, find, ◌==◌,
  string_eq, eq_iff, if◌then◌else◌, arith,
}
use data_nexus.Prelude.Dict.{Dict, lookup, insert, lookup-insert}
use data_nexus.Platform.{Platform}
use data_nexus.ObjectStore.Files.{
  Content, Manifest, ObjectStore, Published, at_path, file_path, files_of, find_published,
  is_published, manifest, marker, move, promote, stage, staged, without, write_manifest,
}

-- A file under a staging prefix is what was last written to its name.
pub staged-stage :
    (id name : String) (c : Content) (s : ObjectStore)
    → staged id (stage id name c s) ≡ some (insert name c (files_of (staged id s)))
unfolding stage
staged-stage id name c s = simp (lookup-insert, eq_refl)

pub lookup-without :
    (id j : String) (l : List (String × Dict Content))
    → lookup j (without id l) ≡ (if id == j then none else lookup j l)
unfolding lookup without
lookup-without id j [] = ground arith
lookup-without id j ((i, d) ∷ l) =
    ground (arith, lookup-without id j l, eq_iff i id, eq_iff i j, eq_iff id j)

-- Promotion after a manifest was written cannot fail: writing it creates the staging prefix.
pub promote-write_manifest :
    (p : Platform) (now : ℕ) (id domain : String) (m : Manifest) (s : ObjectStore)
    → promote p now id domain (write_manifest id m s)
      ≡ some (
          move id domain
            (p.year_month now)
            (insert "manifest.json" (manifest m) (files_of (staged id s)))
            (write_manifest id m s))
unfolding promote write_manifest stage
promote-write_manifest p now id domain m s = simp (lookup-insert, eq_refl)

find-none-append :
    (q : Published → Bool) (l : List Published) (x : Published)
    → find q l ≡ none
    → q x ≡ true
    → find q (l ++ x ∷ []) ≡ some x
find-none-append q [] x h e = rw e
find-none-append q (y ∷ l) x h e = ground (arith, find-none-append q l x)

find-filter_none :
    (q r : Published → Bool) (l : List Published) → find q l ≡ none → find q (filter r l) ≡ none
find-filter_none q r [] h = refl
find-filter_none q r (y ∷ l) h = ground (arith, find-filter_none q r l)

is_published_self :
    (id domain ym : String) (files : Dict Content)
    → is_published id domain
        (record { domain = domain; year_month = ym; extract_id = id; files = files })
      ≡ true
is_published_self id domain ym files = ground (arith, eq_iff domain domain, eq_iff id id)

-- Where no directory of the extract was published before, the promoted directory is the one that
-- readers find.
find_published-move :
    (id domain ym : String) (files : Dict Content) (s : ObjectStore)
    → find_published id domain s ≡ none
    → find_published id domain (move id domain ym files s)
      ≡ some (record {
        domain = domain;
        year_month = ym;
        extract_id = id;
        files = insert "_SUCCESS" marker files;
      })
unfolding find_published move
find_published-move id domain ym files s h =
    find-none-append (is_published id domain)
      (filter (λ p. not (at_path domain ym id p)) s.published) _
      (find-filter_none (is_published id domain) (λ p. not (at_path domain ym id p)) s.published h)
      (is_published_self id domain ym files)

-- The name that a reader asks for, in a directory whose marker and manifest are written.
abbrev pub with_manifest : Manifest → Dict Content → Dict Content
with_manifest m files = insert "_SUCCESS" marker (insert "manifest.json" (manifest m) files)

-- After `write_manifest` and `promote`, for an extract that was not published before: every name
-- finds the staged file of that name, `manifest.json` the manifest and `_SUCCESS` the marker; the
-- staging prefix is gone; and the staging prefixes of other extracts are as they were.
pub file_path-promote :
    (p : Platform) (now : ℕ) (id domain : String) (m : Manifest) (s : ObjectStore)
    → find_published id domain s ≡ none
    → (s' : ObjectStore) × (promote p now id domain (write_manifest id m s) ≡ some s')
      × ((name : String)
          → file_path id domain name s' ≡ lookup name (with_manifest m (files_of (staged id s))))
      × (staged id s' ≡ none)
      × ((j : String) → (id == j) ≡ false → staged j s' ≡ staged j s)
unfolding write_manifest stage find_published
file_path-promote p now id domain m s h = (
  move id domain (p.year_month now) (insert "manifest.json" (manifest m) (files_of (staged id s)))
      (write_manifest id m s),
  promote-write_manifest p now id domain m s,
  λ name.
      unfold file_path in
      rw (
        find_published-move id domain (p.year_month now)
          (insert "manifest.json" (manifest m) (files_of (staged id s))) (write_manifest id m s) h),
  unfold move in simp (lookup-without, eq_refl),
  λ j ne. unfold move in simp (lookup-without, lookup-insert, ne),
)
