-- ===== src/Migration/Files/Laws.antt =====
-- `List` gives each version that an up file names once, in the order of the numbers.
use Prim.Native.Char.{Char}
use Prim.Native.String
use app_module_sdk.Base.{
  ℕ, String, ◌≡◌, refl, sym, ap, ◌∙◌, subst, ◌≢◌, Bool, true, false, ◌&&◌, ◌||◌, not, Option, none,
  some, List, [], ◌∷◌, map, ◌==◌, arith, inl, inr, eq_iff, Bool-cases, Option-cases, is_some,
  if◌then◌else◌,
}
use app_module_sdk.Base.Dict.{Dict, lookup, IsDistinct, put-IsDistinct, lookup-put}
use app_module_sdk.Base.Int.{ℤ, pos, ◌≤ℤ◌}
use app_module_sdk.Base.Atoi.{is_digit, value, digits, non_negative, parse_int, atoi_value}
use app_module_sdk.Migration.{Migration, ok}
use app_module_sdk.Migration.Window.{IsAscending}
use app_module_sdk.Migration.Files.{
  Scope, dir, span_digits, after_digits, match_name, parse_up_filename, parse_down_filename,
  DirEntry, Found, nothing_found, found_up, found_down, scan_entry, scan, build, entries, count,
  IsAscendingText, VersionSort, list_found, list,
}

non_negative-nonneg : (o : Option ℕ) → pos 0 ≤ℤ value (non_negative o)
non_negative-nonneg none = omega arith
non_negative-nonneg (some n) = ground arith

-- A text that begins with a digit is no negative number.
digit_nonneg : (c : Char) (s : String) → is_digit c ≡ true → pos 0 ≤ℤ atoi_value (String.◌∷◌ c s)
unfolding atoi_value parse_int
digit_nonneg c s h = ground (arith, non_negative-nonneg (digits (String.◌∷◌ c s)))

span_digits-nonneg :
    (s : String) → ((span_digits s).0 == "") ≡ false → pos 0 ≤ℤ atoi_value (span_digits s).0
unfolding span_digits
span_digits-nonneg String.[] h = cc
span_digits-nonneg (String.◌∷◌ c s) h = elim (Bool-cases (is_digit c)) [
  | inl d ↦ rw d (digit_nonneg c (span_digits s).0 d)
  | inr d ↦ absurd (cc (rw d at h))
]

after_digits-nonneg :
    (suffix : String) (p : String × String) {v slug : String}
    → after_digits suffix p ≡ some (v, slug)
    → (v ≡ p.0) × ((p.0 == "") ≡ false)
unfolding after_digits
after_digits-nonneg suffix (ds, String.[]) h = cc
after_digits-nonneg suffix (ds, String.◌∷◌ c rest) h = (ground arith, ground arith)

-- A version that a file name carries is not negative.
parse_up_filename-nonneg :
    (name : String) {v slug : String}
    → parse_up_filename name ≡ some (v, slug)
    → pos 0 ≤ℤ atoi_value v
unfolding parse_up_filename match_name
parse_up_filename-nonneg name {v} h = elim (Option-cases (match_name ".up.sql" name)) [
  | inl e ↦ absurd (cc (rw (e, parse_up_filename) at h))
  | inr ((w, s), e) ↦
      let (same, named) = after_digits-nonneg ".up.sql" (span_digits name) e in
      let here : w ≡ v = ground arith in
      subst (λ t. pos 0 ≤ℤ atoi_value t) (sym same ∙ here) (span_digits-nonneg name named)
]

-- Some file of the directory is an up file of the version.
abbrev pub names_up : String → Option (String × String) → Bool
names_up v none = false
names_up v (some (w, slug)) = w == v

unfoldable pub has_up_file : String → List DirEntry → Bool
has_up_file v [] = false
has_up_file v (e ∷ es) = (not e.is_dir && names_up v (parse_up_filename e.name)) || has_up_file v es

scan_entry-up :
    (d v : String) (e : DirEntry) (f : Found)
    → is_some (lookup v (scan_entry d e f).up_files)
      ≡ ((not e.is_dir && names_up v (parse_up_filename e.name)) || is_some (lookup v f.up_files))
unfolding scan_entry found_up found_down
scan_entry-up d v e f = elim (Bool-cases e.is_dir) [
  | inl folder ↦ rw (folder, scan_entry)
  | inr file ↦ elim (Option-cases (parse_up_filename e.name)) [
    | inr ((w, slug), up) ↦
        let path = String.◌++◌ d (String.◌++◌ "/" e.name) in
        rw (file, up, scan_entry) (ground (arith, lookup-put w v path f.up_files, eq_iff w v))
    | inl other ↦ elim (Option-cases (parse_down_filename e.name)) [
      | inl e' ↦ ground arith
      | inr (w, down) ↦ ground arith
    ]
  ]
]

count-keys :
    (v : String) (m : Dict String)
    → IsDistinct m
    → count v (map (λ p. p.0) m) ≡ (if is_some (lookup v m) then 1 else 0)
unfolding count lookup
count-keys v [] h = refl
count-keys v ((k, w) ∷ m) (new, h) = ground (arith, count-keys v m h, eq_iff k v)

-- The keys of the first pass are distinct, not negative, and those that the up files name.
record IsScan (f : Found) : Type 0 where
  distinct : IsDistinct f.up_files
  nonneg : (v : String) → lookup v f.up_files ≢ none → pos 0 ≤ℤ atoi_value v

scan_entry-IsScan : (d : String) (e : DirEntry) (f : Found) → IsScan f → IsScan (scan_entry d e f)
unfolding scan_entry found_up found_down
scan_entry-IsScan d e f h = elim (Bool-cases e.is_dir) [
  | inl folder ↦ rw (folder, scan_entry) h
  | inr file ↦ elim (Option-cases (parse_up_filename e.name)) [
    | inr ((w, slug), up) ↦
        let path = String.◌++◌ d (String.◌++◌ "/" e.name) in
        rw (file, up, scan_entry)
          (record {
            distinct = put-IsDistinct w path f.up_files h.distinct;
            nonneg = λ v n. ground (
              arith,
              lookup-put w v path f.up_files,
              eq_iff w v,
              h.nonneg v,
              parse_up_filename-nonneg e.name up,
            );
          })
    | inl other ↦ elim (Option-cases (parse_down_filename e.name)) [
      | inl e' ↦ rw (file, other, e', scan_entry) h
      | inr (w, down) ↦
          rw (file, other, down, scan_entry) (record { distinct = h.distinct; nonneg = h.nonneg })
    ]
  ]
]

scan-IsScan : (d : String) (es : List DirEntry) (f : Found) → IsScan f → IsScan (scan d es f)
unfolding scan
scan-IsScan d [] f h = h
scan-IsScan d (e ∷ es) f h = scan-IsScan d es (scan_entry d e f) (scan_entry-IsScan d e f h)

scan-up :
    (d v : String) (es : List DirEntry) (f : Found)
    → is_some (lookup v (scan d es f).up_files)
      ≡ (has_up_file v es || is_some (lookup v f.up_files))
unfolding scan has_up_file
scan-up d v [] f = refl
scan-up d v (e ∷ es) f = ground (arith, scan-up d v es (scan_entry d e f), scan_entry-up d v e f)

versions-build : (f : Found) (vs : List String) → map (λ m. m.version) (map (build f) vs) ≡ vs
unfolding build
versions-build f [] = refl
versions-build f (v ∷ vs) = ap (◌∷◌ v) (versions-build f vs)

IsAscending-build :
    (f : Found) (lo : ℤ) (vs : List String)
    → IsAscendingText lo vs
    → IsAscending lo (map (build f) vs)
unfolding build
IsAscending-build f lo [] h = tt
IsAscending-build f lo (v ∷ vs) (p, h) = (p, IsAscending-build f (atoi_value v) vs h)

start-IsScan : IsScan nothing_found
unfolding lookup
start-IsScan = record { distinct = tt; nonneg = λ v n. absurd (n refl) }

same_count :
    (v : String) (m : Dict String) (b : Bool)
    → is_some (lookup v m) ≡ (b || is_some (lookup {V = String} v []))
    → ◌≡◌ {A = ℕ} (if is_some (lookup v m) then 1 else 0) (if b then 1 else 0)
unfolding lookup
same_count v m b h = ground arith

module _ (sort : VersionSort) (scope : Scope) (es : List DirEntry) where
  -- Whatever the order of the directory and of the map, the migrations come in the order of their
  -- numbers, none of them negative, and each version that an up file names stands there exactly
  -- once, and no other.
  pub list_lem :
      (ms : List Migration) × (list sort scope (entries es) ≡ ok ms)
      × IsAscending (pos 0) ms
      × ((v : String) → count v (map (λ m. m.version) ms) ≡ (if has_up_file v es then 1 else 0))
  unfolding list list_found
  list_lem =
      let f = scan (dir scope) es nothing_found in
      let ok_scan = scan-IsScan (dir scope) es nothing_found start-IsScan in
      let keys = map (λ (p : String × String). p.0) f.up_files in
      (
        map (build f) (sort.sorted keys),
        refl,
        IsAscending-build f (pos 0) (sort.sorted keys) (
            sort.ascends keys (pos 0) (λ v n.
              ok_scan.nonneg v (λ gone. n (count-keys v f.up_files ok_scan.distinct ∙ rw gone)))),
        λ v. rw (versions-build f (sort.sorted keys)) (
            sort.keeps v keys
            ∙ count-keys v f.up_files ok_scan.distinct
            ∙ same_count v f.up_files (has_up_file v es) (scan-up (dir scope) v es nothing_found)),
      )
