-- ===== src/Interceptor/Watched.antt =====
-- Which directories cache_watcher of src/interceptor.cc watches: those below the directory of the cache.
use Prim.Native.Nat.{compare, Ordering}
use mathlib.Core.Path.{subst}
use mathlib.Core.List.{append_assoc, append-nil}
use omniprobe.Prelude.{
  ℕ, ◌≡◌, refl, sym, ap, ◌∙◌, Bool, true, false, ◌&&◌, List, [], ◌∷◌, ◌++◌, Option, none, some,
  Bytes, codes, text_eq, if◌then◌else◌, All, All-append, Bool-cases, Option-cases, inl, inr,
}
use omniprobe.Prelude.Maps.{nat_key, lookup, upsert, assign, lookup-All}
use omniprobe.Scope.{ends_with}
use omniprobe.Interceptor.Watcher.{
  Files, Event, has_dir_bit, has_reg_bit, util_is_directory, full_path, directory_entry,
  directory_entries, util_get_directory_files, watch_entries, start_watching, or_empty, entered,
  path_of,
}

-- A path that the directory's path is the beginning of.
abbrev pub Below : Bytes → Bytes → Type 0
Below dir path = (rest : Bytes) × (path ≡ dir ++ rest)

abbrev pub AreBelow : Bytes → List (ℕ × Bytes) → Type 0
AreBelow dir = All (λ (entry : ℕ × Bytes). Below dir entry.1)

Below-append : (dir path rest : Bytes) → Below dir path → Below dir (path ++ rest)
Below-append dir path rest (behind, e) =
    (behind ++ rest, ap (λ p. p ++ rest) e ∙ append_assoc dir behind rest)

upsert-AreBelow :
    (dir : Bytes) (wd : ℕ) (f : Option Bytes → Bytes) (m : List (ℕ × Bytes))
    → Below dir (f (lookup wd m))
    → AreBelow dir m
    → AreBelow dir (upsert wd f m)
unfolding upsert lookup
upsert-AreBelow dir wd f [] new old = (new, tt)
upsert-AreBelow dir wd f ((j, path) ∷ m) new old =
    elim (compare wd j)
        as (λ o.
          Below dir (
            f (elim o [ Ordering.lt ↦ none | Ordering.eq ↦ some path | Ordering.gt ↦ lookup wd m ]))
          → AreBelow dir (elim o [
            | Ordering.lt ↦ (wd, f none) ∷ (j, path) ∷ m
            | Ordering.eq ↦ (j, f (some path)) ∷ m
            | Ordering.gt ↦ (j, path) ∷ upsert wd f m
          ])) [
            | Ordering.lt ↦ λ n. (n, old)
            | Ordering.eq ↦ λ n. (n, old.1)
            | Ordering.gt ↦ λ n. (old.0, upsert-AreBelow dir wd f m n old.1)
          ]
      new

full_path-Below : (dir name : Bytes) → Below dir (full_path dir name)
unfolding full_path
full_path-Below dir name = elim (Bool-cases (ends_with dir (codes "/"))) [
  | inl e ↦ (name, rw e refl)
  | inr e ↦ (codes "/" ++ name, rw e (append_assoc dir (codes "/") name))
]

All-if :
    (dir : Bytes) (b : Bool) (xs ys : List Bytes)
    → All (Below dir) xs
    → All (Below dir) ys
    → All (Below dir) (if b then xs else ys)
All-if dir true xs ys hx hy = hx
All-if dir false xs ys hx hy = hy

directory_entry-Below :
    (fs : Files) (dir : Bytes) (include : Bool) (name : Bytes)
    → All (Below dir) (directory_entry fs dir include name)
unfolding directory_entry
directory_entry-Below fs dir include name =
    let path = full_path dir name in
    let below : All (Below dir) (path ∷ []) = (full_path-Below dir name, tt) in
    All-if dir (text_eq name (codes ".")) [] _ tt (
      All-if dir (text_eq name (codes "..")) [] _ tt (elim (Option-cases (fs.stat_mode path)) [
        | inl n ↦ rw n tt
        | inr (mode, n) ↦ rw n (
            All-append (Below dir) (if has_reg_bit mode then path ∷ [] else [])
              (if has_dir_bit mode && include then path ∷ [] else [])
              (All-if dir (has_reg_bit mode) (path ∷ []) [] below tt)
              (All-if dir (has_dir_bit mode && include) (path ∷ []) [] below tt))
      ]))

directory_entries-Below :
    (fs : Files) (dir : Bytes) (include : Bool) (names : List Bytes)
    → All (Below dir) (directory_entries fs dir include names)
unfolding directory_entries
directory_entries-Below fs dir include [] = tt
directory_entries-Below fs dir include (name ∷ rest) =
    All-append (Below dir) (directory_entry fs dir include name)
      (directory_entries fs dir include rest) (directory_entry-Below fs dir include name)
      (directory_entries-Below fs dir include rest)

util_get_directory_files-Below :
    (fs : Files) (dir : Bytes) (include : Bool)
    → All (Below dir) (util_get_directory_files fs dir include)
unfolding util_get_directory_files
util_get_directory_files-Below fs dir include = elim (Bool-cases (util_is_directory fs dir)) [
  | inr e ↦ rw e tt
  | inl e ↦ elim (Option-cases (fs.read_directory dir)) [
    | inl n ↦ rw (e, n) tt
    | inr (names, n) ↦ rw (e, n) (directory_entries-Below fs dir include names)
  ]
]

pub assign_watch-AreBelow :
    (fs : Files) (dir path : Bytes) (m : List (ℕ × Bytes))
    → Below dir path
    → AreBelow dir m
    → AreBelow dir (elim (fs.add_watch path) [ none ↦ m | some wd ↦ assign wd path m ])
assign_watch-AreBelow fs dir path m new old = elim (Option-cases (fs.add_watch path)) [
  | inl n ↦ rw n old
  | inr (wd, n) ↦ rw n (upsert-AreBelow dir wd (λ o. path) m new old)
]

watch_entries-AreBelow :
    (fs : Files) (dir : Bytes) (entries : List Bytes) (m : List (ℕ × Bytes))
    → All (Below dir) entries
    → AreBelow dir m
    → AreBelow dir (watch_entries fs entries m)
unfolding watch_entries
watch_entries-AreBelow fs dir [] m below old = old
watch_entries-AreBelow fs dir (entry ∷ rest) m below old =
    watch_entries-AreBelow fs dir rest _ below.1
      (elim (util_is_directory fs entry)
        as (λ b.
          AreBelow dir (
            if b
            then elim (fs.add_watch entry) [ none ↦ m | some wd ↦ assign wd entry m ]
            else m)) [ true ↦ assign_watch-AreBelow fs dir entry m below.0 old | false ↦ old ])

pub start_watching-AreBelow :
    (fs : Files) (dir : Bytes) {m : List (ℕ × Bytes)}
    → start_watching fs dir ≡ some m
    → AreBelow dir m
unfolding start_watching
start_watching-AreBelow fs [] {m} started = cc
start_watching-AreBelow fs (c ∷ rest) {m} started = elim (Option-cases (fs.add_watch (c ∷ rest))) [
  | inl n ↦ let failed : start_watching fs (c ∷ rest) ≡ none = rw n refl in absurd (cc)
  | inr (wd, n) ↦
      let dir = c ∷ rest in
      let entries = util_get_directory_files fs dir true in
      let below =
        watch_entries-AreBelow fs dir entries [] (util_get_directory_files-Below fs dir true) tt in
      let found : start_watching fs dir ≡ some (assign wd dir (watch_entries fs entries [])) =
        rw n refl in
      let same : assign wd dir (watch_entries fs entries []) ≡ m = cc in
      let whole : Below dir dir = ([], sym (append-nil dir)) in
      subst (AreBelow dir) same
        (upsert-AreBelow dir wd (λ o. dir) (watch_entries fs entries []) whole below)
]

pub entered-AreBelow :
    (dir path : Bytes) (wd : ℕ) (m : List (ℕ × Bytes))
    → lookup wd m ≡ some path
    → AreBelow dir m
    → AreBelow dir (entered wd m)
entered-AreBelow dir path wd m found old =
    upsert-AreBelow dir wd or_empty m
      (subst (λ o. Below dir (or_empty o)) (sym found) (lookup-All (Below dir) wd m old found)) old

pub path_of-Below :
    (dir path : Bytes) (event : Event) (m : List (ℕ × Bytes))
    → lookup event.wd m ≡ some path
    → AreBelow dir m
    → Below dir (path_of event m)
path_of-Below dir path event m found old =
    Below-append dir (or_empty (lookup event.wd m)) (b'/' ∷ event.name) (
      subst (λ o. Below dir (or_empty o)) (sym found) (lookup-All (Below dir) event.wd m old found))
