-- ===== src/Interceptor/Arrivals.antt =====
-- What cache_watcher of src/interceptor.cc loads: code objects below the directory of the cache.
use mathlib.Core.List.{append_assoc, append-nil}
use omniprobe.Prelude.{
  ℕ, ◌≡◌, refl, sym, ap, ◌∙◌, Bool, true, false, List, [], ◌∷◌, ◌++◌, Option, none, some, Bytes,
  codes, if◌then◌else◌, All, All-append, Bool-cases, Option-cases, inl, inr,
}
use omniprobe.Prelude.Maps.{nat_key, lookup, assign, lookup-upsert_self}
use omniprobe.Scope.{ends_with}
use omniprobe.Scope.Parse.{is_empty}
use omniprobe.Interceptor.Watcher.{
  Files, Event, s_isdir, Objects, add_to, add_code_object, Watching, start_watching, or_empty,
  entered, path_of, mode_of, on_create, on_moved_to, handle_event, watch_events,
}
use omniprobe.Interceptor.Watched.{
  Below, AreBelow, assign_watch-AreBelow, start_watching-AreBelow, entered-AreBelow, path_of-Below,
}

-- A code object below a directory.
abbrev pub IsCodeObject : Bytes → ℕ × Bytes → Type 0
IsCodeObject dir (agent, path) = Below dir path × (ends_with path (codes ".hsaco") ≡ true)

-- inotify gives events of directories that are watched.
abbrev pub Delivered : Files → Option (List ℕ) → List Event → Watching → Type 0
Delivered fs gpus [] st = Unit
Delivered fs gpus (event ∷ rest) st =
    ((path : Bytes) × (lookup event.wd st.watch_map ≡ some path))
    × Delivered fs gpus rest (handle_event fs gpus event st)

-- The watched directories and the loaded objects are below a directory.
pub record IsBelow (dir : Bytes) (st : Watching) : Type 0 where
  pub watched : AreBelow dir st.watch_map
  pub loaded : All (IsCodeObject dir) st.objects.added

add_to-IsCodeObject :
    (dir path : Bytes) (gpus : List ℕ) (objects : Objects)
    → IsCodeObject dir (0, path)
    → All (IsCodeObject dir) objects.added
    → All (IsCodeObject dir) (add_to gpus path objects).added
unfolding add_to
add_to-IsCodeObject dir path [] objects new old = old
add_to-IsCodeObject dir path (gpu ∷ rest) objects new old =
    add_to-IsCodeObject dir path rest _ new
      (All-append (IsCodeObject dir) objects.added ((gpu, path) ∷ []) old (new, tt))

loaded_path :
    (dir path : Bytes) (gpus : Option (List ℕ)) (objects : Objects)
    → Below dir path
    → All (IsCodeObject dir) objects.added
    → All
        (IsCodeObject dir)
        (if ends_with path (codes ".hsaco")
          then add_code_object gpus path objects
          else objects).added
unfolding add_code_object
loaded_path dir path gpus objects below old = elim (Bool-cases (ends_with path (codes ".hsaco"))) [
  | inr e ↦ rw e old
  | inl e ↦ elim (Option-cases gpus) [
    | inl n ↦ rw (e, n) old
    | inr (agents, n) ↦ elim (Bool-cases (is_empty path)) [
      | inl blank ↦ rw (e, n, blank) old
      | inr more ↦ rw (e, n, more) (add_to-IsCodeObject dir path agents objects (below, e) old)
    ]
  ]
]

on_moved_to-IsBelow :
    (dir path : Bytes) (gpus : Option (List ℕ)) (event : Event) (st : Watching)
    → lookup event.wd st.watch_map ≡ some path
    → IsBelow dir st
    → IsBelow dir (on_moved_to gpus event st)
unfolding on_moved_to
on_moved_to-IsBelow dir path gpus event st found h = record {
  watched = entered-AreBelow dir path event.wd st.watch_map found h.watched;
  loaded =
      loaded_path dir (path_of event st.watch_map) gpus st.objects
        (path_of-Below dir path event st.watch_map found h.watched) h.loaded;
}

on_create-IsBelow :
    (dir path : Bytes) (fs : Files) (event : Event) (st : Watching)
    → lookup event.wd st.watch_map ≡ some path
    → IsBelow dir st
    → IsBelow dir (on_create fs event st)
unfolding on_create
on_create-IsBelow dir path fs event st found h = record {
  watched =
      let below = path_of-Below dir path event st.watch_map found h.watched in
      let old = entered-AreBelow dir path event.wd st.watch_map found h.watched in
      elim (s_isdir (mode_of fs (path_of event st.watch_map)))
        as (λ b. AreBelow dir (
          if b
          then elim (fs.add_watch (path_of event st.watch_map)) [
            | none ↦ entered event.wd st.watch_map
            | some wd ↦ assign wd (path_of event st.watch_map) (entered event.wd st.watch_map)
          ]
          else entered event.wd st.watch_map)) [
            | true ↦
                assign_watch-AreBelow fs dir (path_of event st.watch_map)
                  (entered event.wd st.watch_map) below old
            | false ↦ old
          ];
  loaded = h.loaded;
}

if_IsBelow :
    (dir : Bytes) (b : Bool) (x y : Watching)
    → IsBelow dir x
    → IsBelow dir y
    → IsBelow dir (if b then x else y)
if_IsBelow dir true x y hx hy = hx
if_IsBelow dir false x y hx hy = hy

handle_event-IsBelow :
    (dir path : Bytes) (fs : Files) (gpus : Option (List ℕ)) (event : Event) (st : Watching)
    → lookup event.wd st.watch_map ≡ some path
    → IsBelow dir st
    → IsBelow dir (handle_event fs gpus event st)
unfolding handle_event
handle_event-IsBelow dir path fs gpus event st found h =
    if_IsBelow dir (is_empty event.name) st _ h (
      if_IsBelow dir event.create (on_create fs event st) _
        (on_create-IsBelow dir path fs event st found h)
        (if_IsBelow dir event.delete st _ h (
          if_IsBelow dir event.modify st _ h (
            if_IsBelow dir event.moved_from st _ h (
              if_IsBelow dir event.moved_to (on_moved_to gpus event st) st
                (on_moved_to-IsBelow dir path gpus event st found h) h)))))

still_IsBelow :
    (dir : Bytes) (fs : Files) (gpus : Option (List ℕ)) (events : List Event) (st : Watching)
    → Delivered fs gpus events st
    → IsBelow dir st
    → IsBelow dir (watch_events fs gpus events st)
unfolding watch_events
still_IsBelow dir fs gpus [] st delivered h = h
still_IsBelow dir fs gpus (event ∷ rest) st delivered h =
    still_IsBelow dir fs gpus rest (handle_event fs gpus event st) delivered.1
      (handle_event-IsBelow dir delivered.0.0 fs gpus event st delivered.0.1 h)

abbrev pub nothing_loaded : Objects
nothing_loaded = record { added = []; kdbs_ = [] }

-- If watching begins, and every event is of a directory that is watched when it comes: after any events
-- every watched path begins with that of the cache's directory, and so does every file that was handed
-- to addFile, which has the suffix ".hsaco".
pub watch_events-IsBelow :
    (fs : Files) (gpus : Option (List ℕ)) (dir : Bytes) (watch_map : List (ℕ × Bytes))
    (events : List Event)
    → start_watching fs dir ≡ some watch_map
    → Delivered fs gpus events (record { watch_map = watch_map; objects = nothing_loaded })
    → IsBelow dir
        (watch_events fs gpus events (record { watch_map = watch_map; objects = nothing_loaded }))
watch_events-IsBelow fs gpus dir watch_map events started delivered =
    still_IsBelow dir fs gpus events (record { watch_map = watch_map; objects = nothing_loaded })
      delivered (record { watched = start_watching-AreBelow fs dir started; loaded = tt })

-- The event of a new entry of a watched directory, and that of an entry that was moved there.
abbrev pub created : ℕ → Bytes → Event
created wd name = record {
  wd = wd;
  name = name;
  create = true;
  delete = false;
  modify = false;
  moved_from = false;
  moved_to = false;
}

abbrev pub moved : ℕ → Bytes → Event
moved wd name = record {
  wd = wd;
  name = name;
  create = false;
  delete = false;
  modify = false;
  moved_from = false;
  moved_to = true;
}

abbrev pub for_each : Bytes → List ℕ → List (ℕ × Bytes)
for_each path [] = []
for_each path (gpu ∷ rest) = (gpu, path) ∷ for_each path rest

add_to-for_each :
    (gpus : List ℕ) (path : Bytes) (objects : Objects)
    → (add_to gpus path objects).added ≡ objects.added ++ for_each path gpus
unfolding add_to
add_to-for_each [] path objects = sym (append-nil objects.added)
add_to-for_each (gpu ∷ rest) path objects =
    add_to-for_each rest path _ ∙ append_assoc objects.added ((gpu, path) ∷ []) (for_each path rest)

on_create-lookup :
    (fs : Files) (st : Watching) (wd inner : ℕ) (dir name : Bytes)
    → lookup wd st.watch_map ≡ some dir
    → s_isdir (mode_of fs (dir ++ (b'/' ∷ name))) ≡ true
    → fs.add_watch (dir ++ (b'/' ∷ name)) ≡ some inner
    → lookup inner (on_create fs (created wd name) st).watch_map ≡ some (dir ++ (b'/' ∷ name))
unfolding on_create
on_create-lookup fs st wd inner dir name found is_dir watched =
    rw (found, is_dir, watched)
      (lookup-upsert_self inner (λ (o : Option Bytes). path_of (created wd name) st.watch_map)
          (entered wd st.watch_map)
        ∙ ap (λ o. some (or_empty o ++ (b'/' ∷ name))) found)

is_empty-append : (a b : Bytes) (c : ℕ) → is_empty (a ++ (c ∷ b)) ≡ false
is_empty-append [] b c = refl
is_empty-append (x ∷ a) b c = refl

on_moved_to_added :
    (gpus : List ℕ) (st : Watching) (wd : ℕ) (dir name : Bytes)
    → lookup wd st.watch_map ≡ some dir
    → ends_with (dir ++ (b'/' ∷ name)) (codes ".hsaco") ≡ true
    → (on_moved_to (some gpus) (moved wd name) st).objects.added
      ≡ st.objects.added ++ for_each (dir ++ (b'/' ∷ name)) gpus
unfolding on_moved_to add_code_object
on_moved_to_added gpus st wd dir name found suffix =
    rw (found, suffix, is_empty-append dir name b'/')
      (add_to-for_each gpus (dir ++ (b'/' ∷ name)) st.objects)

-- A directory that appears in a watched one and can be watched, and a file with the suffix ".hsaco" that is
-- then moved into it: the file is handed to addFile once for each GPU, behind what was loaded before.
pub watch_events-created :
    (fs : Files) (gpus : List ℕ) (st : Watching) (wd inner : ℕ) (dir name file : Bytes) (c d : ℕ)
    → lookup wd st.watch_map ≡ some dir
    → s_isdir (mode_of fs (dir ++ (b'/' ∷ (c ∷ name)))) ≡ true
    → fs.add_watch (dir ++ (b'/' ∷ (c ∷ name))) ≡ some inner
    → ends_with ((dir ++ (b'/' ∷ (c ∷ name))) ++ (b'/' ∷ (d ∷ file))) (codes ".hsaco") ≡ true
    → (watch_events fs
        (some gpus)
        (created wd (c ∷ name) ∷ moved inner (d ∷ file) ∷ [])
        st).objects.added
      ≡ st.objects.added ++ for_each ((dir ++ (b'/' ∷ (c ∷ name))) ++ (b'/' ∷ (d ∷ file))) gpus
unfolding watch_events handle_event
watch_events-created fs gpus st wd inner dir name file c d found is_dir watched suffix =
    on_moved_to_added gpus (on_create fs (created wd (c ∷ name)) st) inner
      (dir ++ (b'/' ∷ (c ∷ name))) (d ∷ file)
      (on_create-lookup fs st wd inner dir (c ∷ name) found is_dir watched) suffix
