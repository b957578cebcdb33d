-- ===== src/Interceptor/Watcher.antt =====
-- cache_watcher and addCodeObject of src/interceptor.cc, with util_get_directory_files and util_is_directory of
-- src/utils.cc: the directories of the kernel cache that are watched, and the code objects that are
-- loaded. inotify and the file system are the fields of `Files`; an event is what inotify gives of it. The
-- printed text, the waiting and the shutdown are not modelled, and an exception of addFile, which ends the
-- process, neither.
use omniprobe.Prelude.{
  ℕ, ◌/◌, ◌%◌, ◌^◌, Bool, true, false, ◌&&◌, List, [], ◌∷◌, ◌++◌, Option, none, some, Bytes, codes,
  text_eq, if◌then◌else◌, ◌==◌,
}
use omniprobe.Prelude.Maps.{nat_key, lookup, upsert, assign}
use omniprobe.Prelude.Sets.{insert}
use omniprobe.Scope.{ends_with}
use omniprobe.Scope.Parse.{is_empty}

-- opendir with readdir, the mode that stat gives, what an uninitialised mode holds, and
-- inotify_add_watch; `none` is a failure.
pub record Files : Type 0 where
  pub read_directory : Bytes → Option (List Bytes)
  pub stat_mode : Bytes → Option ℕ
  pub unset_mode : ℕ
  pub add_watch : Bytes → Option ℕ

-- struct inotify_event, with the flags of its mask that the code looks at.
pub record Event : Type 0 where
  pub wd : ℕ
  pub name : Bytes
  pub create : Bool
  pub delete : Bool
  pub modify : Bool
  pub moved_from : Bool
  pub moved_to : Bool

-- `mode & S_IFDIR`, `mode & S_IFREG` and S_ISDIR.
abbrev pub has_dir_bit : ℕ → Bool
has_dir_bit mode = (mode / 2 ^ 14) % 2 == 1

abbrev pub has_reg_bit : ℕ → Bool
has_reg_bit mode = (mode / 2 ^ 15) % 2 == 1

abbrev pub s_isdir : ℕ → Bool
s_isdir mode = (mode / 2 ^ 12) % 16 == 4

unfoldable pub util_is_directory : Files → Bytes → Bool
util_is_directory fs path = elim (fs.stat_mode path) [ none ↦ false | some mode ↦ has_dir_bit mode ]

unfoldable pub full_path : Bytes → Bytes → Bytes
unfolding ends_with
full_path path name = (if ends_with path (codes "/") then path else path ++ codes "/") ++ name

-- What an entry of a directory adds.
unfoldable pub directory_entry : Files → Bytes → Bool → Bytes → List Bytes
unfolding full_path
directory_entry fs path include_directories name =
    if text_eq name (codes ".")
    then []
    else if text_eq name (codes "..")
    then []
    else elim (fs.stat_mode (full_path path name)) [
      | none ↦ []
      | some mode ↦
          (if has_reg_bit mode then full_path path name ∷ [] else [])
          ++ (if has_dir_bit mode && include_directories then full_path path name ∷ [] else [])
    ]

unfoldable pub directory_entries : Files → Bytes → Bool → List Bytes → List Bytes
unfolding directory_entry
directory_entries fs path include_directories [] = []
directory_entries fs path include_directories (name ∷ rest) =
    directory_entry fs path include_directories name
    ++ directory_entries fs path include_directories rest

unfoldable pub util_get_directory_files : Files → Bytes → Bool → List Bytes
unfolding directory_entries util_is_directory
util_get_directory_files fs path include_directories =
    if util_is_directory fs path
    then elim (fs.read_directory path) [
      | none ↦ []
      | some names ↦ directory_entries fs path include_directories names
    ]
    else []

-- The calls of addFile, each with its agent, and the agents that have a kernelDB.
pub record Objects : Type 0 where
  pub added : List (ℕ × Bytes)
  pub kdbs_ : List ℕ

unfoldable pub add_to : List ℕ → Bytes → Objects → Objects
add_to [] name objects = objects
add_to (agent ∷ rest) name objects =
    add_to rest name
      (record { added = objects.added ++ (agent, name) ∷ []; kdbs_ = insert agent objects.kdbs_ })

-- addCodeObject, given the GPUs if they can be listed.
unfoldable pub add_code_object : Option (List ℕ) → Bytes → Objects → Objects
unfolding add_to
add_code_object none name objects = objects
add_code_object (some gpus) name objects =
    if is_empty name then objects else add_to gpus name objects

-- The variables of the thread: `watch_map`, and what it has loaded.
pub record Watching : Type 0 where
  pub watch_map : List (ℕ × Bytes)
  pub objects : Objects

-- The loop over the entries of the cache's directory.
unfoldable pub watch_entries : Files → List Bytes → List (ℕ × Bytes) → List (ℕ × Bytes)
unfolding util_is_directory
watch_entries fs [] watch_map = watch_map
watch_entries fs (entry ∷ rest) watch_map = watch_entries fs rest (
    if util_is_directory fs entry
    then elim (fs.add_watch entry) [ none ↦ watch_map | some wd ↦ assign wd entry watch_map ]
    else watch_map)

-- The watches before the first event; `none` if there is no cache or its directory cannot be watched.
unfoldable pub start_watching : Files → Bytes → Option (List (ℕ × Bytes))
unfolding watch_entries util_get_directory_files
start_watching fs dir = if is_empty dir then none else elim (fs.add_watch dir) [
  | none ↦ none
  | some wd ↦ some (assign wd dir (watch_entries fs (util_get_directory_files fs dir true) []))
]

abbrev pub or_empty : Option Bytes → Bytes
or_empty none = []
or_empty (some path) = path

-- `watch_map[event->wd]` makes an entry if there is none.
abbrev pub entered : ℕ → List (ℕ × Bytes) → List (ℕ × Bytes)
entered wd = upsert wd or_empty

abbrev pub path_of : Event → List (ℕ × Bytes) → Bytes
path_of event watch_map = or_empty (lookup event.wd watch_map) ++ (b'/' ∷ event.name)

abbrev pub mode_of : Files → Bytes → ℕ
mode_of fs path = elim (fs.stat_mode path) [ none ↦ fs.unset_mode | some mode ↦ mode ]

-- A new file or directory: a directory is watched from now on.
unfoldable pub on_create : Files → Event → Watching → Watching
on_create fs event st =
    let path = path_of event st.watch_map in
    let watch_map = entered event.wd st.watch_map in
    record st {
      watch_map =
          if s_isdir (mode_of fs path)
          then elim (fs.add_watch path) [ none ↦ watch_map | some wd ↦ assign wd path watch_map ]
          else watch_map;
    }

-- Something that is moved into a watched directory: a code object is loaded.
unfoldable pub on_moved_to : Option (List ℕ) → Event → Watching → Watching
unfolding add_code_object ends_with
on_moved_to gpus event st =
    let path = path_of event st.watch_map in
    record {
      watch_map = entered event.wd st.watch_map;
      objects =
          if ends_with path (codes ".hsaco")
          then add_code_object gpus path st.objects
          else st.objects;
    }

unfoldable pub handle_event : Files → Option (List ℕ) → Event → Watching → Watching
unfolding on_create on_moved_to
handle_event fs gpus event st =
    if is_empty event.name
    then st
    else if event.create
    then on_create fs event st
    else if event.delete
    then st
    else if event.modify
    then st
    else if event.moved_from
    then st
    else if event.moved_to
    then on_moved_to gpus event st
    else st

-- The loop over the events.
unfoldable pub watch_events : Files → Option (List ℕ) → List Event → Watching → Watching
unfolding handle_event
watch_events fs gpus [] st = st
watch_events fs gpus (event ∷ rest) st = watch_events fs gpus rest (handle_event fs gpus event st)
