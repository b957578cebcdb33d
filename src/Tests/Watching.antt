-- ===== src/Tests/Watching.antt =====
-- The watcher of the kernel cache at a concrete directory.
use omniprobe.Prelude.{
  ℕ, ◌≡◌, refl, List, [], ◌∷◌, ◌++◌, some, Bytes, codes, text_eq, if◌then◌else◌,
}
use omniprobe.Prelude.Maps.{nat_key, lookup, upsert}
use omniprobe.Scope.{ends_with}
use omniprobe.Interceptor.Watcher.{
  Files, Event, Watching, start_watching, watch_events, handle_event,
}
use omniprobe.Interceptor.Arrivals.{
  IsBelow, Delivered, nothing_loaded, created, moved, for_each, watch_events-IsBelow,
  watch_events-created,
}

-- The cache `/c` has a file and a directory `/c/a`; the directory `/c/b` appears.
abbrev fs : Files
fs = record {
  read_directory = λ path. some (codes "." ∷ codes ".." ∷ codes "f" ∷ codes "a" ∷ []);
  stat_mode = λ path. if text_eq path (codes "/c/f") then some 0x81a4 else some 0x41ed;
  unset_mode = 0;
  add_watch = λ path.
      if text_eq path (codes "/c/a")
      then some 2
      else if text_eq path (codes "/c/b")
      then some 3
      else some 1;
}

abbrev at_start : List (ℕ × Bytes)
at_start = (1, codes "/c") ∷ (2, codes "/c/a") ∷ []

started : start_watching fs (codes "/c") ≡ some at_start
unfolding start_watching text_eq upsert
started = refl

abbrev watching : Watching
watching = record { watch_map = at_start; objects = nothing_loaded }

abbrev events : List Event
events = created 1 (codes "b") ∷ moved 3 (codes "k.hsaco") ∷ moved 2 (codes "x") ∷ []

events-Delivered : Delivered fs (some (7 ∷ 8 ∷ [])) events watching
unfolding handle_event text_eq upsert lookup
events-Delivered = ((_, refl), ((_, refl), ((_, refl), tt)))

watch_events-IsBelow_example :
    IsBelow (codes "/c") (watch_events fs (some (7 ∷ 8 ∷ [])) events watching)
watch_events-IsBelow_example =
    watch_events-IsBelow fs (some (7 ∷ 8 ∷ [])) (codes "/c") at_start events started
      events-Delivered

watch_events-created_example :
    (watch_events fs
      (some (7 ∷ 8 ∷ []))
      (created 1 (codes "b") ∷ moved 3 (codes "k.hsaco") ∷ [])
      watching).objects.added
    ≡ [] ++ for_each (codes "/c/b/k.hsaco") (7 ∷ 8 ∷ [])
unfolding text_eq lookup ends_with
watch_events-created_example =
    watch_events-created fs (7 ∷ 8 ∷ []) watching 1 3 (codes "/c") [] (codes ".hsaco") b'b' b'k'
      refl refl refl refl
