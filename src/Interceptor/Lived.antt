-- ===== src/Interceptor/Lived.antt =====
-- What holds of a process through the life of its interceptor (src/interceptor.cc): its API table, and
-- how often it is made, deleted and registered for the exit.
use omniprobe.Prelude.{ℕ, ◌+◌, ◌≡◌, Option, none, some, if◌then◌else◌}
use omniprobe.Interceptor.Lifetime.{ApiTable, Replacements, Hook, Process, hooked}

-- Without an interceptor the table is the one that the runtime gave. With one, its three entries are
-- replaced, and the saved entries are those of the runtime.
abbrev pub HasTable : Replacements → ApiTable → Option Hook → ApiTable → ApiTable → Type 0
HasTable own given none table saved = table ≡ given
HasTable own given (some hook) table saved = (table ≡ hooked own given) × (saved ≡ given)

abbrev pub alive : Option Hook → ℕ
alive none = 0
alive (some hook) = 1

-- The table is right, no interceptor is lost or deleted twice, and the exit handler is registered once.
pub record IsWired (own : Replacements) (given : ApiTable) (st : Process) : Type 0 where
  pub wired : HasTable own given st.singleton_ st.table st.saved
  pub counted : st.made ≡ st.deleted + alive st.singleton_
  pub registered_once : st.at_exit ≡ (if st.registered then 1 else 0)

abbrev pub IsWiredAfter : Replacements → ApiTable → Option Process → Type 0
IsWiredAfter own given none = Unit {0}
IsWiredAfter own given (some st) = IsWired own given st
