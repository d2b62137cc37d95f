-- ===== src/Timers/Reminders.antt =====
-- crates/orlando-timers/src/reminder.rs, reminder_store.rs and reminder_service.rs: the reminders in
-- memory and the polls of the service. The time of a poll is an argument; a dispatched tick goes to a
-- task of its own, and what the grain makes of it is not followed.
pub mod Due
pub mod Spaced
use orlando.Base.{
  ℕ, ◌+◌, Bool, true, false, List, [], ◌∷◌, ◌++◌, Option, none, some, leb, if◌then◌else◌, Key, same,
  any, keep, map, lookup, insert, remove, ℕ_discrete,
}
use orlando.Core.Ids.{Text, text_key, GrainId, grain_id_key, GrainId-discrete}

pub record ReminderRegistration : Type 0 where
  pub grain_id : GrainId
  pub name : Text
  pub period : ℕ
  pub due_at : ℕ

-- A reminder is known by its grain and its name.
pub record ReminderKey : Type 0 where
  pub grain_id : GrainId
  pub name : Text

unfoldable pub ReminderKey-discrete : Discrete ReminderKey
ReminderKey-discrete = hlevel ℕ_discrete

instance abbrev pub reminder_key : Key ReminderKey
reminder_key = record { dec = ReminderKey-discrete }

pub record InMemoryReminderStore : Type 0 where
  pub entries : List (ReminderKey × ReminderRegistration)

unfoldable pub new : InMemoryReminderStore
new = record { entries = [] }

unfoldable pub key_of : ReminderRegistration → ReminderKey
key_of r = record { grain_id = r.grain_id; name = r.name }

unfoldable pub save : ReminderRegistration → InMemoryReminderStore → InMemoryReminderStore
unfolding key_of
save r st = record { entries = insert (key_of r) r st.entries }

unfoldable pub delete : ReminderKey → InMemoryReminderStore → InMemoryReminderStore
delete k st = record { entries = remove k st.entries }

unfoldable pub due_of : ℕ → List (ReminderKey × ReminderRegistration) → List ReminderRegistration
due_of now [] = []
due_of now ((k, r) ∷ m) = if leb r.due_at now then r ∷ due_of now m else due_of now m

unfoldable pub load_due : ℕ → InMemoryReminderStore → List ReminderRegistration
unfolding due_of
load_due now st = due_of now st.entries

moved :
    ReminderKey → ℕ → Option ReminderRegistration → InMemoryReminderStore → InMemoryReminderStore
moved k due_at none st = st
moved k due_at (some r) st = record { entries = insert k (record r { due_at = due_at }) st.entries }

-- A reminder that is gone stays gone.
unfoldable pub update_due_at : ReminderKey → ℕ → InMemoryReminderStore → InMemoryReminderStore
unfolding moved
update_due_at k due_at st = moved k due_at (lookup k st.entries) st

-- `register_reminder`: the first tick comes one period from now.
unfoldable pub register_reminder :
    ℕ → GrainId → Text → ℕ → InMemoryReminderStore → InMemoryReminderStore
unfolding save
register_reminder now grain_id name period st =
    save (record { grain_id = grain_id; name = name; period = period; due_at = now + period }) st

unfoldable pub unregister_reminder : GrainId → Text → InMemoryReminderStore → InMemoryReminderStore
unfolding delete
unregister_reminder grain_id name st = delete (record { grain_id = grain_id; name = name }) st

-- The type has a dispatcher.
unfoldable pub has_dispatcher : List Text → ReminderRegistration → Bool
has_dispatcher types r = any (λ t. same t r.grain_id.type_name) types

-- The loop over the due reminders: the store it leaves, and the reminders whose tick it dispatched.
unfoldable pub fire :
    ℕ
    → List Text
    → List ReminderRegistration
    → InMemoryReminderStore
    → InMemoryReminderStore × List ReminderKey
unfolding key_of has_dispatcher update_due_at
fire now types [] st = (st, [])
fire now types (r ∷ rs) st =
    let (st', later) = fire now types rs (update_due_at (key_of r) (now + r.period) st) in
    (st', (if has_dispatcher types r then key_of r ∷ [] else []) ++ later)

-- One round of `poll_loop`.
unfoldable pub poll :
    ℕ → List Text → InMemoryReminderStore → InMemoryReminderStore × List ReminderKey
unfolding load_due fire
poll now types st = fire now types (load_due now st) st
