-- ===== src/Tests/Reminders.antt =====
-- The properties of the reminders at concrete inputs.
use orlando.Base.{refl, [], ◌∷◌, lookup, insert, ℕ_discrete}
use orlando.Core.Ids.{GrainId}
use orlando.Timers.Reminders.{
  ReminderRegistration, InMemoryReminderStore, register_reminder, new, save, key_of,
  ReminderKey-discrete, reminder_key,
}
use orlando.Timers.Reminders.Due.{IsSchedule, IsKeyed, save-IsSchedule}
use orlando.Timers.Reminders.Spaced.{ticks, IsSpaced, ticks-IsSpaced}

abbrev cart : GrainId
cart = record { type_name = 0x43 ∷ []; key = 0x31 ∷ [] }

abbrev hourly : ReminderRegistration
hourly = record { grain_id = cart; name = 0x68 ∷ []; period = 60; due_at = 70 }

abbrev schedule : InMemoryReminderStore
schedule = register_reminder 10 cart (0x68 ∷ []) 60 new

new-IsSchedule : IsSchedule new
unfolding IsSchedule IsKeyed new
new-IsSchedule = (tt, tt)

schedule-IsSchedule : IsSchedule schedule
unfolding register_reminder
schedule-IsSchedule = save-IsSchedule hourly new new-IsSchedule

ticks-IsSpaced_example :
    IsSpaced 60 70
      (ticks (key_of hourly) ((0x43 ∷ []) ∷ []) (50 ∷ 75 ∷ 100 ∷ 500 ∷ 505 ∷ []) schedule)
unfolding register_reminder save key_of new lookup insert ReminderKey-discrete ℕ_discrete
ticks-IsSpaced_example =
    ticks-IsSpaced (key_of hourly) ((0x43 ∷ []) ∷ []) (50 ∷ 75 ∷ 100 ∷ 500 ∷ 505 ∷ []) schedule
      hourly schedule-IsSchedule refl
