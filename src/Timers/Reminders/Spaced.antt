-- ===== src/Timers/Reminders/Spaced.antt =====
-- crates/orlando-timers/src/reminder_service.rs: the ticks of one reminder over many polls.
use orlando.Base.{
  ℕ, ◌+◌, ◌≤◌, ◌≡◌, refl, List, [], ◌∷◌, ◌++◌, some, leb, if◌then◌else◌, Bool-cases, same, inl, inr,
  lookup, arith,
}
use orlando.Core.Ids.{Text}
use orlando.Timers.Reminders.{
  ReminderRegistration, ReminderKey, reminder_key, InMemoryReminderStore, poll, has_dispatcher,
}
use orlando.Timers.Reminders.Due.{IsSchedule, count, postponed, poll-fires, poll-IsSchedule}

-- The time of the poll, once for each of its dispatches of the reminder.
unfoldable pub times_in : ReminderKey → ℕ → List ReminderKey → List ℕ
times_in k now [] = []
times_in k now (j ∷ js) = let rest = times_in k now js in if same j k then now ∷ rest else rest

-- The time of each dispatch of the reminder; two dispatches in one poll stand twice.
unfoldable pub ticks : ReminderKey → List Text → List ℕ → InMemoryReminderStore → List ℕ
unfolding times_in
ticks k types [] st = []
ticks k types (now ∷ times) st =
    let (st', fired) = poll now types st in times_in k now fired ++ ticks k types times st'

times_in-count :
    (k : ReminderKey) (now : ℕ) (js : List ReminderKey)
    → (count k js ≡ 0 → times_in k now js ≡ []) × (count k js ≡ 1 → times_in k now js ≡ now ∷ [])
unfolding times_in count
times_in-count k now [] = ((λ h. refl), (λ h. absurd (omega (arith, h))))
times_in-count k now (j ∷ js) = ground (arith, times_in-count k now js)

-- The times come no sooner than `from`, and then at least `period` apart.
unfoldable pub IsSpaced : (period from : ℕ) → List ℕ → Type 0
IsSpaced period from [] = Unit
IsSpaced period from (t ∷ ts) = (from ≤ t) × IsSpaced period (t + period) ts

IsSpaced-lower :
    (period m n : ℕ) (ts : List ℕ) → m ≤ n → IsSpaced period n ts → IsSpaced period m ts
unfolding IsSpaced
IsSpaced-lower period m n [] h s = tt
IsSpaced-lower period m n (t ∷ ts) h (l, s) = (omega (arith, l, h), s)

-- Whenever the service polls, a reminder is dispatched no sooner than it is due, and two of its
-- dispatches, also two in one poll, are at least its period apart: a poll that comes late dispatches
-- a reminder whose period is positive at most once, and the ticks that were missed are not made up for.
pub ticks-IsSpaced :
    (k : ReminderKey) (types : List Text) (times : List ℕ) (st : InMemoryReminderStore)
    (r : ReminderRegistration)
    → IsSchedule st
    → lookup k st.entries ≡ some r
    → IsSpaced r.period r.due_at (ticks k types times st)
unfolding ticks IsSpaced postponed
ticks-IsSpaced k types [] st r h e = tt
ticks-IsSpaced k types (now ∷ times) st r h e =
    let (fired, left) = poll-fires now types k r st h e in
    let (st', dispatched) = poll now types st in
    let (none_of, one_of) = times_in-count k now dispatched in
    let later : (x : ReminderRegistration)
        → lookup k st'.entries ≡ some x
        → IsSpaced x.period x.due_at (ticks k types times st') =
      λ x q. ticks-IsSpaced k types times st' x (poll-IsSchedule now types st h) q in
    elim (Bool-cases (leb r.due_at now)) [
      | inr not_due ↦
          let no_time : times_in k now dispatched ≡ [] = none_of (ground (arith, fired, not_due)) in
          rw no_time (later r (ground (arith, left, not_due)))
      | inl was_due ↦
          let came : r.due_at ≤ now = ground (arith, was_due) in
          let spaced = later (postponed now r) (ground (arith, left, was_due)) in
          elim (Bool-cases (has_dispatcher types r)) [
            | inl known ↦
                let one_time : times_in k now dispatched ≡ now ∷ [] =
                  one_of (ground (arith, fired, was_due, known)) in
                rw one_time (came, spaced)
            | inr unknown ↦
                let no_time : times_in k now dispatched ≡ [] =
                  none_of (ground (arith, fired, was_due, unknown)) in
                rw no_time (
                  IsSpaced-lower r.period r.due_at (now + r.period) (ticks k types times st')
                    (omega (arith, came)) spaced)
          ]
    ]
