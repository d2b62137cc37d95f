-- ===== src/Timers/Reminders/Due.antt =====
-- crates/orlando-timers/src/reminder_service.rs: which reminders a poll fires, and when they are due
-- again.
use orlando.Base.{
  ℕ, ◌+◌, Bool, true, false, ◌≡◌, refl, List, [], ◌∷◌, ◌++◌, Option, none, some, leb, ◌&&◌,
  if◌then◌else◌, same, lookup, insert, remove, remove-Distinct, lookup-insert, Distinct,
  insert-Distinct, arith, suc, if-both,
}
use orlando.Timers.Reminders.{
  ReminderRegistration, ReminderKey, reminder_key, InMemoryReminderStore, key_of, due_of, load_due,
  moved, update_due_at, has_dispatcher, fire, poll, save, delete,
}
use orlando.Core.Ids.{Text}

-- Each reminder stands under its key.
unfoldable pub IsKeyed : List (ReminderKey × ReminderRegistration) → Type 0
IsKeyed [] = Unit
IsKeyed ((k, r) ∷ m) = (k ≡ key_of r) × IsKeyed m

unfoldable pub IsSchedule : InMemoryReminderStore → Type 0
IsSchedule st = IsKeyed st.entries × Distinct st.entries

-- How often the reminder is in the list.
unfoldable pub count : ReminderKey → List ReminderKey → ℕ
count k [] = 0
count k (j ∷ js) = if same j k then suc (count k js) else count k js

-- The reminder's registration in a list of due ones.
find : ReminderKey → List ReminderRegistration → Option ReminderRegistration
find k [] = none
find k (r ∷ rs) = if same (key_of r) k then some r else find k rs

-- No reminder stands twice.
IsSingle : List ReminderRegistration → Type 0
IsSingle [] = Unit
IsSingle (r ∷ rs) = (find (key_of r) rs ≡ none) × IsSingle rs

-- The reminder, due a period after `now`.
unfoldable pub postponed : ℕ → ReminderRegistration → ReminderRegistration
postponed now r = record r { due_at = now + r.period }

find-due_of :
    (now : ℕ) (k : ReminderKey) (m : List (ReminderKey × ReminderRegistration))
    → IsKeyed m
    → Distinct m
    → find k (due_of now m)
      ≡ elim (lookup k m) [ none ↦ none | some r ↦ if leb r.due_at now then some r else none ]
unfolding find due_of IsKeyed lookup
find-due_of now k [] h d = refl
find-due_of now k ((j, r) ∷ m) (e, h) (n, d) = ground (arith, find-due_of now k m h d, e, n)

due_of-IsSingle :
    (now : ℕ) (m : List (ReminderKey × ReminderRegistration))
    → IsKeyed m
    → Distinct m
    → IsSingle (due_of now m)
unfolding due_of IsKeyed IsSingle
due_of-IsSingle now [] h d = tt
due_of-IsSingle now ((j, r) ∷ m) (e, h) (n, d) =
    if-both IsSingle (leb r.due_at now)
      (ground (arith, find-due_of now (key_of r) m h d, e, n), due_of-IsSingle now m h d)
      (due_of-IsSingle now m h d)

lookup-moved :
    (k j : ReminderKey) (due_at : ℕ) (o : Option ReminderRegistration) (st : InMemoryReminderStore)
    → lookup k st.entries ≡ o
    → lookup j (moved k due_at o st).entries ≡ (
        if same k j
        then elim o [ none ↦ none | some r ↦ some (record r { due_at = due_at }) ]
        else lookup j st.entries)
unfolding moved
lookup-moved k j due_at none st h = ground (arith, h)
lookup-moved k j due_at (some r) st h = lookup-insert k j (record r { due_at = due_at }) st.entries

count-append :
    (k : ReminderKey) (xs ys : List ReminderKey) → count k (xs ++ ys) ≡ count k xs + count k ys
unfolding count
count-append k [] ys = omega arith
count-append k (x ∷ xs) ys = ground (arith, count-append k xs ys)

lookup-update_due_at :
    (k j : ReminderKey) (due_at : ℕ) (st : InMemoryReminderStore)
    → lookup j (update_due_at k due_at st).entries ≡ (
        if same k j
        then elim (lookup k st.entries) [
          | none ↦ none
          | some r ↦ some (record r { due_at = due_at })
        ]
        else lookup j st.entries)
unfolding update_due_at
lookup-update_due_at k j due_at st = lookup-moved k j due_at (lookup k st.entries) st refl

-- The ticks that the head of the list adds to those of the rest.
count-head :
    (k : ReminderKey) (c : Bool) (j : ReminderKey) (js : List ReminderKey)
    → count k ((if c then j ∷ [] else []) ++ js)
      ≡ (if c && same j k then suc (count k js) else count k js)
unfolding count
count-head k true j js = refl
count-head k false j js = refl

fire-absent :
    (now : ℕ) (types : List Text) (k : ReminderKey) (rs : List ReminderRegistration)
    (st : InMemoryReminderStore)
    → find k rs ≡ none
    → (lookup k (fire now types rs st).0.entries ≡ lookup k st.entries)
      × (count k (fire now types rs st).1 ≡ 0)
unfolding fire find count
fire-absent now types k [] st h = (refl, refl)
fire-absent now types k (r ∷ rs) st h =
    let st' = update_due_at (key_of r) (now + r.period) st in
    let later = (fire now types rs st').1 in
    ground (
      arith,
      h,
      fire-absent now types k rs st',
      lookup-update_due_at (key_of r) k (now + r.period) st,
      count-head k (has_dispatcher types r) (key_of r) later,
    )

fire-present :
    (now : ℕ) (types : List Text) (k : ReminderKey) (rs : List ReminderRegistration)
    (st : InMemoryReminderStore) (r : ReminderRegistration)
    → IsSingle rs
    → find k rs ≡ some r
    → lookup k st.entries ≡ some r
    → (lookup k (fire now types rs st).0.entries ≡ some (postponed now r))
      × (count k (fire now types rs st).1 ≡ (if has_dispatcher types r then 1 else 0))
unfolding fire find count postponed IsSingle
fire-present now types k [] st r d h l = absurd (ground arith)
fire-present now types k (x ∷ rs) st r (n, d) h l =
    let st' = update_due_at (key_of x) (now + x.period) st in
    let later = (fire now types rs st').1 in
    ground (
      arith,
      h,
      l,
      n,
      fire-absent now types k rs st',
      fire-present now types k rs st' r d,
      lookup-update_due_at (key_of x) k (now + x.period) st,
      count-head k (has_dispatcher types x) (key_of x) later,
    )

insert-IsKeyed :
    (k : ReminderKey) (r : ReminderRegistration) (m : List (ReminderKey × ReminderRegistration))
    → k ≡ key_of r
    → IsKeyed m
    → IsKeyed (insert k r m)
unfolding IsKeyed insert
insert-IsKeyed k r [] e h = (e, tt)
insert-IsKeyed k r ((j, x) ∷ m) e (q, h) =
    if-both IsKeyed (same j k) (e, h) (q, insert-IsKeyed k r m e h)

remove-IsKeyed :
    (k : ReminderKey) (m : List (ReminderKey × ReminderRegistration))
    → IsKeyed m
    → IsKeyed (remove k m)
unfolding IsKeyed remove
remove-IsKeyed k [] h = tt
remove-IsKeyed k ((j, x) ∷ m) (q, h) =
    if-both IsKeyed (same j k) (remove-IsKeyed k m h) (q, remove-IsKeyed k m h)

lookup-IsKeyed :
    (k : ReminderKey) (m : List (ReminderKey × ReminderRegistration)) (r : ReminderRegistration)
    → IsKeyed m
    → lookup k m ≡ some r
    → k ≡ key_of r
unfolding IsKeyed lookup
lookup-IsKeyed k [] r h e = absurd (ground arith)
lookup-IsKeyed k ((j, x) ∷ m) r (q, h) e = ground (arith, q, e, lookup-IsKeyed k m r h)

moved-IsSchedule :
    (k : ReminderKey) (due_at : ℕ) (o : Option ReminderRegistration) (st : InMemoryReminderStore)
    → lookup k st.entries ≡ o
    → IsSchedule st
    → IsSchedule (moved k due_at o st)
unfolding moved IsSchedule key_of
moved-IsSchedule k due_at none st e h = h
moved-IsSchedule k due_at (some r) st e (h, d) = (
  insert-IsKeyed k (record r { due_at = due_at }) st.entries (lookup-IsKeyed k st.entries r h e) h,
  insert-Distinct k (record r { due_at = due_at }) st.entries d,
)

fire-IsSchedule :
    (now : ℕ) (types : List Text) (rs : List ReminderRegistration) (st : InMemoryReminderStore)
    → IsSchedule st
    → IsSchedule (fire now types rs st).0
unfolding fire update_due_at
fire-IsSchedule now types [] st h = h
fire-IsSchedule now types (r ∷ rs) st h =
    fire-IsSchedule now types rs (update_due_at (key_of r) (now + r.period) st)
      (moved-IsSchedule (key_of r) (now + r.period) (lookup (key_of r) st.entries) st refl h)

pub poll-IsSchedule :
    (now : ℕ) (types : List Text) (st : InMemoryReminderStore)
    → IsSchedule st
    → IsSchedule (poll now types st).0
unfolding poll
poll-IsSchedule now types st h = fire-IsSchedule now types (load_due now st) st h

pub save-IsSchedule :
    (r : ReminderRegistration) (st : InMemoryReminderStore) → IsSchedule st → IsSchedule (save r st)
unfolding save IsSchedule
save-IsSchedule r st (h, d) =
    (insert-IsKeyed (key_of r) r st.entries refl h, insert-Distinct (key_of r) r st.entries d)

pub delete-IsSchedule :
    (k : ReminderKey) (st : InMemoryReminderStore) → IsSchedule st → IsSchedule (delete k st)
unfolding delete IsSchedule
delete-IsSchedule k st (h, d) = (remove-IsKeyed k st.entries h, remove-Distinct k st.entries d)

-- A poll fires a registered reminder once if it is due and its grain type has a dispatcher, and not
-- at all otherwise; a reminder that was due is due again one period after the poll, whether it could
-- be dispatched or not, and one that was not is left as it was.
pub poll-fires :
    (now : ℕ) (types : List Text) (k : ReminderKey) (r : ReminderRegistration)
    (st : InMemoryReminderStore)
    → IsSchedule st
    → lookup k st.entries ≡ some r
    → (count k (poll now types st).1
        ≡ (if leb r.due_at now && has_dispatcher types r then 1 else 0))
      × (lookup k (poll now types st).0.entries
          ≡ some (if leb r.due_at now then postponed now r else r))
unfolding poll load_due IsSchedule
poll-fires now types k r st (h, d) e =
    let due = due_of now st.entries in
    ground (
      arith,
      e,
      find-due_of now k st.entries h d,
      fire-absent now types k due st,
      fire-present now types k due st r (due_of-IsSingle now st.entries h d),
    )
