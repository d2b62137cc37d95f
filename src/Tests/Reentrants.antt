-- ===== src/Tests/Reentrants.antt =====
-- The properties of the reentrant loops at concrete inputs.
use mathlib.Core.List.{Perm}
use orlando.Base.{
  ℕ, ◌+◌, ◌*◌, ◌≤◌, ◌==◌, ◌≡◌, ◌⊎◌, refl, Bool, true, false, List, [], ◌∷◌, ◌++◌, map, Option, none,
  some, if◌then◌else◌, length,
}
use orlando.Core.Ids.{GrainId, grain_id_key}
use orlando.Core.Lifecycle.{closed, next, is_idle}
use orlando.Core.Mailbox.{
  returned, panicked, Grain, Task, activate_hook, handler, deactivate_hook, entry_removed, start,
  teardown,
}
use orlando.Core.Reentrant.{
  Loop, Choice, waiting, finished, receive, handle_at, complete_at, join_at, volatile, run, begin,
  at_rest, step, run_reentrant_mailbox,
}
use orlando.Core.Reentrant.Keeps.{served, run_serial}
use orlando.Core.Reentrant.Ends.{run_ends}
use orlando.Core.Reentrant.Lives.{run_reentrant_mailbox-served}
use orlando.Persistence.Store.{Bytes, InMemoryStateStore, new, load, save, memory_store}
use orlando.Persistence.Mailbox.{write_through, write_on_deactivate, Serializer, load_or_default}
use orlando.Persistence.Mailbox
use orlando.Persistence.Mailbox.Steps.{IsLossless, Stored}
use orlando.Persistence.Mailbox.Memory.{memory_store-IsReliable}
use orlando.Persistence.Mailbox.Reentrant.{Desk, persistent, run_reentrant}
use orlando.Persistence.Mailbox.Reentrant.Snapshots.{IsSnapshot, run-IsSnapshot}
use orlando.Persistence.Mailbox.Reentrant.Stale.{overtaking_stale}
use orlando.Persistence.Mailbox.Reentrant.Finals.{run_reentrant-final}

abbrev cart : GrainId
cart = record { type_name = 0x43 ∷ []; key = 0x31 ∷ [] }

-- A counter whose handler adds 1 and then panics on 13.
abbrev counter : Grain ℕ ℕ
counter = record {
  default_state = 0;
  on_activate = λ s. (s, returned);
  handle = λ m s. if m == 13 then (s + 1, panicked) else (s + m, returned);
  on_deactivate = λ s. (s + 100, returned);
}

-- The second message has the lock first, and panics.
abbrev swapped : List Choice
swapped = receive ∷ receive ∷ handle_at 1 ∷ handle_at 0 ∷ join_at 1 ∷ join_at 0 ∷ []

abbrev drained : Loop ℕ ℕ (Unit {0}) (Unit {0})
drained = record { state = 3; inbox = []; jobs = []; world = tt; handled = 13 ∷ 2 ∷ [] }

run_serial_example :
    Perm drained.handled (2 ∷ 13 ∷ [])
    × (drained.state ≡ served (volatile counter) drained.handled 0)
unfolding run step begin at_rest volatile
run_serial_example =
    run_serial (volatile counter) swapped (2 ∷ 13 ∷ []) 0 tt {l = drained} refl refl

run_ends_example :
    (length swapped ≤ 4 * length {A = ℕ} (2 ∷ 13 ∷ []))
    × ((at_rest (volatile counter) drained ≡ true)
        ⊎ (c : Choice) × (l' : Loop ℕ ℕ (Unit {0}) (Unit {0})) × (step (volatile counter) c drained
            ≡ some l'))
unfolding run step begin volatile
run_ends_example = run_ends (volatile counter) swapped (2 ∷ 13 ∷ []) 0 tt {l = drained} refl

abbrev ended : Task ℕ ℕ
ended = record {
  fsm = closed;
  state = 103;
  log = activate_hook ∷ handler 13 ∷ handler 2 ∷ deactivate_hook ∷ entry_removed ∷ [];
}

run_reentrant_mailbox-served_example :
    (ms : List ℕ) × Perm ms (2 ∷ 13 ∷ [])
    × (ended ≡ record {
      fsm = closed;
      state = (counter.on_deactivate (served (volatile counter) ms (counter.on_activate 0).0)).0;
      log = activate_hook ∷ (map handler ms ++ deactivate_hook ∷ entry_removed ∷ []);
    })
unfolding run_reentrant_mailbox is_idle start next teardown
run_reentrant_mailbox-served_example =
    run_reentrant_mailbox-served counter swapped (2 ∷ 13 ∷ []) true {t = ended} refl refl

abbrev first_byte : Bytes → Option ℕ
first_byte [] = none
first_byte (b ∷ bs) = some b

abbrev one_byte : Serializer ℕ
one_byte = record { serialize = λ s. some (s ∷ []); deserialize = first_byte }

one_byte-IsLossless : IsLossless one_byte
one_byte-IsLossless = record { encodes = λ s. (s ∷ [], refl, refl) }

abbrev blank : Desk ℕ InMemoryStateStore
blank = record { world = new; log = [] }

-- Under write-through, with the second message not handled yet.
abbrev one_written : List Choice
one_written = receive ∷ receive ∷ handle_at 0 ∷ complete_at 0 ∷ []

abbrev between : Loop ℕ ℕ Bytes (Desk ℕ InMemoryStateStore)
between = record {
  state = 2;
  inbox = [];
  jobs = finished ∷ waiting 5 ∷ [];
  world = record { world = save cart (2 ∷ []) new; log = Mailbox.stored (2 ∷ []) ∷ [] };
  handled = 2 ∷ [];
}

run-IsSnapshot_example :
    (load cart between.world.world ≡ load cart new)
    ⊎ (b : Bytes) × (load cart between.world.world ≡ some b)
      × IsSnapshot counter one_byte cart write_through false 0 between.handled b
unfolding run begin persistent save memory_store
run-IsSnapshot_example =
    run-IsSnapshot counter one_byte cart write_through false one_written (2 ∷ 5 ∷ []) 0 new
      {l = between} refl

overtaking_stale_example :
    (cs : List Choice) × (l : Loop ℕ ℕ Bytes (Desk ℕ InMemoryStateStore)) × (run
        (persistent counter one_byte memory_store cart write_through false)
        cs
        (begin
          (persistent counter one_byte memory_store cart write_through false)
          (2 ∷ 5 ∷ [])
          0
          blank)
      ≡ some l)
    × (at_rest (persistent counter one_byte memory_store cart write_through false) l ≡ true)
    × (l.state ≡ 7)
    × (load cart l.world.world ≡ some (2 ∷ []))
overtaking_stale_example =
    overtaking_stale counter one_byte cart false 2 5 0 new (2 ∷ []) (7 ∷ []) refl refl refl refl

-- The panicking message has the lock first; the grain starts on an empty store.
abbrev or_blank :
    Option (Mailbox.Task ℕ ℕ InMemoryStateStore × Bool) → Mailbox.Task ℕ ℕ InMemoryStateStore × Bool
or_blank (some r) = r
or_blank none = (record { fsm = closed; state = 0; last_save = 0; world = new; log = [] }, true)

abbrev whole_run : Option (Mailbox.Task ℕ ℕ InMemoryStateStore × Bool)
whole_run =
    run_reentrant counter one_byte memory_store cart write_on_deactivate false swapped (2 ∷ 13 ∷ [])
      new 0

run_reentrant-final_example :
    ((or_blank whole_run).1 ≡ false)
    × (ms : List ℕ) × Perm ms (2 ∷ 13 ∷ [])
    × Stored counter one_byte memory_store cart
        (counter.on_deactivate (
          served
            (persistent counter one_byte memory_store cart write_on_deactivate false)
            ms
            (counter.on_activate
              (load_or_default {M = ℕ} counter one_byte memory_store cart new).0).0)).0
        (or_blank whole_run).0.world
unfolding run_reentrant
run_reentrant-final_example =
    run_reentrant-final counter one_byte memory_store cart write_on_deactivate false
      memory_store-IsReliable one_byte-IsLossless swapped (2 ∷ 13 ∷ []) new 0
      {r = or_blank whole_run} refl refl
