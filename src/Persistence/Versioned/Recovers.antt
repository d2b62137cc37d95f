-- ===== src/Persistence/Versioned/Recovers.antt =====
-- crates/orlando-persistence/src/persistent_mailbox.rs: what a versioned activation leaves in its
-- store, and what the next one, perhaps of a later deployment, makes of it.
use mathlib.Core.Option
use orlando.Base.{
  ℕ, ◌-◌, true, false, ◌≡◌, ◌≢◌, refl, ap, subst, sym, ◌∙◌, List, ◌∷◌, ◌++◌, Option, some, length,
  length-append, ok, arith,
}
use orlando.Core.Ids.{GrainId}
use orlando.Core.Mailbox.{returned, panicked, Grain}
use orlando.Persistence.Store.{Bytes, StateStore}
use orlando.Persistence.Mailbox.{
  PersistenceStrategy, write_through, Serializer, Wakeup, message, Task, save_with_retry,
}
use orlando.Persistence.Mailbox.Steps.{
  IsReliable, IsApartFrom, IsLossless, Serves, arrivals, is_stop,
}
use orlando.Persistence.Mailbox.Lifecycles.{run_lifecycle_graceful, run_lifecycle_panicked}
use orlando.Persistence.Mailbox.Keeps.{run_lifecycle-Keeps, AfterEnd}
use orlando.Persistence.Versioned.{
  VersionedGrain, version_grain_id, version_suffix, migrated, read_back, stored_version, upgraded,
  load_versioned_state, loaded_task, run_versioned, closing_versioned, save_versioned, save_version,
}

pub version_grain_id-ne : (id : GrainId) → version_grain_id id ≢ id
unfolding version_grain_id
version_grain_id-ne id h =
    let longer : length (id.key ++ version_suffix) ≡ length id.key =
      ap (λ (i : GrainId). length i.key) h in
    absurd (omega (arith, longer, length-append id.key version_suffix))

module _ {S W : Type 0} (v : VersionedGrain) (ser : Serializer S) (version : Serializer ℕ)
    (store : StateStore W) (id : GrainId) where
  -- A load, where the store holds a state.
  load_versioned_state-held :
      (from : ℕ) (o : Option Bytes) (b : Bytes) (w : W)
      → store.load (version_grain_id id) w ≡ (w, ok o)
      → stored_version version (ok o) ≡ ok from
      → store.load id w ≡ (w, ok (some b))
      → load_versioned_state v ser version store id w ≡ (w, upgraded v ser from (ok (some b)))
  unfolding load_versioned_state
  load_versioned_state-held from o b w h d l = ground (arith, h, d, l)

saved_once :
    (M : Type 0) {W : Type 0} (store : StateStore W) (id : GrainId) (b : Bytes) (w w' : W)
    → store.save id b w ≡ (w', ok tt)
    → ((save_with_retry {M = M} store id b w).0 ≡ w')
      × ((save_with_retry {M = M} store id b w).1 ≡ true)
unfolding save_with_retry
saved_once M store id b w w' h = (ground arith, ground arith)

module _ {S M W : Type 0} (v : VersionedGrain) (g : Grain S M) (ser : Serializer S)
    (version : Serializer ℕ) (store : StateStore W) (id : GrainId) (reliable : IsReliable store)
    (apart : IsApartFrom store store) (lossless : IsLossless ser) (w : W) (now : ℕ) where
  -- The state that the activation loads.
  abbrev pub found : S
  found = (loaded_task {M = M} v g ser version store id w now).state

  abbrev pub WakesFrom : Type 0
  WakesFrom = (g.on_activate found).1 ≡ returned

  -- The end of a graceful lifecycle: the state and the version are stored.
  closed_graceful :
      (strategy : PersistenceStrategy) (vb : Bytes) (t : Task S M W)
      → version.serialize v.state_version ≡ some vb
      → (t' : Task S M W) × (b : Bytes) × (closing_versioned v g ser version store id strategy
            (t, false)
          ≡ (t', false))
        × (ser.deserialize b ≡ some t.state)
        × (store.load id t'.world ≡ (t'.world, ok (some b)))
        × (store.load (version_grain_id id) t'.world ≡ (t'.world, ok (some vb)))
  unfolding closing_versioned save_versioned save_version save_with_retry
  closed_graceful strategy vb t h =
      let (b, encoded, decoded) = lossless.encodes t.state in
      let (w1, written, read) = reliable.saves id b t.world in
      let (w2, written2, read2) = reliable.saves (version_grain_id id) vb w1 in
      let t' = (closing_versioned v g ser version store id strategy (t, false)).0 in
      let (once, done) = saved_once M store id b t.world w1 written in
      let came : t'.world ≡ w2 = ground (arith, once, done, encoded, h, written2) in
      let ids_differ : version_grain_id id ≢ id = version_grain_id-ne id in
      let kept : store.load id w2 ≡ (w2, ok (some b)) =
        ground
          (arith, written2, apart.keeps (version_grain_id id) id vb (some b) w1 ids_differ read) in
      (t', b, refl, decoded, rw came kept, rw came read2)

  -- After a graceful end, the next activation, of this deployment or a later one with its own state
  -- type, version and migrations, reads the bytes of the state that `on_deactivate` left, upgraded
  -- from this deployment's version: each migration between the two versions runs on them once, in
  -- order, and none where the versions are equal. The store works and keeps its keys apart, and the
  -- serializers are lossless.
  pub run_versioned_upgrades :
      {S' : Type 0}
      → (v' : VersionedGrain) (ser' : Serializer S') (strategy : PersistenceStrategy)
        (ms : List (M × ℕ)) (s : S) (stop : Wakeup M) (rest : List (Wakeup M))
      → IsLossless version
      → WakesFrom
      → Serves g ser store id ms (g.on_activate found).0 s
      → is_stop stop ≡ true
      → (t : Task S M W) × (b : Bytes) × (run_versioned v g ser version store id strategy w now
            (arrivals g ser store id ms ++ stop ∷ rest)
          ≡ some (t, false))
        × (ser.deserialize b ≡ some (g.on_deactivate s).0)
        × (load_versioned_state v' ser' version store id t.world
            ≡ (t.world, upgraded v' ser' v.state_version (ok (some b))))
  unfolding run_versioned stored_version
  run_versioned_upgrades v' ser' strategy ms s stop rest lv wakes h e =
      let (vb, encoded, decoded) = lv.encodes v.state_version in
      let (t1, ran, came) =
        run_lifecycle_graceful g ser store id reliable lossless false
          (loaded_task v g ser version store id w now) wakes strategy ms s stop rest h e in
      let (t2, b, closed, reads, held, held_version) = closed_graceful strategy vb t1 encoded in
      (
        t2,
        b,
        ap (Option.map (closing_versioned v g ser version store id strategy)) ran ∙ ap some closed,
        reads ∙ ap some came,
        load_versioned_state-held v' ser' version store id v.state_version (some vb) b t2.world
            held_version (ground (arith, decoded)) held,
      )

  -- After a graceful end, the next activation of the same deployment starts from the state that
  -- `on_deactivate` left. The store works and keeps its keys apart, and the serializers are lossless.
  pub run_versioned_recovers :
      (strategy : PersistenceStrategy) (ms : List (M × ℕ)) (s : S) (stop : Wakeup M)
      (rest : List (Wakeup M))
      → IsLossless version
      → WakesFrom
      → Serves g ser store id ms (g.on_activate found).0 s
      → is_stop stop ≡ true
      → (t : Task S M W) × (run_versioned v g ser version store id strategy w now
            (arrivals g ser store id ms ++ stop ∷ rest)
          ≡ some (t, false))
        × (load_versioned_state v ser version store id t.world
            ≡ (t.world, ok (some (g.on_deactivate s).0)))
  unfolding upgraded read_back migrated
  run_versioned_recovers strategy ms s stop rest lv wakes h e =
      let (t, b, ran, reads, loads) =
        run_versioned_upgrades v ser strategy ms s stop rest lv wakes h e in
      let none_left : v.state_version - v.state_version ≡ 0 = omega arith in
      (t, ran, loads ∙ ground (arith, none_left, reads))

  -- Under write-through a panic leaves the state that the last served message made, in the format of
  -- this deployment, under the version that the store held before: where that is the version `from`,
  -- the next load of the same deployment runs the migrations from `from` on over bytes that are
  -- already in the current format. The store works and keeps its keys apart, the serializer is
  -- lossless, and at least one message was served before the panic.
  pub run_versioned_remigrates :
      (from : ℕ) (o : Option Bytes) (m p : M) (at_m at_p : ℕ) (ms : List (M × ℕ)) (s : S)
      (rest : List (Wakeup M))
      → WakesFrom
      → store.load (version_grain_id id) (loaded_task {M = M} v g ser version store id w now).world
        ≡ ((loaded_task {M = M} v g ser version store id w now).world, ok o)
      → stored_version version (ok o) ≡ ok from
      → Serves g ser store id ((m, at_m) ∷ ms) (g.on_activate found).0 s
      → (g.handle p s).1 ≡ panicked
      → (t : Task S M W) × (b : Bytes) × (run_versioned v g ser version store id write_through w now
            (arrivals g ser store id ((m, at_m) ∷ ms) ++ message p at_p ∷ rest)
          ≡ some (t, true))
        × (ser.deserialize b ≡ some s)
        × (load_versioned_state v ser version store id t.world
            ≡ (t.world, upgraded v ser from (ok (some b))))
  unfolding run_versioned closing_versioned
  run_versioned_remigrates from o m p at_m at_p ms s rest wakes holds is_from h e =
      let t0 = loaded_task v g ser version store id w now in
      let ws = arrivals g ser store id ((m, at_m) ∷ ms) ++ message p at_p ∷ rest in
      let (t1, ran, (b, reads, held)) =
        run_lifecycle_panicked g ser store id reliable lossless false t0 wakes m p at_m at_p ms s
          rest h e in
      let version_kept : store.load (version_grain_id id) t1.world ≡ (t1.world, ok o) =
        subst (AfterEnd g ser store id write_through false HoldsVersion KeepsVersion) ran (
          run_lifecycle-Keeps g ser store id write_through false HoldsVersion KeepsVersion ws t0
            holds) in
      (
        (closing_versioned v g ser version store id write_through (t1, true)).0,
        b,
        ap (Option.map (closing_versioned v g ser version store id write_through)) ran,
        reads,
        load_versioned_state-held v ser version store id from o b t1.world version_kept is_from
            held,
      )
    where
      HoldsVersion : W → Type 0
      HoldsVersion w = store.load (version_grain_id id) w ≡ (w, ok o)

      KeepsVersion : (b : Bytes) (w : W) → HoldsVersion w → HoldsVersion (store.save id b w).0
      KeepsVersion b w k =
          apart.keeps id (version_grain_id id) b o w (λ q. version_grain_id-ne id (sym q)) k
