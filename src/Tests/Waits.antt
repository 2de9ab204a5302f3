-- ===== src/Tests/Waits.antt =====
-- Concrete futures on an object's count.
use binderbinder.Base.{◌≡◌, ◌↔◌, refl, true, not, ok, final, arith, insert}
use binderbinder.Tests.{first_id, history}
use binderbinder.Refcount.{ObjectRefState, new}
use binderbinder.Refcount.History.{up_local, down_local, acquire, release, run, tally}
use binderbinder.Device.{Device, opened, same_id}
use binderbinder.Device.Objects.{remove_binder_object}
use binderbinder.Device.Objects.Waits.{
  subscribe, strong_refs_hit_zero, strong_refs_not_zero, watcher, futures_watch,
}

abbrev counted : ObjectRefState
counted = final (run true history (new first_id))

run_counted : run true history (new first_id) ≡ ok tt counted
unfolding run binderbinder.Refcount.History.call new binderbinder.Base.Words.add_u32
    binderbinder.Base.Words.sub_u32
run_counted = refl

abbrev device : Device
device = record opened {
  object_refcounts = insert (same_id first_id) counted opened.object_refcounts;
}

futures_watch_example :
    (subscribe first_id device ≡ ok (watcher first_id) device)
    × (strong_refs_not_zero (watcher first_id) device
        ≡ not (strong_refs_hit_zero (watcher first_id) device))
    × ((strong_refs_hit_zero (watcher first_id) device ≡ true) ↔ (
        (tally up_local history ≡ tally down_local history)
        × (tally acquire history ≡ tally release history)
        × (counted.counts.pending ≡ 0)))
    × (strong_refs_hit_zero (watcher first_id) (final (remove_binder_object first_id device))
        ≡ true)
    × (strong_refs_not_zero (watcher first_id) (final (remove_binder_object first_id device))
        ≡ true)
futures_watch_example =
    futures_watch true first_id history counted device (omega arith) run_counted refl
