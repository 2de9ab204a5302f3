-- ===== src/Device/Objects/Waits.antt =====
-- src/binder_object.rs: `strong_refs_hit_zero` and `strong_refs_not_zero`, of an object and of a ref. Each
-- subscribes at once, and its future ends when the value passes the test, or when the sender is gone
-- with the object's counts: `wait_for` fails then, and its result is not looked at.
use binderbinder.Base.{
  ◌≡◌, ◌↔◌, sym, ap, ◌∙◌, Bool, true, false, not, ◌||◌, none, some, List, ok, final, Cmd,
}
use binderbinder.Refcount.{ObjectId, ObjectRefState, no_counts, new, hit_zero, not_zero}
use binderbinder.Refcount.History.{
  Call, up_local, down_local, acquire, release, AllAllowed, run, tally, hit_zero-run,
}
use binderbinder.Device.{Device, same_id_self}
use binderbinder.Device.Objects.{remove_binder_object}

-- What a future keeps: the object, and whether it had counts to subscribe to.
pub record Waiting : Type 0 where
  pub id : ObjectId
  pub subscribed : Bool

unfoldable pub subscribe : ObjectId → Cmd Device Waiting
subscribe id d =
    ok
      (record {
        id = id;
        subscribed = elim (d.object_refcounts id) [ none ↦ false | some r ↦ true ];
      })
      d

-- Whether each future is over.
unfoldable pub strong_refs_hit_zero : Waiting → Device → Bool
unfolding hit_zero
strong_refs_hit_zero w d =
    not w.subscribed || elim (d.object_refcounts w.id) [ none ↦ true | some r ↦ hit_zero r ]

unfoldable pub strong_refs_not_zero : Waiting → Device → Bool
unfolding not_zero
strong_refs_not_zero w d =
    not w.subscribed || elim (d.object_refcounts w.id) [ none ↦ true | some r ↦ not_zero r ]

abbrev pub watcher : ObjectId → Waiting
watcher id = record { id = id; subscribed = true }

-- For an object that is counted, after any history of its counts in which guards are dropped once, the
-- kernel releases what it acquired and the counts stay below 2^32: a future made now is one that
-- watches; of the two kinds exactly one is over, and it is the one for zero exactly if every local ref
-- was dropped, every acquire was released and no send holds a credit. Once the object is removed both
-- are over, whatever its count was.
pub futures_watch :
    (checks : Bool) (id : ObjectId) (ks : List Call) (t : ObjectRefState) (d : Device)
    → AllAllowed ks no_counts
    → run checks ks (new id) ≡ ok tt t
    → d.object_refcounts id ≡ some t
    → (subscribe id d ≡ ok (watcher id) d)
      × (strong_refs_not_zero (watcher id) d ≡ not (strong_refs_hit_zero (watcher id) d))
      × ((strong_refs_hit_zero (watcher id) d ≡ true) ↔ (
          (tally up_local ks ≡ tally down_local ks)
          × (tally acquire ks ≡ tally release ks)
          × (t.counts.pending ≡ 0)))
      × (strong_refs_hit_zero (watcher id) (final (remove_binder_object id d)) ≡ true)
      × (strong_refs_not_zero (watcher id) (final (remove_binder_object id d)) ≡ true)
unfolding subscribe strong_refs_hit_zero strong_refs_not_zero remove_binder_object
futures_watch checks id ks t d allowed ran counted =
    let (s, ran', zero) = hit_zero-run checks id ks allowed in
    let same : s ≡ t = ap final (sym ran' ∙ ran) in
    (rw counted, rw counted, rw (counted, ← same) zero, rw (same_id_self id), rw (same_id_self id))
