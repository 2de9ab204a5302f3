-- ===== src/Tests.antt =====
-- Concrete runs: an object, a remote handle and a payload.
mod Handles
mod Wire
mod Waits
mod Identity
use binderbinder.Base.{
  sym, ◌∙◌, inl, ◌+◌, ◌<◌, ◌≡◌, ◌↔◌, refl, subst, Bool, true, false, none, some, List, [], ◌∷◌,
  ◌++◌, ok, panic, final, arith, length-replicate, replicate, map,
}
use binderbinder.Refcount.{
  ObjectId, ObjectRefState, new, hit_zero, increase_local, decrease_local, update,
}
use binderbinder.Refcount.History.{
  Call, up_local, down_local, acquire, release, mark, rollback, call, run, new-IsSound, tally,
  hit_zero-run, sum, settled, IsSound,
}
use binderbinder.Refcount.Rollback.{rollback_takes_other_credit}
use binderbinder.Device.{Handler, on_refcount, opened}
use binderbinder.Base.Words.{u32_mod, add_u32, sub_u32}
use binderbinder.Base.Bytes.{to_bytes, from_bytes}
use binderbinder.Device.Objects.{
  BinderObject, Borrowed, register_object, object_to_borrowed, drop_borrowed, borrow_from_id,
}
use binderbinder.Device.Objects.Guards.{
  World, Action, register, to_object, drop_borrow, perform, perform_all, IsGranted, AllGranted,
  count_for, HasRoom,
}
use binderbinder.Device.Objects.Ledger.Actions.{start, ledger}
use binderbinder.Device.Objects.Service.{is_over, release_service}
use binderbinder.Device.Objects.Service.Lifecycle.{
  next_id, IsFresh, used, serving, task, life, service_lifecycle,
}
use binderbinder.Device.Objects.Service.Race.{upgraded, late_upgrade_lost}
use binderbinder.Device.Driver.{Driver, received}
use binderbinder.Device.ObjectOrRef.{get_flat_binder_object, weak_object}
use binderbinder.Device.Handles.Lifecycle.{IsNew, disconnected}
use binderbinder.Device.Handles.{live_ref}
use binderbinder.Device.Handles.Lifecycle.Race.{race, value, second_ref_lost}
use binderbinder.Device.Handles.Lifecycle.Session.{session, ref_lifecycle}
use binderbinder.Sys.ObjectType
use binderbinder.Sys.Opcodes.{linux}
use binderbinder.Sys.Returns.{BinderReturn, from_u32, return_code, from_u32-return_code}
use binderbinder.Sys.Structs.{FlatObject, flat_bytes, encode}
use binderbinder.Payload.Builder.{
  blank, fd_object, push_bytes, push_fd, push_binder_ref, push_object, align, pad,
}
use binderbinder.Payload.Layout.{
  Content, raw, descriptor, carried, Push, content, child_buffer, push_all, IsOrdered,
  push_all-IsOrdered,
}
use binderbinder.Payload.Reader.{
  Reading, read_bytes, bytes_until_next_obj, success, with_reader, fd_array, next_object_type,
}
use binderbinder.Payload.Reader.Ends.{drain_all}
use binderbinder.Payload.Reader.Drain.{drain_all-stuck}
use binderbinder.Payload.RoundTrip.Reads.{after_part}
use binderbinder.Payload.RoundTrip.Program.{each, read_piece, meaning, view}
use binderbinder.Payload.RoundTrip.Pushed.{piece, push_contents, push_read}
use binderbinder.Payload.RoundTrip.Overlap.{at_object, read_bytes-over_object}

abbrev pub first_id : ObjectId
first_id = record { id = 1; cookie = 0 }

abbrev pub handler : Handler
handler = record { address = 16; type_id = 3 }

abbrev pub driver : Driver
driver = record {
  checks = true;
  opcodes = linux;
  padding = 0;
  pid = 100;
  euid = 1000;
  uid = 1000;
  write_fails = λ log cs. false;
  answer = λ log. received [];
  error_param = λ log. 0;
  memory = λ p n. replicate n 0;
  words = λ p n. replicate n 0;
  length_memory = λ p n. length-replicate n 0;
  length_words = λ p n. length-replicate n 0;
}

abbrev pub history : List Call
history = mark ∷ acquire ∷ up_local ∷ release ∷ down_local ∷ []

hit_zero-run_example :
    (t : ObjectRefState) × (run true history (new first_id) ≡ ok tt t)
    × ((hit_zero t ≡ true) ↔ (
        (tally up_local history ≡ tally down_local history)
        × (tally acquire history ≡ tally release history)
        × (t.counts.pending ≡ 0)))
hit_zero-run_example = hit_zero-run true first_id history (omega arith)

abbrev acquired : ObjectRefState
acquired = settled (new first_id) (record { local = 0; remote = 1; pending = 0 })

acquired-IsSound : IsSound acquired
unfolding new
acquired-IsSound = ground arith

rollback_takes_other_credit_example :
    run true (mark ∷ release ∷ mark ∷ rollback ∷ []) acquired ≡ run true (release ∷ []) acquired
rollback_takes_other_credit_example =
    rollback_takes_other_credit true acquired acquired-IsSound refl (omega arith)

from_u32-return_code_example :
    from_u32 linux (return_code linux BinderReturn.acquire) ≡ some BinderReturn.acquire
from_u32-return_code_example = from_u32-return_code linux BinderReturn.acquire

abbrev first_object : BinderObject
first_object = record { id = first_id; handler = handler }

abbrev first_borrow : Borrowed
first_borrow = record { id = first_id; handler = handler; increased_local_ref = true }

abbrev registered : World
registered = final (perform true (register handler) start)

abbrev borrowed : World
borrowed = final (perform true (to_object first_object) registered)

ok_inj : {A S : Type 0} {a b : A} {s t : S} → ok a s ≡ ok b t → s ≡ t
ok_inj e = cc

granted-now :
    (a : Action) (actions : List Action) (w u : World)
    → IsGranted a w
    → perform true a w ≡ ok tt u
    → AllGranted true actions u
    → AllGranted true (a ∷ actions) w
granted-now a actions w u g e all =
    (g, λ v f. subst (AllGranted true actions) (ok_inj (sym e ∙ f)) all)

some_inj : {A : Type 0} {a b : A} → some a ≡ some b → a ≡ b
some_inj e = cc

room :
    (w : World) (r : ObjectRefState)
    → w.device.object_refcounts first_id ≡ some r
    → sum r.counts + 1 < u32_mod
    → HasRoom first_id w
room w r e small t f =
    subst (λ (x : ObjectRefState). sum x.counts + 1 < u32_mod) (some_inj (sym e ∙ f)) small

abbrev actions : List Action
actions = register handler ∷ to_object first_object ∷ drop_borrow first_borrow ∷ []

actions-granted : AllGranted true actions start
unfolding perform register_object object_to_borrowed drop_borrowed on_refcount new increase_local
    decrease_local update add_u32 sub_u32
actions-granted =
    granted-now (register handler) (to_object first_object ∷ drop_borrow first_borrow ∷ []) start
      registered (omega arith) refl
      (granted-now (to_object first_object) (drop_borrow first_borrow ∷ []) registered borrowed
        (room registered (new first_id) refl (omega arith), omega arith) refl
        (granted-now (drop_borrow first_borrow) [] borrowed
          (final (perform true (drop_borrow first_borrow) borrowed)) refl refl tt))

ledger_example :
    (w : World) × (perform_all true actions start ≡ ok tt w)
    × ((id : ObjectId) (r : ObjectRefState)
        → w.device.object_refcounts id ≡ some r
        → (r.counts.local ≡ count_for id w.guards) × (r.strong_count ≡ sum r.counts))
ledger_example = ledger true actions actions-granted

opened-IsFresh : IsFresh opened
opened-IsFresh = record { objects = refl; refcounts = refl; services = refl; room = omega arith }

service_lifecycle_example : life true handler 2 opened ≡ ok (false, false, true) (used opened)
service_lifecycle_example = service_lifecycle true opened handler 2 opened-IsFresh (omega arith)

late_upgrade_lost_example :
    (is_over (task true opened handler) (serving opened handler 0) ≡ true)
    × (borrow_from_id true (next_id opened) (serving opened handler 0)
        ≡ ok (some (upgraded true opened handler)) (serving opened handler 1))
    × (release_service (next_id opened) (serving opened handler 1) ≡ ok tt (used opened))
    × ((used opened).objects (upgraded true opened handler).id ≡ none)
late_upgrade_lost_example = late_upgrade_lost true opened handler opened-IsFresh

abbrev contents : List Content
contents =
    raw (1 ∷ 2 ∷ 3 ∷ []) ∷ descriptor 5 9 ∷ carried (weak_object first_id) ∷ raw (4 ∷ []) ∷ []

push_read_example :
    view (
      each (read_piece driver) (map (piece driver opened) contents) (record {
        reader = after_part none [] blank (push_contents driver opened contents blank);
        device = opened;
      }))
    ≡ each (meaning driver) (map (piece driver opened) contents) opened
unfolding fd_object get_flat_binder_object push_bytes push_fd push_binder_ref push_object align pad
    flat_bytes encode to_bytes
push_read_example =
    push_read driver opened none [] contents opened
      (tt, ((omega arith, omega arith), ((omega arith, omega arith), (tt, tt)))) (omega arith)

abbrev pushes : List Push
pushes = content (raw (1 ∷ [])) ∷ content (descriptor 5 9) ∷ child_buffer 4096 32 0 0 ∷ []

push_all-IsOrdered_example : IsOrdered (push_all driver opened pushes blank)
push_all-IsOrdered_example = push_all-IsOrdered driver opened pushes blank (omega arith)

abbrev weak_flat : FlatObject
weak_flat = record { type_ = 5; flags = 0; bits = 1; cookie = 0 }

read_bytes-over_object_example :
    (read_bytes driver 24 (at_object none [] opened weak_flat blank)
      ≡ ok (success (flat_bytes weak_flat)) (
          with_reader
            (record (at_object none [] opened weak_flat blank).reader { next_data_index = 24 })
            (at_object none [] opened weak_flat blank)))
    × (bytes_until_next_obj (at_object none [] opened weak_flat blank).reader ≡ 24)
read_bytes-over_object_example =
    read_bytes-over_object none [] opened weak_flat blank driver (omega arith) refl (omega arith)

-- A reader at an array of descriptors.
abbrev at_array : Reading
at_array = record {
  reader = record {
    data_ = 0x85 ∷ b'a' ∷ b'd' ∷ b'f' ∷ [];
    mapped = none;
    offsets = some (0 ∷ []);
    binder_objects = [];
    next_offset_index = 0;
    next_data_index = 0;
  };
  device = opened;
}

drain_all-stuck_example : drain_all driver 1000 at_array ≡ ok false at_array
unfolding next_object_type from_bytes ObjectType.binder ObjectType.handle ObjectType.weak_binder
    ObjectType.weak_handle ObjectType.fd ObjectType.fda
drain_all-stuck_example = drain_all-stuck driver 1000 at_array (some fd_array) refl (inl refl)
